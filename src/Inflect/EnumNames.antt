-- ===== src/Inflect/EnumNames.antt =====
-- What EnumValue makes of any label.
use pdbcore.Prelude.{
  ◌≡◌, refl, ◌⊎◌, inl, inr, ℕ, true, false, ◌&&◌, List, [], ◌∷◌, Text, All, All-append, ltb, if-all,
}
use pdbcore.Inflect.{
  Unicode, enum_rune, enum_runes, guard_first, follows_lower, enum_value, last_byte,
}

module _ (unicode : Unicode) where
  -- An underscore, a digit, or a letter in upper case.
  abbrev pub IsEnumRune : ℕ → Type 0
  IsEnumRune r =
      (r ≡ b'_')
      ⊎ ((unicode.is_decimal r ≡ true)
          ⊎ ((c : ℕ) × (unicode.is_letter c ≡ true) × (r ≡ unicode.to_upper c)))

  -- Not empty, and no digit of one byte in front.
  abbrev pub IsGuarded : Text → Type 0
  IsGuarded [] = ⊥
  IsGuarded (r ∷ s) = ltb r 0x80 && unicode.is_decimal r ≡ false

  enum_rune-All : (before : List ℕ) (r : ℕ) → All IsEnumRune (enum_rune unicode before r)
  unfolding enum_rune
  enum_rune-All before r =
      if-all (All IsEnumRune) (unicode.is_letter r) _ _
        (λ e.
          if-all (All IsEnumRune) (unicode.is_upper r && follows_lower unicode before)
            (b'_' ∷ unicode.to_upper r ∷ []) (unicode.to_upper r ∷ [])
            (λ k. (inl refl, (inr (inr (r, e, refl)), tt))) (λ k. (inr (inr (r, e, refl)), tt)))
        (λ e.
          if-all (All IsEnumRune) (unicode.is_decimal r) _ _ (λ k. (inr (inl k), tt))
            (λ k. (inl refl, tt)))

  enum_runes-All : (before : List ℕ) (s : Text) → All IsEnumRune (enum_runes unicode before s)
  unfolding enum_runes
  enum_runes-All before [] = tt
  enum_runes-All before (r ∷ s) =
      All-append IsEnumRune (enum_rune unicode before r) _ (enum_rune-All before r)
        (enum_runes-All (last_byte r ∷ []) s)

  guard_first-All :
      (s : Text)
      → All IsEnumRune s
      → unicode.is_decimal b'_' ≡ false
      → All IsEnumRune (guard_first unicode s) × IsGuarded (guard_first unicode s)
  guard_first-All [] h k = ((inl refl, tt), k)
  guard_first-All (r ∷ s) h k =
      if-all (λ t. All IsEnumRune t × IsGuarded t) (ltb r 0x80 && unicode.is_decimal r) _ _
        (λ e. ((inl refl, h), k)) (λ e. (h, e))

  -- Whatever the label, EnumValue gives a name of underscores, digits and letters in upper case
  -- that is not empty and has no digit of one byte in front, if the underscore is no digit.
  pub enum_value-IsGuarded :
      (s : Text)
      → unicode.is_decimal b'_' ≡ false
      → All IsEnumRune (enum_value unicode s) × IsGuarded (enum_value unicode s)
  unfolding enum_value
  enum_value-IsGuarded s k = guard_first-All (enum_runes unicode [] s) (enum_runes-All [] s) k
