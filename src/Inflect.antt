-- ===== src/Inflect.antt =====
-- inflect/inflect.go: the case conversions and the plural forms of names. The tables of package
-- unicode are a parameter. Input and Next belong to the registry of plugins.
pub mod Nouns
pub mod EnumNames
pub mod Plural
mod Samples
use pdbcore.Prelude.{
  ℕ, zero, suc, ◌+◌, Bool, true, false, ◌||◌, ◌&&◌, List, [], ◌∷◌, ◌++◌, Text, codes, lower_rune,
  map, ltb, ◌==◌, if◌then◌else◌,
}
use Prim.Native.Nat.{◌%◌}
use pdbcore.Prelude.Words.{join}

-- Package unicode.
pub record Unicode : Type 0 where
  pub is_letter : ℕ → Bool
  pub is_upper : ℕ → Bool
  pub is_lower : ℕ → Bool
  pub is_decimal : ℕ → Bool
  pub to_upper : ℕ → ℕ

unfoldable pub is_separator : ℕ → Bool
is_separator r = r == b'_' || r == b'-' || r == b' '

-- The number of bytes of a rune in UTF-8, and the last of them.
unfoldable pub rune_length : ℕ → ℕ
rune_length r = if ltb r 0x80 then 1 else if ltb r 0x800 then 2 else if ltb r 0x10000 then 3 else 4

unfoldable pub last_byte : ℕ → ℕ
last_byte r = if ltb r 0x80 then r else 0x80 + r % 0x40

unfoldable pub replacements : ℕ → Text
replacements zero = []
replacements (suc n) = 0xfffd ∷ replacements n

module _ (unicode : Unicode) where
  -- The loop of UpperCamel, by whether the next rune is to be upper case.
  unfoldable pub camel_runes : Bool → Text → Text
  camel_runes up [] = []
  camel_runes up (r ∷ s) =
      let skipped = camel_runes true s in
      let rest = camel_runes false s in
      if is_separator r then skipped else if up then unicode.to_upper r ∷ rest else r ∷ rest

  -- UpperCamel
  unfoldable pub upper_camel : Text → Text
  upper_camel s = camel_runes true s

  -- LowerCamel cuts off one byte. Of a rune of several bytes the first becomes the replacement
  -- character and the others stand alone: a range over them reads that character again.
  unfoldable pub lower_first : Text → Text
  lower_first [] = []
  lower_first (r ∷ s) = if ltb r 0x80 then lower_rune r ∷ s else replacements (rune_length r) ++ s

  -- LowerCamel
  unfoldable pub lower_camel : Text → Text
  lower_camel s = lower_first (upper_camel s)

  -- unicode.IsLower(rune(s[i-1])), if there is such a byte.
  abbrev pub follows_lower : List ℕ → Bool
  follows_lower [] = false
  follows_lower (b ∷ bs) = unicode.is_lower b

  -- The runes that EnumValue writes for one rune, behind the byte in front of it.
  unfoldable pub enum_rune : List ℕ → ℕ → Text
  enum_rune before r =
      let boundary = unicode.is_upper r && follows_lower before in
      if unicode.is_letter r
      then (if boundary then b'_' ∷ unicode.to_upper r ∷ [] else unicode.to_upper r ∷ [])
      else if unicode.is_decimal r
      then r ∷ []
      else b'_' ∷ []

  unfoldable pub enum_runes : List ℕ → Text → Text
  enum_runes before [] = []
  enum_runes before (r ∷ s) = enum_rune before r ++ enum_runes (last_byte r ∷ []) s

  -- The end of EnumValue: rune(out[0]) is the first byte, for a digit of one byte the rune.
  abbrev pub guard_first : Text → Text
  guard_first [] = codes "_"
  guard_first (r ∷ s) = if ltb r 0x80 && unicode.is_decimal r then b'_' ∷ r ∷ s else r ∷ s

  -- EnumValue
  unfoldable pub enum_value : Text → Text
  enum_value s = guard_first (enum_runes [] s)

  -- ByColumns
  unfoldable pub by_columns : List Text → Text
  by_columns cols = join (codes "And") (map upper_camel cols)
