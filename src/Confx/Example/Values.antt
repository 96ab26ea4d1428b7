-- ===== src/Confx/Example/Values.antt =====
-- No value breaks out of its line.
use Prim.Native.Nat.{suc, ◌%◌, ◌/◌}
use pdbcore.Prelude.{
  ◌≡◌, refl, ℕ, true, false, ◌||◌, ltb, List, [], ◌∷◌, ◌++◌, Option, Text, codes, quote_text,
  quoted_runes, quote_rune, hex_digits, zero, suc, Bool, hex_digit, map, All, All-append,
  All-weaken, arith, ◌==◌, text_eq, if-all,
}
use pdbcore.Prelude.Int.{ℤ, pos, negsuc}
use pdbcore.Prelude.Decimal.{decimal, decimal-All, is_digit}
use pdbcore.Prelude.Map.{Map, get, sorted_keys, keys, sort_strings, sort_strings-All}
use pdbcore.Prelude.Words.{join, Lacks}
use pdbcore.Confx.Fields.{
  Value, string, boolean, integer, duration, slice, map_of, struct, other, Elements, nil, cons,
  Entries, done, entry,
}
use pdbcore.Confx.Example.{
  Format, int_text, text_at, map_parts, enclosed, yaml_value, element_texts, entry_texts,
}

abbrev pub IsLine : Text → Type 0
IsLine = Lacks b'\n'

-- The raw parts of a value, which are printed as they are, hold no newline: the keys of maps and
-- the values of other kinds.
module _ (format : Format) where
  unfoldable mutual
    pub IsPlain : Value → Type 0
    IsPlain (string s) = Unit
    IsPlain (boolean b) = Unit
    IsPlain (integer n) = Unit
    IsPlain (duration d) = Unit
    IsPlain (slice vs) = ArePlain vs
    IsPlain (map_of es) = ArePlainEntries es
    IsPlain (struct fs) = IsLine (format.print_struct fs)
    IsPlain (other t) = IsLine t

    pub ArePlain : Elements → Type 0
    ArePlain nil = Unit
    ArePlain (cons v vs) = IsPlain v × ArePlain vs

    pub ArePlainEntries : Entries → Type 0
    ArePlainEntries done = Unit
    ArePlainEntries (entry k v es) = IsLine k × IsPlain v × ArePlainEntries es

hex_line : (d : ℕ) → (hex_digit d == b'\n') ≡ false
hex_line d = ground arith

hex_digits-IsLine : (n c : ℕ) → IsLine (hex_digits n c)
unfolding hex_digits
hex_digits-IsLine zero c = tt
hex_digits-IsLine (suc n) c =
    All-append _ (hex_digits n (c / 16)) _ (hex_digits-IsLine n (c / 16)) (hex_line (c % 16), tt)

module _ (is_print : ℕ → Bool) where
  quote_rune-IsLine : (c : ℕ) → IsLine (quote_rune is_print c)
  unfolding quote_rune
  quote_rune-IsLine c =
      if-all IsLine (c == 0x22) _ _ (λ e. (refl, (refl, tt)))
        (λ e.
          if-all IsLine (c == b'\\') _ _ (λ e. (refl, (refl, tt)))
            (λ e.
              if-all IsLine (c == 7) _ _ (λ e. (refl, (refl, tt)))
                (λ e.
                  if-all IsLine (c == 8) _ _ (λ e. (refl, (refl, tt)))
                    (λ e.
                      if-all IsLine (c == 9) _ _ (λ e. (refl, (refl, tt)))
                        (λ e.
                          if-all IsLine (c == 10) _ _ (λ e. (refl, (refl, tt)))
                            (λ newline.
                              if-all IsLine (c == 11) _ _ (λ e. (refl, (refl, tt)))
                                (λ e.
                                  if-all IsLine (c == 12) _ _ (λ e. (refl, (refl, tt)))
                                    (λ e.
                                      if-all IsLine (c == 13) _ _ (λ e. (refl, (refl, tt)))
                                        (λ e.
                                          if-all IsLine (ltb c 32 || c == 127) _ _
                                            (λ e. (
                                              refl,
                                              (refl, (hex_line (c / 16), (hex_line (c % 16), tt))),
                                            ))
                                            (λ e.
                                              if-all IsLine (ltb c 128 || is_print c) _ _
                                                (λ e. (newline, tt))
                                                (λ e.
                                                  if-all IsLine (ltb c 65536) _ _
                                                    (λ e. (refl, (refl, hex_digits-IsLine 4 c)))
                                                    (λ e. (
                                                      refl,
                                                      (refl, hex_digits-IsLine 8 c),
                                                    )))))))))))))

  quoted_runes-IsLine : (s : Text) → IsLine (quoted_runes is_print s)
  unfolding quoted_runes
  quoted_runes-IsLine [] = tt
  quoted_runes-IsLine (c ∷ s) =
      All-append _ (quote_rune is_print c) (quoted_runes is_print s) (quote_rune-IsLine c)
        (quoted_runes-IsLine s)

  quote_text-IsLine : (s : Text) → IsLine (quote_text is_print s)
  unfolding quote_text
  quote_text-IsLine s =
      (refl, All-append _ (quoted_runes is_print s) _ (quoted_runes-IsLine s) (refl, tt))

digit-line : (c : ℕ) → is_digit c ≡ true → (c == b'\n') ≡ false
unfolding is_digit
digit-line c h = ground arith

decimal-IsLine : (n : ℕ) → IsLine (decimal n)
decimal-IsLine n = All-weaken _ _ (decimal n) digit-line (decimal-All n)

int_text-IsLine : (n : ℤ) → IsLine (int_text n)
unfolding int_text
int_text-IsLine (pos n) = decimal-IsLine n
int_text-IsLine (negsuc n) = (refl, decimal-IsLine (suc n))

join-IsLine : (ws : List Text) → All IsLine ws → IsLine (join (codes ", ") ws)
unfolding join
join-IsLine [] h = tt
join-IsLine (w ∷ []) (hw, h) = hw
join-IsLine (w ∷ v ∷ ws) (hw, h) = All-append _ w _ hw (refl, (refl, join-IsLine (v ∷ ws) h))

enclosed-IsLine :
    (a b : ℕ) (ws : List Text)
    → (a == b'\n') ≡ false
    → (b == b'\n') ≡ false
    → All IsLine ws
    → IsLine (enclosed a b ws)
unfolding enclosed
enclosed-IsLine a b [] ha hb h = (ha, (hb, tt))
enclosed-IsLine a b (w ∷ ws) ha hb h =
    (ha, All-append _ (join (codes ", ") (w ∷ ws)) _ (join-IsLine (w ∷ ws) h) (hb, tt))

-- The keys and the values of a map.
abbrev AreLines : Map Text → Type 0
AreLines [] = Unit
AreLines ((k, v) ∷ m) = IsLine k × IsLine v × AreLines m

keys-All : (m : Map Text) → AreLines m → All IsLine (keys m)
unfolding keys
keys-All [] h = tt
keys-All ((k, v) ∷ m) (hk, hv, h) = (hk, keys-All m h)

get-IsLine : (k : Text) (m : Map Text) → AreLines m → IsLine (text_at (get k m))
unfolding get
get-IsLine k [] h = tt
get-IsLine k ((j, v) ∷ m) (hj, hv, h) =
    if-all (λ (o : Option Text). IsLine (text_at o)) (text_eq j k) _ _ (λ e. hv)
      (λ e. get-IsLine k m h)

parts-IsLine :
    (m : Map Text) (ks : List Text)
    → AreLines m
    → All IsLine ks
    → All IsLine (map (λ k. k ++ (codes ": " ++ text_at (get k m))) ks)
parts-IsLine m [] h hk = tt
parts-IsLine m (k ∷ ks) h (here, hk) =
    (All-append _ k _ here (refl, (refl, get-IsLine k m h)), parts-IsLine m ks h hk)

map_parts-IsLine : (m : Map Text) → AreLines m → All IsLine (map_parts m)
unfolding map_parts sorted_keys
map_parts-IsLine m h =
    parts-IsLine m (sort_strings (keys m)) h (sort_strings-All IsLine (keys m) (keys-All m h))

module _ (format : Format) where
  mutual
    unfolding yaml_value IsPlain

    printed-IsLine : (v : Value) → IsPlain format v → IsLine (yaml_value format v)
    printed-IsLine (string s) h = quote_text-IsLine format.is_print s
    printed-IsLine (boolean true) h = (refl, (refl, (refl, (refl, tt))))
    printed-IsLine (boolean false) h = (refl, (refl, (refl, (refl, (refl, tt)))))
    printed-IsLine (integer n) h = int_text-IsLine n
    printed-IsLine (duration d) h = quote_text-IsLine format.is_print (format.duration_text d)
    printed-IsLine (slice vs) h =
        enclosed-IsLine b'[' b']' (element_texts format vs) refl refl (element_texts-lines vs h)
    printed-IsLine (map_of es) h =
        enclosed-IsLine b'{' b'}' (map_parts (entry_texts format es)) refl refl
          (map_parts-IsLine (entry_texts format es) (entry_texts-lines es h))
    printed-IsLine (struct fs) h = h
    printed-IsLine (other t) h = h

    element_texts-lines :
        (vs : Elements) → ArePlain format vs → All IsLine (element_texts format vs)
    element_texts-lines nil h = tt
    element_texts-lines (cons v vs) (hv, h) = (printed-IsLine v hv, element_texts-lines vs h)

    entry_texts-lines :
        (es : Entries) → ArePlainEntries format es → AreLines (entry_texts format es)
    entry_texts-lines done h = tt
    entry_texts-lines (entry k v es) (hk, hv, h) = (hk, printed-IsLine v hv, entry_texts-lines es h)

  -- The YAML of a value is one line, if its raw parts are: no string breaks out of its quotes.
  pub yaml_value-IsLine : (v : Value) → IsPlain format v → IsLine (yaml_value format v)
  yaml_value-IsLine v h = printed-IsLine v h
