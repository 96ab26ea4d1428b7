-- ===== src/Postgis/Srid.antt =====
-- The reference system that a GeoJSON document names.
use pdbcore.Prelude.{
  ◌≡◌, refl, ap, ap₂, ◌∙◌, ℕ, ◌+◌, ◌*◌, ◌-◌, ◌<◌, Bool, true, false, not, [], ◌∷◌, ◌++◌, Option,
  none, some, Text, codes, all, All, cut_prefix, cut_prefix-append, if◌then◌else◌, if-all, arith,
}
use Prim.Native.Nat.{◌%◌, ◌^◌}
use pdbcore.Prelude.Decimal.{is_digit, read_digits, decimal, read_digits-decimal, decimal-All}
use pdbcore.Postgis.GeoJson.{
  Json, null, boolean, number, string, array, object, Members, at, as_object, srid_number,
  is_positive, number_behind, or_else_try, srid_behind, srid_of_name, name_srid, explicit_srid,
}

wrap_step : (n d : ℕ) → (n % 2 ^ 64 * 10 + d) % 2 ^ 64 ≡ (n * 10 + d) % 2 ^ 64
wrap_step n d = omega arith

srid_number-wrap : (n : ℕ) (s : Text) → srid_number (n % 2 ^ 64) s ≡ read_digits n s % 2 ^ 64
unfolding srid_number read_digits
srid_number-wrap n [] = refl
srid_number-wrap n (c ∷ s) =
    ap (λ (k : ℕ). srid_number k s) (wrap_step n (c - 48)) ∙ srid_number-wrap (n * 10 + (c - 48)) s

-- A number in decimal is read modulo 2 ^ 64.
srid_number-decimal : (n : ℕ) → srid_number 0 (decimal n) ≡ n % 2 ^ 64
srid_number-decimal n = srid_number-wrap 0 (decimal n) ∙ (rw (read_digits-decimal n) refl)

all-All : (s : Text) → All (λ c. is_digit c ≡ true) s → all is_digit s ≡ true
unfolding all
all-All [] h = refl
all-All (c ∷ s) (hc, h) = rw (hc, all-All s h) refl

-- The result of one prefix for a number.
abbrev found : ℕ → Option (Option ℕ)
found n = if is_positive n then some (some n) else none

number_behind-decimal : (n : ℕ) → number_behind (decimal n) ≡ found (n % 2 ^ 64)
unfolding number_behind
number_behind-decimal n = rw (all-All (decimal n) (decimal-All n), srid_number-decimal n) refl

srid_behind-append : (p : Text) (n : ℕ) → srid_behind (p ++ decimal n) p ≡ found (n % 2 ^ 64)
unfolding srid_behind
srid_behind-append p n = rw (cut_prefix-append p (decimal n), srid_behind) (number_behind-decimal n)

other_prefix : (s : Text) → srid_behind (b'E' ∷ s) (codes "urn:ogc:def:crs:EPSG::") ≡ none
unfolding srid_behind cut_prefix
other_prefix s = refl

-- The name "EPSG:" with any number in decimal is read as that number modulo 2 ^ 64, and as
-- no reference system if what is left is 0 or, as a signed number, negative.
pub srid_of_name-decimal :
    (n : ℕ)
    → srid_of_name (codes "EPSG:" ++ decimal n)
      ≡ (if is_positive (n % 2 ^ 64) then some (n % 2 ^ 64) else none)
unfolding srid_of_name
srid_of_name-decimal n =
    ap₂ or_else_try (srid_behind-append (codes "EPSG:") n)
      (other_prefix (codes "PSG:" ++ decimal n))
    ∙ by_sign (is_positive (n % 2 ^ 64))
  where
    by_sign :
        (b : Bool)
        → or_else_try (if b then some (some (n % 2 ^ 64)) else none) none
          ≡ (if b then some (n % 2 ^ 64) else none)
    by_sign true = refl
    by_sign false = refl

-- What a number satisfies, if there is one.
abbrev pub OptionAll : {A : Type 0} → (A → Type 0) → Option A → Type 0
OptionAll P none = Unit
OptionAll P (some a) = P a

abbrev pub IsPositive : ℕ → Type 0
IsPositive n = (0 < n) × (n < 2 ^ 63)

is_positive_sound : (n : ℕ) → is_positive n ≡ true → IsPositive n
is_positive_sound n h = (ground arith, ground arith)

number_behind-OptionAll : (rest : Text) → OptionAll (OptionAll IsPositive) (number_behind rest)
unfolding number_behind
number_behind-OptionAll rest =
    if-all (OptionAll (OptionAll IsPositive)) (not (all is_digit rest)) _ _ (λ e. tt)
      (λ e.
        if-all (OptionAll (OptionAll IsPositive)) (is_positive (srid_number 0 rest)) _ _
          (λ e. is_positive_sound (srid_number 0 rest) e) (λ e. tt))

srid_behind-OptionAll :
    (name prefix : Text) → OptionAll (OptionAll IsPositive) (srid_behind name prefix)
unfolding srid_behind
srid_behind-OptionAll name prefix = by_rest (cut_prefix name prefix)
  where
    by_rest :
        (o : Option Text)
        → OptionAll (OptionAll IsPositive) (elim o [ none ↦ none | some r ↦ number_behind r ])
    by_rest none = tt
    by_rest (some r) = number_behind-OptionAll r

or_else_try-OptionAll :
    (a b : Option (Option ℕ))
    → OptionAll (OptionAll IsPositive) a
    → OptionAll (OptionAll IsPositive) b
    → OptionAll IsPositive (or_else_try a b)
or_else_try-OptionAll (some r) b ha hb = ha
or_else_try-OptionAll none (some r) ha hb = hb
or_else_try-OptionAll none none ha hb = tt

name_srid-OptionAll : (j : Json) → OptionAll IsPositive (name_srid j)
unfolding srid_of_name
name_srid-OptionAll (string s) =
    or_else_try-OptionAll _ _ (srid_behind-OptionAll s (codes "EPSG:"))
      (srid_behind-OptionAll s (codes "urn:ogc:def:crs:EPSG::"))
name_srid-OptionAll null = tt
name_srid-OptionAll (boolean b) = tt
name_srid-OptionAll (number t) = tt
name_srid-OptionAll (array xs) = tt
name_srid-OptionAll (object m) = tt

-- The number that a document names is positive and fits the signed integers.
pub explicit_srid-OptionAll : (m : Members) → OptionAll IsPositive (explicit_srid m)
unfolding explicit_srid
explicit_srid-OptionAll m = by_crs (as_object (at (codes "crs") m))
  where
    by_props :
        (o : Option Members)
        → OptionAll IsPositive
            (elim o [ none ↦ none | some props ↦ name_srid (at (codes "name") props) ])
    by_props none = tt
    by_props (some props) = name_srid-OptionAll (at (codes "name") props)

    by_crs :
        (o : Option Members)
        → OptionAll IsPositive (elim o [
          | none ↦ none
          | some crs ↦ elim (as_object (at (codes "properties") crs)) [
            | none ↦ none
            | some props ↦ name_srid (at (codes "name") props)
          ]
        ])
    by_crs none = tt
    by_crs (some crs) = by_props (as_object (at (codes "properties") crs))
