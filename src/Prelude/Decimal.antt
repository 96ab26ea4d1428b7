-- ===== src/Prelude/Decimal.antt =====
-- Natural numbers in decimal, as fmt's %d writes them.
use Prim.Native.Nat.{ℕ, zero, suc, ◌+◌, ◌*◌, ◌-◌, ◌/◌, ◌%◌, ◌<◌}
use mathlib.Core.Path.{◌≡◌, refl, ◌∙◌}
use mathlib.Core.Bool.{Bool, true, ◌&&◌}
use mathlib.Core.List.{[], ◌∷◌}
use native.Mathlib.Omega.{arith}
use pdbcore.Prelude.Tests.{ltb, leb, if◌then◌else◌, if-all}
use pdbcore.Prelude.Lists.{All}
use pdbcore.Prelude.Strings.{Text}

-- The digits of n in front of a text. The fuel is enough if it is above n.
unfoldable pub digits : ℕ → ℕ → Text → Text
digits zero n s = s
digits (suc k) n s =
    let more = digits k (n / 10) ((48 + n % 10) ∷ s) in if ltb n 10 then (48 + n % 10) ∷ s else more

unfoldable pub decimal : ℕ → Text
unfolding digits
decimal n = digits (suc n) n []

-- The value of decimal digits behind a number that stands for those in front of them.
unfoldable pub read_digits : ℕ → Text → ℕ
read_digits n [] = n
read_digits n (c ∷ s) = read_digits (n * 10 + (c - 48)) s

unfoldable pub is_digit : ℕ → Bool
is_digit c = leb b'0' c && leb c b'9'

digit_value : (n : ℕ) → n / 10 * 10 + (48 + n % 10 - 48) ≡ n
digit_value n = omega arith

last_digit : (n : ℕ) → n < 10 → 0 * 10 + (48 + n % 10 - 48) ≡ n
last_digit n h = omega arith

read_digits-digits : (k n : ℕ) (s : Text) → n < k → read_digits 0 (digits k n s) ≡ read_digits n s
unfolding digits read_digits
read_digits-digits zero n s h = absurd (omega arith)
read_digits-digits (suc k) n s h =
    if-all (λ (t : Text). read_digits 0 t ≡ read_digits n s) (ltb n 10) _ _
      (λ e. rw (last_digit n (ground arith)) refl)
      (λ e.
        read_digits-digits k (n / 10) ((48 + n % 10) ∷ s) (ground arith)
        ∙ (rw (digit_value n) refl))

-- Reading a number's decimal gives the number.
pub read_digits-decimal : (n : ℕ) → read_digits 0 (decimal n) ≡ n
unfolding decimal read_digits
read_digits-decimal n = read_digits-digits (suc n) n [] (omega arith)

is_digit-digit : (n : ℕ) → is_digit (48 + n % 10) ≡ true
unfolding is_digit
is_digit-digit n = ground arith

digits-All :
    (k n : ℕ) (s : Text)
    → All (λ c. is_digit c ≡ true) s
    → All (λ c. is_digit c ≡ true) (digits k n s)
unfolding digits
digits-All zero n s h = h
digits-All (suc k) n s h =
    if-all (All (λ c. is_digit c ≡ true)) (ltb n 10) _ _ (λ e. (is_digit-digit n, h))
      (λ e. digits-All k (n / 10) _ (is_digit-digit n, h))

-- A number's decimal has no other code points than digits.
pub decimal-All : (n : ℕ) → All (λ c. is_digit c ≡ true) (decimal n)
unfolding decimal
decimal-All n = digits-All (suc n) n [] tt
