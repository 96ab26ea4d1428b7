-- ===== src/Prelude/Words.antt =====
-- Trimming, splitting and joining as package strings does them.
use Prim.Native.Nat.{ℕ}
use mathlib.Core.Path.{◌≡◌, ◌∙◌, refl, ap, sym}
use mathlib.Core.Logic.{inl, inr}
use mathlib.Core.Bool.{Bool, true, false, ◌&&◌, ◌||◌}
use mathlib.Core.List.{List, [], ◌∷◌, ◌++◌}
use mathlib.Core.Option.{Option, none, some}
use native.Mathlib.Omega.{arith}
use pdbcore.Prelude.Tests.{◌==◌, leb, if◌then◌else◌, Bool-cases}
use pdbcore.Prelude.Lists.{All}
use pdbcore.Prelude.Strings.{Text, is_empty}

-- unicode.IsSpace
unfoldable pub is_space : ℕ → Bool
is_space c =
    (leb 9 c && leb c 13)
    || c == 32
    || c == 0x85
    || c == 0xa0
    || c == 0x1680
    || (leb 0x2000 c && leb c 0x200a)
    || c == 0x2028
    || c == 0x2029
    || c == 0x202f
    || c == 0x205f
    || c == 0x3000

unfoldable pub trim_left : Text → Text
trim_left [] = []
trim_left (c ∷ s) = let rest = trim_left s in if is_space c then rest else c ∷ s

-- A space is kept if something follows that is none.
abbrev pub keep_before : Text → ℕ → Text
keep_before [] c = if is_space c then [] else c ∷ []
keep_before (d ∷ s) c = c ∷ d ∷ s

unfoldable pub trim_right : Text → Text
trim_right [] = []
trim_right (c ∷ s) = keep_before (trim_right s) c

-- strings.TrimSpace
unfoldable pub trim_space : Text → Text
unfolding trim_left trim_right
trim_space s = trim_right (trim_left s)

abbrev pub extend_first : ℕ → List Text → List Text
extend_first c [] = (c ∷ []) ∷ []
extend_first c (w ∷ ws) = (c ∷ w) ∷ ws

-- strings.Split at one byte.
unfoldable pub split : ℕ → Text → List Text
split b [] = [] ∷ []
split b (c ∷ s) = let rest = split b s in if c == b then [] ∷ rest else extend_first c rest

-- strings.Join
unfoldable pub join : Text → List Text → Text
join sep [] = []
join sep (w ∷ []) = w
join sep (w ∷ v ∷ ws) = w ++ (sep ++ join sep (v ∷ ws))

-- The fields without the empty ones.
abbrev pub add_field : Text → List Text → List Text
add_field [] ws = ws
add_field (c ∷ w) ws = (c ∷ w) ∷ ws

-- strings.FieldsFunc: the maximal runs of runes that are no separators; `cur` is the current run.
unfoldable pub fields_from : (ℕ → Bool) → Text → Text → List Text
fields_from sep cur [] = add_field cur []
fields_from sep cur (c ∷ s) =
    let closed = add_field cur (fields_from sep [] s) in
    let open_ = fields_from sep (cur ++ c ∷ []) s in if sep c then closed else open_

unfoldable pub fields : (ℕ → Bool) → Text → List Text
unfolding fields_from
fields sep s = fields_from sep [] s

-- The text before the first rune that passes a test, and the text behind it, if there is one.
unfoldable pub cut_at : (ℕ → Bool) → Text → Text × Option Text
cut_at p [] = ([], none)
cut_at p (c ∷ s) =
    let (before, behind) = cut_at p s in if p c then ([], some s) else (c ∷ before, behind)

pub trim_left_idem : (s : Text) → trim_left (trim_left s) ≡ trim_left s
unfolding trim_left
trim_left_idem [] = refl
trim_left_idem (c ∷ s) = ground (arith, trim_left_idem s)

trim_right-keep_before :
    (r : Text) (c : ℕ) → trim_right r ≡ r → trim_right (keep_before r c) ≡ keep_before r c
unfolding trim_right
trim_right-keep_before [] c h = ground arith
trim_right-keep_before (d ∷ r) c h = ap (λ (t : Text). keep_before t c) h

pub trim_right_idem : (s : Text) → trim_right (trim_right s) ≡ trim_right s
unfolding trim_right
trim_right_idem [] = refl
trim_right_idem (c ∷ s) = trim_right-keep_before (trim_right s) c (trim_right_idem s)

-- A text that does not begin with a space, or is empty.
abbrev pub IsLeftTrimmed : Text → Type 0
IsLeftTrimmed [] = Unit
IsLeftTrimmed (c ∷ s) = is_space c ≡ false

pub trim_left-IsLeftTrimmed : (s : Text) → IsLeftTrimmed (trim_left s)
unfolding trim_left
trim_left-IsLeftTrimmed [] = tt
trim_left-IsLeftTrimmed (c ∷ s) = elim (Bool-cases (is_space c)) [
  | inl e ↦ rw e (trim_left-IsLeftTrimmed s)
  | inr e ↦ rw e e
]

-- strings.HasPrefix for one byte.
unfoldable pub begins : ℕ → Text → Bool
begins b [] = false
begins b (c ∷ s) = c == b

begins-trim_right : (b : ℕ) (s : Text) → IsLeftTrimmed s → begins b (trim_right s) ≡ begins b s
unfolding begins trim_right
begins-trim_right b [] h = refl
begins-trim_right b (c ∷ s) h = by_rest (trim_right s)
  where
    by_rest : (r : Text) → begins b (keep_before r c) ≡ (c == b)
    by_rest [] = rw h
    by_rest (d ∷ r) = refl

pub begins-trim_space : (b : ℕ) (s : Text) → begins b (trim_space s) ≡ begins b (trim_left s)
unfolding trim_space
begins-trim_space b s = begins-trim_right b (trim_left s) (trim_left-IsLeftTrimmed s)

trim_left-trimmed : (s : Text) → IsLeftTrimmed s → trim_left s ≡ s
unfolding trim_left
trim_left-trimmed [] h = refl
trim_left-trimmed (c ∷ s) h = rw h

trim_right-IsLeftTrimmed : (s : Text) → IsLeftTrimmed s → IsLeftTrimmed (trim_right s)
unfolding trim_right
trim_right-IsLeftTrimmed [] h = tt
trim_right-IsLeftTrimmed (c ∷ s) h = by_rest (trim_right s)
  where
    by_rest : (r : Text) → IsLeftTrimmed (keep_before r c)
    by_rest [] = rw h h
    by_rest (d ∷ r) = h

pub trim_space_idem : (s : Text) → trim_space (trim_space s) ≡ trim_space s
unfolding trim_space
trim_space_idem s =
    ap trim_right
      (trim_left-trimmed _ (trim_right-IsLeftTrimmed (trim_left s) (trim_left-IsLeftTrimmed s)))
    ∙ trim_right_idem (trim_left s)

trim_left-append :
    (s t : Text) (c : ℕ) (r : Text) → trim_left s ≡ c ∷ r → trim_left (s ++ t) ≡ c ∷ (r ++ t)
unfolding trim_left
trim_left-append [] t c r h = cc
trim_left-append (d ∷ s) t c r h = elim (Bool-cases (is_space d)) [
  | inl e ↦ rw e (trim_left-append s t c r (rw e at h))
  | inr e ↦ rw e (ap (λ (x : Text). x ++ t) (rw e at h))
]

trim_space-ne-nil : (s : Text) → is_empty (trim_space s) ≡ false → is_empty (trim_left s) ≡ false
unfolding trim_space is_empty trim_right
trim_space-ne-nil s h = by_left (trim_left s) h
  where
    by_left : (l : Text) → is_empty (trim_right l) ≡ false → is_empty l ≡ false
    by_left [] k = k
    by_left (c ∷ l) k = refl

-- What a text begins with, spaces aside, is what its first line begins with, if that line has
-- more than spaces.
pub begins-trim_space-append :
    (b : ℕ) (s t : Text)
    → is_empty (trim_space s) ≡ false
    → begins b (trim_space (s ++ t)) ≡ begins b (trim_space s)
begins-trim_space-append b s t h =
    begins-trim_space b (s ++ t)
    ∙ by_left (trim_left s) refl (trim_space-ne-nil s h)
    ∙ sym (begins-trim_space b s)
  where
    by_left :
        (l : Text)
        → trim_left s ≡ l
        → is_empty l ≡ false
        → begins b (trim_left (s ++ t)) ≡ begins b (trim_left s)
    by_left [] e k = absurd (unfold is_empty in cc)
    by_left (c ∷ l) e k = rw (trim_left-append s t c l e, e) (unfold begins in refl)

abbrev pub Lacks : ℕ → Text → Type 0
Lacks b = All (λ c. (c == b) ≡ false)

split-Lacks : (b : ℕ) (w : Text) → Lacks b w → split b w ≡ w ∷ []
unfolding split
split-Lacks b [] h = refl
split-Lacks b (c ∷ w) (hc, h) = rw (hc, split-Lacks b w h)

pub split-append-Lacks : (b : ℕ) (w t : Text) → Lacks b w → split b (w ++ b ∷ t) ≡ w ∷ split b t
unfolding split
split-append-Lacks b [] t h = ground arith
split-append-Lacks b (c ∷ w) t (hc, h) = rw (hc, split-append-Lacks b w t h)

-- Splitting at a byte undoes joining by it, where no part holds the byte and there is a part.
pub split-join :
    (b : ℕ) (w : Text) (ws : List Text)
    → All (Lacks b) (w ∷ ws)
    → split b (join (b ∷ []) (w ∷ ws)) ≡ w ∷ ws
unfolding join
split-join b w [] (h, hs) = split-Lacks b w h
split-join b w (v ∷ ws) (h, hs) =
    split-append-Lacks b w (join (b ∷ []) (v ∷ ws)) h ∙ ap (◌∷◌ w) (split-join b v ws hs)

pub cut_at-found :
    (p : ℕ → Bool) (s : Text) (c : ℕ) (t : Text)
    → All (λ d. p d ≡ false) s
    → p c ≡ true
    → cut_at p (s ++ c ∷ t) ≡ (s, some t)
unfolding cut_at
cut_at-found p [] c t h hc = rw hc
cut_at-found p (d ∷ s) c t (hd, h) hc = rw (hd, cut_at-found p s c t h hc)

pub cut_at_everywhere :
    (p : ℕ → Bool) (s : Text) → All (λ d. p d ≡ false) s → cut_at p s ≡ (s, none)
unfolding cut_at
cut_at_everywhere p [] h = refl
cut_at_everywhere p (d ∷ s) (hd, h) = rw (hd, cut_at_everywhere p s h)
