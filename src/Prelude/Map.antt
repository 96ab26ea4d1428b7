-- ===== src/Prelude/Map.antt =====
-- Go maps with string keys as association lists, in the order in which a range walks them.
use mathlib.Core.Path.{◌≡◌, refl, subst}
use mathlib.Core.Logic.{inl, inr}
use mathlib.Core.Bool.{Bool, true, false, ◌||◌, ◌&&◌}
use mathlib.Core.List.{List, [], ◌∷◌}
use mathlib.Core.Option.{Option, none, some}
use native.Mathlib.Omega.{arith}
use pdbcore.Prelude.Tests.{ltb, ◌==◌, if◌then◌else◌, if-all, Bool-cases}
use pdbcore.Prelude.Lists.{All, All-weaken}
use pdbcore.Prelude.Strings.{Text, text_eq, text_eq_iff, text_eq_sound, text_eq_refl}

abbrev pub Map {ℓ} : Type ℓ → Type ℓ
Map V = List (Text × V)

module _ {ℓ} {V : Type ℓ} where
  -- v, ok := m[k]
  unfoldable pub get : Text → Map V → Option V
  get k [] = none
  get k ((j, v) ∷ m) = let rest = get k m in if text_eq j k then some v else rest

  -- m[k] = v
  unfoldable pub put : Text → V → Map V → Map V
  put k v [] = (k, v) ∷ []
  put k v ((j, w) ∷ m) = let rest = put k v m in if text_eq j k then (j, v) ∷ m else (j, w) ∷ rest

  pub get-put :
      (k j : Text) (v : V) (m : Map V)
      → get j (put k v m) ≡ (if text_eq k j then some v else get j m)
  unfolding get put
  get-put k j v [] = refl
  get-put k j v ((i, w) ∷ m) =
      ground (arith, text_eq_iff k j, text_eq_iff i k, text_eq_iff i j, get-put k j v m)

-- The keys of a map used as a set: m[k] = true.
unfoldable pub has {ℓ} : {V : Type ℓ} → Text → Map V → Bool
has k [] = false
has k ((j, v) ∷ m) = let rest = has k m in if text_eq j k then true else rest

-- s < t, by bytes.
unfoldable pub text_lt : Text → Text → Bool
text_lt [] [] = false
text_lt [] (b ∷ t) = true
text_lt (a ∷ s) [] = false
text_lt (a ∷ s) (b ∷ t) = ltb a b || (a == b && text_lt s t)

unfoldable pub insert_text : Text → List Text → List Text
insert_text s [] = s ∷ []
insert_text s (t ∷ ts) = let rest = insert_text s ts in if text_lt t s then t ∷ rest else s ∷ t ∷ ts

-- sort.Strings: equal strings are one value, so the result does not depend on the algorithm.
unfoldable pub sort_strings : List Text → List Text
unfolding insert_text
sort_strings [] = []
sort_strings (s ∷ ts) = insert_text s (sort_strings ts)

module _ {ℓ} {V : Type ℓ} where
  unfoldable pub keys : Map V → List Text
  keys [] = []
  keys ((k, v) ∷ m) = k ∷ keys m

  -- m[key(x)] = x for each x.
  unfoldable pub index_by : (V → Text) → List V → Map V → Map V
  index_by key [] m = m
  index_by key (x ∷ xs) m = index_by key xs (put (key x) x m)

module _ {ℓ} (P : Text → Type ℓ) where
  insert_text-All : (s : Text) (ts : List Text) → P s → All P ts → All P (insert_text s ts)
  unfolding insert_text
  insert_text-All s [] h hs = (h, tt)
  insert_text-All s (t ∷ ts) h (ht, hs) =
      if-all (All P) (text_lt t s) _ _ (λ e. (ht, insert_text-All s ts h hs)) (λ e. (h, (ht, hs)))

  pub sort_strings-All : (ts : List Text) → All P ts → All P (sort_strings ts)
  unfolding sort_strings
  sort_strings-All [] h = tt
  sort_strings-All (t ∷ ts) (ht, h) = insert_text-All t (sort_strings ts) ht (sort_strings-All ts h)

  insert_text-All_inv : (s : Text) (ts : List Text) → All P (insert_text s ts) → P s × All P ts
  unfolding insert_text
  insert_text-All_inv s [] (h, hs) = (h, tt)
  insert_text-All_inv s (t ∷ ts) h = elim (Bool-cases (text_lt t s)) [
    | inl e ↦ let (ht, hs) = rw e at h in let (p, q) = insert_text-All_inv s ts hs in (p, (ht, q))
    | inr e ↦ rw e at h
  ]

  pub sort_strings-All_inv : (ts : List Text) → All P (sort_strings ts) → All P ts
  unfolding sort_strings
  sort_strings-All_inv [] h = tt
  sort_strings-All_inv (t ∷ ts) h =
      let (p, q) = insert_text-All_inv t (sort_strings ts) h in (p, sort_strings-All_inv ts q)

-- The keys in order: the loops `for _, k := range sortedKeys(m)`.
unfoldable pub sorted_keys {ℓ} : {V : Type ℓ} → Map V → List Text
unfolding sort_strings keys
sorted_keys m = sort_strings (keys m)

module _ {ℓ} {V : Type ℓ} where
  get-behind :
      (j k : Text) (w v : V) (m : Map V)
      → get k m ≡ some v
      → (u : V) × (get k ((j, w) ∷ m) ≡ some u)
  unfolding get
  get-behind j k w v m e = elim (Bool-cases (text_eq j k)) [
    | inl q ↦ (w, rw q)
    | inr q ↦ (v, rw q e)
  ]

  keys-present : (m : Map V) → All (λ k. (v : V) × (get k m ≡ some v)) (keys m)
  unfolding keys
  keys-present [] = tt
  keys-present ((j, w) ∷ m) = (
    (w, unfold get in rw (text_eq_refl j)),
    All-weaken _ _ (keys m) (λ k (v, e). get-behind j k w v m e) (keys-present m),
  )

module _ {ℓ κ} {V : Type ℓ} (P : Text → Type κ) where
  keys-All_at : (m : Map V) (k : Text) (v : V) → All P (keys m) → get k m ≡ some v → P k
  unfolding keys get
  keys-All_at [] k v h e = absurd (cc)
  keys-All_at ((j, w) ∷ m) k v (hj, h) e = elim (Bool-cases (text_eq j k)) [
    | inl q ↦ subst P (text_eq_sound j k q) hj
    | inr q ↦ keys-All_at m k v h (rw q at e)
  ]

  -- What holds of every key that is walked holds of every key that is present.
  pub sorted_keys-All_at :
      (m : Map V) (k : Text) (v : V) → All P (sorted_keys m) → get k m ≡ some v → P k
  unfolding sorted_keys
  sorted_keys-All_at m k v h e = keys-All_at m k v (sort_strings-All_inv P (keys m) h) e

  -- What holds of every key that is present holds of every key that is walked.
  pub sorted_keys-All_of :
      (m : Map V) → ((k : Text) (v : V) → get k m ≡ some v → P k) → All P (sorted_keys m)
  unfolding sorted_keys
  sorted_keys-All_of m f = sort_strings-All P (keys m) (
      All-weaken (λ k. (v : V) × (get k m ≡ some v)) P (keys m) (λ k (v, e). f k v e)
        (keys-present m))
