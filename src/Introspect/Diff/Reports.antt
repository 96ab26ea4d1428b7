-- ===== src/Introspect/Diff/Reports.antt =====
-- When the loops of a difference say nothing.
use pdbcore.Prelude.{◌≡◌, refl, List, [], ◌∷◌, ◌++◌, Option, none, some, Text, All}
use pdbcore.Prelude.Map.{Map, get, sorted_keys, sorted_keys-All_at, sorted_keys-All_of}
use pdbcore.Introspect.Diff.{report, removed_line, added_line, diff_maps}

pub append-nil_inv {ℓ} : {A : Type ℓ} (xs ys : List A) → xs ++ ys ≡ [] → (xs ≡ []) × (ys ≡ [])
append-nil_inv [] ys h = (refl, h)
append-nil_inv (x ∷ xs) ys h = absurd (cc)

pub append-nil_of {ℓ} : {A : Type ℓ} (xs ys : List A) → xs ≡ [] → ys ≡ [] → xs ++ ys ≡ []
append-nil_of xs ys h k = rw (h, k)

pub report-nil_inv :
    (f : Text → List Text) (ks : List Text) → report f ks ≡ [] → All (λ k. f k ≡ []) ks
unfolding report
report-nil_inv f [] h = tt
report-nil_inv f (k ∷ ks) h =
    let (p, q) = append-nil_inv (f k) (report f ks) h in (p, report-nil_inv f ks q)

pub report-nil : (f : Text → List Text) (ks : List Text) → All (λ k. f k ≡ []) ks → report f ks ≡ []
unfolding report
report-nil f [] h = refl
report-nil f (k ∷ ks) (h, hs) = rw (h, report-nil f ks hs)

line_ne_nil : {s : Text} → s ∷ [] ≡ [] → ⊥
line_ne_nil h = cc

-- Both sides have nothing under a name, or things that are related.
abbrev pub Agree : {V : Type 0} → (V → V → Type 0) → Option V → Option V → Type 0
Agree R none none = Unit
Agree R (some x) (some y) = R x y
Agree R none (some y) = ⊥
Agree R (some x) none = ⊥

module _ {V : Type 0} (kind : V → Text) (both : Text → V → V → List Text) (c l : Map V) where
  abbrev Silent : Text → Type 0
  Silent k = Agree (λ x y. both k x y ≡ []) (get k c) (get k l)

  silent_by :
      (k : Text) (a b : Option V)
      → get k c ≡ a
      → get k l ≡ b
      → ((x : V) → get k c ≡ some x → removed_line kind c l k ≡ [])
      → ((y : V) → get k l ≡ some y → added_line kind both c l k ≡ [])
      → Agree (λ x y. both k x y ≡ []) a b
  unfolding removed_line added_line
  silent_by k none none e d f g = tt
  silent_by k (some x) (some y) e d f g = rw (d, e, added_line) at (g y d)
  silent_by k none (some y) e d f g = absurd (line_ne_nil (rw (d, e, added_line) at (g y d)))
  silent_by k (some x) none e d f g = absurd (line_ne_nil (rw (d, e, removed_line) at (f x e)))

  -- Two maps without a line between them agree at every name.
  pub diff_maps-nil_inv :
      diff_maps kind both c l ≡ [] → (k : Text) → Agree (λ x y. both k x y ≡ []) (get k c) (get k l)
  unfolding diff_maps
  diff_maps-nil_inv h k =
      let (p, q) = append-nil_inv (report (removed_line kind c l) (sorted_keys c)) _ h in
      silent_by k (get k c) (get k l) refl refl
        (λ x e.
          sorted_keys-All_at (λ j. removed_line kind c l j ≡ []) c k x (report-nil_inv _ _ p) e)
        (λ y e.
          sorted_keys-All_at (λ j. added_line kind both c l j ≡ []) l k y (report-nil_inv _ _ q) e)

  removed_by :
      (k : Text) (a b : Option V)
      → get k c ≡ a
      → get k l ≡ b
      → Agree (λ x y. both k x y ≡ []) a b
      → removed_line kind c l k ≡ []
  unfolding removed_line
  removed_by k none none e d h = rw (d, removed_line) (rw (e, removed_line))
  removed_by k (some x) (some y) e d h = rw (d, removed_line)
  removed_by k none (some y) e d h = absurd h
  removed_by k (some x) none e d h = absurd h

  added_by :
      (k : Text) (a b : Option V)
      → get k c ≡ a
      → get k l ≡ b
      → Agree (λ x y. both k x y ≡ []) a b
      → added_line kind both c l k ≡ []
  unfolding added_line
  added_by k none none e d h = rw (d, added_line)
  added_by k (some x) (some y) e d h = rw (d, e, added_line) h
  added_by k none (some y) e d h = absurd h
  added_by k (some x) none e d h = absurd h

  -- Two maps that agree at every name have no line between them.
  pub diff_maps-nil :
      ((k : Text) → Agree (λ x y. both k x y ≡ []) (get k c) (get k l))
      → diff_maps kind both c l ≡ []
  unfolding diff_maps
  diff_maps-nil h =
      append-nil_of _ _
        (report-nil _ _
          (sorted_keys-All_of _ c (λ k x e. removed_by k (get k c) (get k l) refl refl (h k))))
        (report-nil _ _
          (sorted_keys-All_of _ l (λ k x e. added_by k (get k c) (get k l) refl refl (h k))))
