-- ===== src/Plugin/Order.antt =====
-- The order of a registry: by priority, and by registration among equals.
use pdbcore.Prelude.{
  ◌≡◌, refl, inl, inr, All-weaken, ap, append-nil, ◌&&◌, ◌∙◌, Bool, true, false, not, List, [], ◌∷◌,
  ◌++◌, arith, append_assoc, keep, if◌then◌else◌, All, Bool-cases,
}
use mathlib.Core.List.{Perm}
use mathlib.Core.List.Perm
use pdbcore.Prelude.Int.{ℤ, ltz}
use pdbcore.Plugin.{Plugin, insert_front, sort_plugins, add, add_all, new_registry}

module _ {C E : Type 0} where
  -- Where a newly registered plugin goes: behind everything that is not of a higher number.
  unfoldable pub insert_back : Plugin C E → List (Plugin C E) → List (Plugin C E)
  insert_back p [] = p ∷ []
  insert_back p (q ∷ qs) =
      let rest = insert_back p qs in if ltz p.priority q.priority then p ∷ q ∷ qs else q ∷ rest

  -- Nobody's priority number is above that of one behind.
  abbrev pub IsOrdered : List (Plugin C E) → Type 0
  IsOrdered [] = Unit
  IsOrdered (p ∷ ps) = All (λ q. ltz q.priority p.priority ≡ false) ps × IsOrdered ps

  insert_front-insert_back :
      (x p : Plugin C E) (qs : List (Plugin C E))
      → insert_front x (insert_back p qs) ≡ insert_back p (insert_front x qs)
  unfolding insert_front insert_back
  insert_front-insert_back x p [] = ground arith
  insert_front-insert_back x p (q ∷ qs) = ground (arith, insert_front-insert_back x p qs)

  sort_plugins-snoc :
      (ps : List (Plugin C E)) (p : Plugin C E)
      → sort_plugins (ps ++ p ∷ []) ≡ insert_back p (sort_plugins ps)
  unfolding sort_plugins
  sort_plugins-snoc [] p = unfold insert_front insert_back in refl
  sort_plugins-snoc (q ∷ ps) p =
      ap (insert_front q) (sort_plugins-snoc ps p) ∙ insert_front-insert_back q p (sort_plugins ps)

  insert_front-All :
      (P : Plugin C E → Type 0) (p : Plugin C E) (qs : List (Plugin C E))
      → P p
      → All P qs
      → All P (insert_front p qs)
  unfolding insert_front
  insert_front-All P p [] hp h = (hp, tt)
  insert_front-All P p (q ∷ qs) hp (hq, h) = elim (Bool-cases (ltz q.priority p.priority)) [
    | inl e ↦ rw e (hq, insert_front-All P p qs hp h)
    | inr e ↦ rw e (hp, (hq, h))
  ]

  ltz-behind :
      (p q r : Plugin C E)
      → ltz q.priority p.priority ≡ false
      → ltz r.priority q.priority ≡ false
      → ltz r.priority p.priority ≡ false
  ltz-behind p q r h k = ground arith

  ltz-front :
      (p q : Plugin C E) → ltz q.priority p.priority ≡ true → ltz p.priority q.priority ≡ false
  ltz-front p q h = ground arith

  insert_front-IsOrdered :
      (p : Plugin C E) (qs : List (Plugin C E)) → IsOrdered qs → IsOrdered (insert_front p qs)
  unfolding insert_front
  insert_front-IsOrdered p [] h = (tt, tt)
  insert_front-IsOrdered p (q ∷ qs) (hq, h) = elim (Bool-cases (ltz q.priority p.priority)) [
    | inl e ↦ rw e (
      insert_front-All (λ r. ltz r.priority q.priority ≡ false) p qs (ltz-front p q e) hq,
      insert_front-IsOrdered p qs h,
    )
    | inr e ↦ rw e ((e, All-weaken _ _ qs (λ r. ltz-behind p q r e) hq), (hq, h))
  ]

  -- After any sequence of registrations nobody's priority number is above that of one behind.
  pub sort_plugins-IsOrdered : (ps : List (Plugin C E)) → IsOrdered (sort_plugins ps)
  unfolding sort_plugins
  sort_plugins-IsOrdered [] = tt
  sort_plugins-IsOrdered (p ∷ ps) =
      insert_front-IsOrdered p (sort_plugins ps) (sort_plugins-IsOrdered ps)

  insert_front-ordered :
      (p : Plugin C E) (qs : List (Plugin C E))
      → All (λ q. ltz q.priority p.priority ≡ false) qs
      → insert_front p qs ≡ p ∷ qs
  unfolding insert_front
  insert_front-ordered p [] h = refl
  insert_front-ordered p (q ∷ qs) (hq, h) = rw hq

  sort_plugins-ordered : (ps : List (Plugin C E)) → IsOrdered ps → sort_plugins ps ≡ ps
  unfolding sort_plugins
  sort_plugins-ordered [] h = refl
  sort_plugins-ordered (p ∷ ps) (hp, h) =
      rw (sort_plugins-ordered ps h) (insert_front-ordered p ps hp)

  add-sort_plugins :
      (ps : List (Plugin C E)) (p : Plugin C E)
      → add (sort_plugins ps) p ≡ sort_plugins (ps ++ p ∷ [])
  unfolding add
  add-sort_plugins ps p = rw (
    sort_plugins-snoc (sort_plugins ps) p,
    sort_plugins-snoc ps p,
    sort_plugins-ordered (sort_plugins ps) (sort_plugins-IsOrdered ps),
  )

  add_all-sort_plugins :
      (done ps : List (Plugin C E)) → add_all (sort_plugins done) ps ≡ sort_plugins (done ++ ps)
  unfolding add_all
  add_all-sort_plugins done [] = rw append-nil
  add_all-sort_plugins done (p ∷ ps) =
      rw (add-sort_plugins done p, add_all-sort_plugins (done ++ p ∷ []) ps, append_assoc)

  -- Sorting after each registration gives the one stable sort of all registrations.
  pub new_registry-sort_plugins : (ps : List (Plugin C E)) → new_registry ps ≡ sort_plugins ps
  unfolding new_registry sort_plugins
  new_registry-sort_plugins ps = add_all-sort_plugins [] ps

  insert_front-perm : (p : Plugin C E) (qs : List (Plugin C E)) → Perm (insert_front p qs) (p ∷ qs)
  unfolding insert_front
  insert_front-perm p [] = Perm.rfl
  insert_front-perm p (q ∷ qs) = elim (Bool-cases (ltz q.priority p.priority)) [
    | inl e ↦ rw e (Perm.trans (Perm.cons q (insert_front-perm p qs)) (Perm.swap p q qs))
    | inr e ↦ rw e Perm.rfl
  ]

  sort_plugins-perm : (ps : List (Plugin C E)) → Perm (sort_plugins ps) ps
  unfolding sort_plugins
  sort_plugins-perm [] = Perm.rfl
  sort_plugins-perm (p ∷ ps) =
      Perm.trans (insert_front-perm p (sort_plugins ps)) (Perm.cons p (sort_plugins-perm ps))

  -- The plugins of one priority number.
  abbrev pub of_priority : ℤ → Plugin C E → Bool
  of_priority k p = not (ltz k p.priority) && not (ltz p.priority k)

  insert_front-keep :
      (k : ℤ) (p : Plugin C E) (qs : List (Plugin C E))
      → keep (of_priority k) (insert_front p qs) ≡ keep (of_priority k) (p ∷ qs)
  unfolding insert_front keep
  insert_front-keep k p [] = refl
  insert_front-keep k p (q ∷ qs) = ground (arith, insert_front-keep k p qs)

  keep-cons :
      (k : ℤ) (p : Plugin C E) (ps qs : List (Plugin C E))
      → keep (of_priority k) ps ≡ keep (of_priority k) qs
      → keep (of_priority k) (p ∷ ps) ≡ keep (of_priority k) (p ∷ qs)
  unfolding keep
  keep-cons k p ps qs h = rw h

  sort_plugins-keep :
      (k : ℤ) (ps : List (Plugin C E))
      → keep (of_priority k) (sort_plugins ps) ≡ keep (of_priority k) ps
  unfolding sort_plugins
  sort_plugins-keep k [] = refl
  sort_plugins-keep k (p ∷ ps) =
      insert_front-keep k p (sort_plugins ps)
      ∙ keep-cons k p (sort_plugins ps) ps (sort_plugins-keep k ps)

  -- NewRegistry holds the given plugins and no others, with ascending priority numbers, and those
  -- of one priority number in the order in which they were given.
  pub new_registry_order :
      (ps : List (Plugin C E))
      → Perm (new_registry ps) ps
        × IsOrdered (new_registry ps)
        × ((k : ℤ) → keep (of_priority k) (new_registry ps) ≡ keep (of_priority k) ps)
  new_registry_order ps =
      rw new_registry-sort_plugins
        (sort_plugins-perm ps, sort_plugins-IsOrdered ps, λ k. sort_plugins-keep k ps)
