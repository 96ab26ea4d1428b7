-- ===== src/Introspect/Diff/Lookups.antt =====
-- What the maps that Diff builds have under a key, in terms of the lists.
use pdbcore.Prelude.{
  ◌≡◌, refl, sym, ap, ◌∙◌, subst, ◌↔◌, Bool, true, false, List, [], ◌∷◌, ◌++◌, Option, none, some,
  Text, codes, text_eq, text_eq_iff, elem, map, if◌then◌else◌, arith,
}
use pdbcore.Prelude.Map.{Map, get, put, get-put, index_by}
use pdbcore.Introspect.Catalog.{FuncArg, Function}
use pdbcore.Prelude.Words.{join}
use pdbcore.Introspect.Diff.{set_of, add_to_set}
use pdbcore.Introspect.Diff.Reports.{Agree}

pub Agree-moved :
    {V : Type 0} (R : V → V → Type 0) {a b a' b' : Option V}
    → a ≡ a'
    → b ≡ b'
    → Agree R a b
    → Agree R a' b'
Agree-moved R {a} {b} {a'} {b'} p q h = subst (λ o. Agree R o b') p (subst (λ o. Agree R a o) q h)

-- The last object of a list with the name.
unfoldable pub last_named : {V : Type 0} → (V → Text) → List V → Text → Option V
last_named name [] k = none
last_named name (x ∷ xs) k = elim (last_named name xs k) [
  | some y ↦ some y
  | none ↦ if text_eq (name x) k then some x else none
]

-- The name of a function, with its schema and the names of the types of its arguments.
abbrev pub named_by_types : Function → Text
named_by_types f =
    (f.schema ++ b'.' ∷ f.name)
    ++ (codes "(" ++ (join (codes ", ") (map (λ (a : FuncArg). a.pg_type) f.args) ++ codes ")"))

abbrev or_else : {V : Type 0} → Option V → Option V → Option V
or_else none o = o
or_else (some x) o = some x

module _ {V : Type 0} where
  get-index_by_from :
      (name : V → Text) (xs : List V) (m : Map V) (k : Text)
      → get k (index_by name xs m) ≡ or_else (last_named name xs k) (get k m)
  unfolding index_by last_named
  get-index_by_from name [] m k = refl
  get-index_by_from name (x ∷ xs) m k =
      get-index_by_from name xs (put (name x) x m) k
      ∙ ap (or_else (last_named name xs k)) (get-put (name x) k x m)
      ∙ by_rest (last_named name xs k) (text_eq (name x) k)
    where
      by_rest :
          (o : Option V) (b : Bool)
          → or_else o (if b then some x else get k m)
            ≡ or_else (elim o [ some y ↦ some y | none ↦ if b then some x else none ]) (get k m)
      by_rest (some y) b = refl
      by_rest none true = refl
      by_rest none false = refl

  pub get-index_by :
      (name : V → Text) (xs : List V) (k : Text)
      → get k (index_by name xs []) ≡ last_named name xs k
  unfolding get
  get-index_by name xs k = get-index_by_from name xs [] k ∙ or_none (last_named name xs k)
    where
      or_none : (o : Option V) → or_else o none ≡ o
      or_none none = refl
      or_none (some x) = refl

get-add_to_set :
    (ss : List Text) (m : Map (Unit {0})) (s : Text)
    → get s (add_to_set ss m) ≡ (if elem s ss then some tt else get s m)
unfolding add_to_set elem
get-add_to_set [] m s = refl
get-add_to_set (t ∷ ss) m s =
    ground
      (arith, get-add_to_set ss (put t tt m) s, get-put t s tt m, text_eq_iff t s, text_eq_iff s t)

pub sets_iff :
    (c l : List Text)
    → ((s : Text) → Agree (λ x y. Unit) (get s (set_of c)) (get s (set_of l)))
      ↔ ((s : Text) → elem s c ≡ elem s l)
unfolding set_of get
sets_iff c l = (
  λ h s.
      to (elem s c) (elem s l)
        (Agree-moved _ (get-add_to_set c [] s) (get-add_to_set l [] s) (h s)),
  λ h s.
      Agree-moved _ (sym (get-add_to_set c [] s)) (sym (get-add_to_set l [] s))
        (from (elem s c) (elem s l) (h s)),
)
  where
    to :
        (a b : Bool)
        → Agree (λ x y. Unit) (if a then some tt else none) (if b then some tt else none)
        → a ≡ b
    to true true h = refl
    to false false h = refl
    to true false h = absurd h
    to false true h = absurd h

    from :
        (a b : Bool)
        → a ≡ b
        → Agree (λ x y. Unit) (if a then some tt else none) (if b then some tt else none)
    from true true h = tt
    from false false h = tt
    from true false h = absurd (cc)
    from false true h = absurd (cc)
