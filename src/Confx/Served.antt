-- ===== src/Confx/Served.antt =====
-- A granted request in its transaction: confx, auth and pgexec together.
use pdbcore.Prelude.{◌≡◌, ◌⊎◌, List, [], ◌∷◌, ◌++◌, Text}
use pdbcore.Prelude.Map.{Map}
use pdbcore.Pgexec.Tx.{TxOptions, Event, begin, exec, rollback, Session, Backend, set_role_sql}

-- What follows a begin: nothing at all, the rollback alone, or first of all the role.
abbrev pub RoleFirst : Text → List Event → Type 0
RoleFirst role evs =
    (evs ≡ [])
    ⊎ ((evs ≡ rollback ∷ []) ⊎ ((more : List Event) × (evs ≡ exec (set_role_sql role) [] ∷ more)))

module _ {V : Type 0} (backend : Backend V) where
  -- What an attempt adds to the trace.
  abbrev pub AddsRoleFirst : TxOptions → Text → Session V → Session V → Type 0
  AddsRoleFirst opts role s s' =
      (evs : List Event) × (s'.trace ≡ s.trace ++ begin opts.isolation ∷ evs) × RoleFirst role evs
