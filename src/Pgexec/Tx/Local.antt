-- ===== src/Pgexec/Tx/Local.antt =====
-- Which statements the identity may put on a pooled connection.
use pdbcore.Prelude.{
  ◌≡◌, refl, ◌⊎◌, inl, inr, Bool, true, false, not, List, [], ◌∷◌, ◌++◌, Option, none, some, Text,
  codes, is_empty, go_quote, if◌then◌else◌, All, All-append,
}
use pdbcore.Pgexec.Errors.{Error, other}
use pdbcore.Pgexec.Ident.{valid_role, valid_claim_key}
use pdbcore.Pgexec.Tx.{
  Claim, Identity, TxOptions, Event, begin, exec, callback, commit, rollback, Session, Backend,
  claim_text, prefix_of, set_config_sql, set_role_sql, Action, continue, ◌>>◌, skip, fail, annotate,
  send, set_claim, apply_claim, apply_claims, apply_role, apply_identity, in_transaction,
  with_rollback, run_once,
}

-- A statement that ends with its transaction: SET LOCAL ROLE to a valid role, or set_config of a
-- key under the prefix with is_local = true, the values being parameters. Other events are free.
abbrev pub IsLocal : Text → Event → Type 0
IsLocal prefix (exec sql args) =
    ((role : Text) × (valid_role role ≡ true) × (sql ≡ set_role_sql role) × (args ≡ []))
    ⊎ ((k val : Text) × (valid_claim_key k ≡ true)
        × (sql ≡ set_config_sql)
        × (args ≡ (prefix ++ codes "." ++ k) ∷ val ∷ []))
IsLocal prefix _ = Unit

module _ {W : Type 0} (prefix : Text) where
  abbrev pub AllLocal : Session W → Type 0
  AllLocal s = All (IsLocal prefix) s.trace

  pub record Keeps (m : Action W) : Type 0 where
    pub at : (s : Session W) → AllLocal s → AllLocal (m s).1

module _ {W : Type 0} {prefix : Text} where
  Keeps-skip : Keeps {W = W} prefix skip
  Keeps-skip = record { at = λ s h. h }

  Keeps-fail : (err : Error) → Keeps {W = W} prefix (fail err)
  Keeps-fail err = record { at = λ s h. h }

  Keeps-annotate : (text : Text) (m : Action W) → Keeps prefix m → Keeps prefix (annotate text m)
  unfolding annotate
  Keeps-annotate text m h = record { at = h.at }

  continue-AllLocal :
      (reply : Option Error) (s : Session W) (k : Action W)
      → AllLocal prefix s
      → Keeps prefix k
      → AllLocal prefix (continue reply k s).1
  continue-AllLocal none s k h hk = hk.at s h
  continue-AllLocal (some err) s k h hk = h

  Keeps->> : (m k : Action W) → Keeps prefix m → Keeps prefix k → Keeps prefix (m >> k)
  unfolding ◌>>◌
  Keeps->> m k hm hk = record { at = λ s h. continue-AllLocal (m s).0 (m s).1 k (hm.at s h) hk }

module _ {W : Type 0} (backend : Backend W) {prefix : Text} where
  Keeps-send : (e : Event) → IsLocal prefix e → Keeps prefix (send backend e)
  unfolding send
  Keeps-send e he = record { at = λ s h. All-append (IsLocal prefix) s.trace (e ∷ []) h (he, tt) }

  Keeps-apply_claim :
      (k : Text) (val : Option Text) (valid : Bool)
      → valid_claim_key k ≡ valid
      → Keeps prefix (apply_claim backend prefix k val valid)
  unfolding apply_claim set_claim
  Keeps-apply_claim k val false e = Keeps-skip
  Keeps-apply_claim k none true e = Keeps-skip
  Keeps-apply_claim k (some val) true e =
      Keeps-annotate _ _ (Keeps-send _ (inr (k, val, e, refl, refl)))

  Keeps-apply_claims :
      (claims : List (Text × Claim)) → Keeps prefix (apply_claims backend prefix claims)
  unfolding apply_claims
  Keeps-apply_claims [] = Keeps-skip
  Keeps-apply_claims ((k, v) ∷ claims) =
      Keeps->> _ _ (Keeps-apply_claim k (claim_text v) (valid_claim_key k) refl)
        (Keeps-apply_claims claims)

  Keeps-apply_role : (role : Text) → Keeps prefix (apply_role backend role)
  unfolding apply_role
  Keeps-apply_role role = by_test (is_empty role) (valid_role role) refl
    where
      by_test :
          (empty valid : Bool)
          → valid_role role ≡ valid
          → Keeps prefix (
              if empty
              then skip
              else if not valid
              then fail (other (codes "invalid role " ++ go_quote role))
              else annotate (codes "set role: ") (send backend (exec (set_role_sql role) [])))
      by_test true valid e = Keeps-skip
      by_test false false e = Keeps-fail _
      by_test false true e = Keeps-annotate _ _ (Keeps-send _ (inl (role, e, refl, refl)))

module _ {W : Type 0} (backend : Backend W) where
  Keeps-in_transaction :
      (opts : TxOptions) (id : Identity) → Keeps (prefix_of id) (in_transaction backend opts id)
  unfolding in_transaction apply_identity
  Keeps-in_transaction opts id =
      Keeps->> _ _ (Keeps->> _ _ (by_rls opts.rls) (Keeps-send backend callback tt))
        (Keeps-send backend commit tt)
    where
      by_rls : (rls : Bool) → Keeps (prefix_of id) (if rls then apply_identity backend id else skip)
      by_rls true =
          Keeps->> _ _ (Keeps-apply_role backend id.role) (Keeps-apply_claims backend id.claims)
      by_rls false = Keeps-skip

  pub Keeps-run_once :
      (opts : TxOptions) (id : Identity) → Keeps (prefix_of id) (run_once backend opts id)
  unfolding run_once with_rollback
  Keeps-run_once opts id =
      let inner = Keeps-in_transaction opts id in
      Keeps->> _ _ (Keeps-send backend (begin opts.isolation) tt)
        (record { at = λ s h. (Keeps-send backend rollback tt).at _ (inner.at s h) })
