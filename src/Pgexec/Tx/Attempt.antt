-- ===== src/Pgexec/Tx/Attempt.antt =====
-- What one attempt sends to PostgreSQL, on every way through runOnce.
use pdbcore.Prelude.{
  ◌≡◌, ◌≢◌, refl, sym, not, go_quote, ◌⊎◌, Bool, true, false, List, [], ◌∷◌, ◌++◌, Option, none,
  some, append-nil, append_assoc, Text, codes, is_empty, snoc, if◌then◌else◌,
}
use pdbcore.Pgexec.Errors.{Error, other}
use pdbcore.Pgexec.Ident.{valid_role, valid_claim_key}
use pdbcore.Pgexec.Tx.{
  Claim, Identity, TxOptions, Event, begin, exec, callback, commit, rollback, Session, Backend,
  claim_text, prefix_of, set_config_sql, set_role_sql, Action, continue, ◌>>◌, skip, fail,
  add_context, annotate, send, set_claim, apply_claim, apply_claims, apply_role, apply_identity,
}

-- The statement of one claim: none for a key outside the alphabet or a value without JSON.
abbrev pub claim_event : Text → Text → Option Text → Bool → List Event
claim_event prefix k (some val) true =
    exec set_config_sql ((prefix ++ codes "." ++ k) ∷ val ∷ []) ∷ []
claim_event prefix k none true = []
claim_event prefix k val false = []

-- The statements that an identity stands for.
unfoldable pub claim_events : Text → List (Text × Claim) → List Event
claim_events prefix [] = []
claim_events prefix ((k, v) ∷ claims) =
    claim_event prefix k (claim_text v) (valid_claim_key k) ++ claim_events prefix claims

unfoldable pub role_events : Text → List Event
role_events role = if is_empty role then [] else exec (set_role_sql role) [] ∷ []

unfoldable pub identity_events : TxOptions → Identity → List Event
identity_events opts id =
    if opts.rls then role_events id.role ++ claim_events (prefix_of id) id.claims else []

-- `evs` is the part of `whole` that was sent before an error, or all of it.
abbrev pub SentPart : Option Error → List Event → List Event → Type 0
SentPart none evs whole = evs ≡ whole
SentPart (some err) evs whole = (rest : List Event) × (evs ++ rest ≡ whole)

module _ {W : Type 0} where
  -- From every session the action sends these events in this order, and stops early only with an
  -- error.
  abbrev pub SendsFrom : Session W → List Event → Option Error × Session W → Type 0
  SendsFrom s whole out =
      (evs : List Event) × (out.1.trace ≡ s.trace ++ evs) × SentPart out.0 evs whole

  -- What a whole attempt sends. Either the begin itself fails, or the attempt sends a part of the
  -- identity's statements, the callback and the commit, in this order, and then a rollback. It
  -- sends all of them if it returns no error.
  abbrev pub Attempted : TxOptions → Identity → Session W → Option Error × Session W → Type 0
  Attempted opts id s out =
      ((out.0 ≢ none) × (out.1.trace ≡ snoc s.trace (begin opts.isolation)))
      ⊎ ((evs : List Event) × (out.1.trace
            ≡ s.trace ++ begin opts.isolation ∷ (evs ++ rollback ∷ []))
          × SentPart out.0 evs (identity_events opts id ++ callback ∷ commit ∷ []))

  pub record Sends (m : Action W) (whole : List Event) : Type 0 where
    pub from : (s : Session W) → SendsFrom s whole (m s)

  Sends-skip : Sends skip []
  Sends-skip = record { from = λ s. ([], sym (append-nil s.trace), refl) }

  Sends-fail : (err : Error) (whole : List Event) → Sends (fail err) whole
  Sends-fail err whole = record { from = λ s. ([], sym (append-nil s.trace), (whole, refl)) }

  Sends-annotate :
      (text : Text) (m : Action W) (whole : List Event)
      → Sends m whole
      → Sends (annotate text m) whole
  unfolding annotate
  Sends-annotate text m whole h = record { from = λ s. by_reply s (m s) (h.from s) }
    where
      by_reply :
          (s : Session W) (out : Option Error × Session W)
          → SendsFrom s whole out
          → SendsFrom s whole (add_context text out.0, out.1)
      by_reply s (none, s') h = h
      by_reply s (some err, s') h = h

  continue-SendsFrom :
      (s : Session W) (out : Option Error × Session W) (k : Action W) (a b : List Event)
      → SendsFrom s a out
      → Sends k b
      → SendsFrom s (a ++ b) (continue out.0 k out.1)
  continue-SendsFrom s (some err, s') k a b (evs, e, (rest, p)) hk =
      (evs, e, (rest ++ b, cc (append_assoc evs rest b)))
  continue-SendsFrom s (none, s') k a b (evs, e, p) hk =
      let (more, e', q) = hk.from s' in
      (evs ++ more, cc (append_assoc s.trace evs more), after (k s').0 more q)
    where
      after :
          (r : Option Error) (more : List Event)
          → SentPart r more b
          → SentPart r (evs ++ more) (a ++ b)
      after none more q = cc
      after (some err) more (rest, q) = (rest, cc (append_assoc evs more rest))

  Sends->> : (m k : Action W) (a b : List Event) → Sends m a → Sends k b → Sends (m >> k) (a ++ b)
  unfolding ◌>>◌
  Sends->> m k a b hm hk = record { from = λ s. continue-SendsFrom s (m s) k a b (hm.from s) hk }

module _ {W : Type 0} (backend : Backend W) where
  Sends-send : (e : Event) → Sends (send backend e) (e ∷ [])
  unfolding send
  Sends-send e = record { from = λ s. (e ∷ [], refl, by_reply (backend e s.world).0) }
    where
      by_reply : (r : Option Error) → SentPart r (e ∷ []) (e ∷ [])
      by_reply none = refl
      by_reply (some err) = ([], refl)

  Sends-apply_claim :
      (prefix k : Text) (val : Option Text) (valid : Bool)
      → Sends (apply_claim backend prefix k val valid) (claim_event prefix k val valid)
  unfolding apply_claim set_claim
  Sends-apply_claim prefix k val false = Sends-skip
  Sends-apply_claim prefix k none true = Sends-skip
  Sends-apply_claim prefix k (some val) true = Sends-annotate _ _ _ (Sends-send _)

  Sends-apply_claims :
      (prefix : Text) (claims : List (Text × Claim))
      → Sends (apply_claims backend prefix claims) (claim_events prefix claims)
  unfolding apply_claims claim_events
  Sends-apply_claims prefix [] = Sends-skip
  Sends-apply_claims prefix ((k, v) ∷ claims) =
      Sends->> _ _ _ _ (Sends-apply_claim prefix k (claim_text v) (valid_claim_key k))
        (Sends-apply_claims prefix claims)

  Sends-apply_role : (role : Text) → Sends (apply_role backend role) (role_events role)
  unfolding apply_role role_events
  Sends-apply_role role = by_test (is_empty role) (not (valid_role role))
    where
      by_test :
          (empty invalid : Bool)
          → Sends
              (if empty
                then skip
                else if invalid
                then fail (other (codes "invalid role " ++ go_quote role))
                else annotate (codes "set role: ") (send backend (exec (set_role_sql role) [])))
              (if empty then [] else exec (set_role_sql role) [] ∷ [])
      by_test true invalid = Sends-skip
      by_test false true = Sends-fail _ _
      by_test false false = Sends-annotate _ _ _ (Sends-send _)

  -- ApplyIdentity sends the statements of the role and of the claims, in this order, and stops
  -- early only with an error.
  pub Sends-apply_identity :
      (id : Identity)
      → Sends
          (apply_identity backend id)
          (role_events id.role ++ claim_events (prefix_of id) id.claims)
  unfolding apply_identity
  Sends-apply_identity id =
      Sends->> _ _ _ _ (Sends-apply_role id.role) (Sends-apply_claims (prefix_of id) id.claims)
