-- ===== src/Pgexec/Tx/Retry.antt =====
-- The retry loop of RunTx: it ends, it is bounded, and it retries for one reason only.
use pdbcore.Prelude.{
  ℕ, zero, suc, ◌+◌, ◌≤◌, ◌<◌, ◌≡◌, refl, ◌⊎◌, inl, inr, Bool, true, false, ◌||◌, List, [], ◌∷◌,
  Option, none, some, arith, snoc, if◌then◌else◌, Bool-cases, length, length-append, elem, text_eq,
  text_eq_sound, codes, Text,
}
use native.Mathlib.Numerals.{add-one}
use pdbcore.Prelude.Int.{ℤ, pos, negsuc, pos_part, at_least}
use pdbcore.Pgexec.Errors.{PgError, Error, as_pg}
use pdbcore.Pgexec.Classify.{Class, Detail, class_of, classify_found, classify}
use pdbcore.Pgexec.Tx.{
  Identity, TxOptions, Session, Backend, is_serialization_failure, run_once, gives_up, retry_loop,
  run_tx,
}

at_least-false : (n : ℕ) (z : ℤ) → at_least n z ≡ false → n < pos_part z
at_least-false n (pos m) h = ground arith
at_least-false n (negsuc m) h = cc

module _ {W : Type 0} (backend : Backend W) (cancelled : W → Bool) (opts : TxOptions)
    (id : Identity) where
  -- n attempts in a row that failed by a serialization failure while the context was alive.
  pub data Failed : ℕ → Session W → Session W → Type 0 where
    here : {s : Session W} → Failed 0 s s
    again :
        {n : ℕ} {s t u : Session W} {err : Error}
        → Failed n s t
        → run_once backend opts id t ≡ (some err, u)
        → is_serialization_failure err ≡ true
        → cancelled u.world ≡ false
        → Failed (suc n) s u

  -- Why the loop stops after `n` retries with this result.
  abbrev pub Stops : ℕ → Option Error → Session W → Type 0
  Stops n none s = Unit
  Stops n (some err) s =
      (at_least n opts.max_retries ≡ true)
      ⊎ ((is_serialization_failure err ≡ false) ⊎ (cancelled s.world ≡ true))

  -- The answer of RunTx: the retries were `n` failures of that kind, the result is that of the
  -- last attempt, each retry was logged, and the loop had a reason to stop.
  pub record Ran (s : Session W) (out : Option Error × List ℕ × Session W) : Type 0 where
    pub start : Session W
    pub failed : Failed (length out.1) s start
    pub last : run_once backend opts id start ≡ (out.0, out.2)
    pub bounded : length out.1 ≤ pos_part opts.max_retries
    pub stops : Stops (length out.1) out.0 out.2

  Stops-gives_up :
      (n : ℕ) (err : Error) (u : Session W)
      → gives_up backend cancelled opts n err u ≡ true
      → Stops n (some err) u
  unfolding gives_up
  Stops-gives_up n err u h = ground arith

  goes_on :
      (n : ℕ) (err : Error) (u : Session W)
      → gives_up backend cancelled opts n err u ≡ false
      → (n < pos_part opts.max_retries)
        × (is_serialization_failure err ≡ true)
        × (cancelled u.world ≡ false)
  unfolding gives_up
  goes_on n err u h = ground (arith, at_least-false n opts.max_retries)

  -- The loop from `attempt` on, for a proof by induction on the fuel.
  abbrev LoopRan : ℕ → Type 0
  LoopRan fuel =
      (attempt : ℕ) (warnings : List ℕ) (s t : Session W)
      → length warnings ≡ attempt
      → attempt + fuel ≡ suc (pos_part opts.max_retries)
      → attempt ≤ pos_part opts.max_retries
      → Failed attempt s t
      → (out : Option Error × List ℕ × Session W) × (retry_loop backend cancelled opts id fuel
            attempt warnings t
          ≡ some out)
        × Ran s out

  retry_loop-LoopRan : (fuel : ℕ) → LoopRan fuel
  unfolding retry_loop
  retry_loop-LoopRan zero attempt warnings s t hw hf hb f = absurd (omega arith)
  retry_loop-LoopRan (suc fuel) attempt warnings s t hw hf hb f =
      by_result (retry_loop-LoopRan fuel) (run_once backend opts id t).0
        (run_once backend opts id t).1 refl
    where
      by_result :
          LoopRan fuel
          → (r : Option Error) (u : Session W) → run_once backend opts id t ≡ (r, u)
          → (out : Option Error × List ℕ × Session W) × ((elim r [
            | none ↦ some (none, warnings, u)
            | some err ↦
                let again =
                  retry_loop backend cancelled opts id fuel
                    (attempt + 1)
                    (snoc warnings (attempt + 1))
                    u in
                if gives_up backend cancelled opts attempt err u
                then some (some err, warnings, u)
                else again
          ])
              ≡ some out)
            × Ran s out
      by_result ih none u e = (
        (none, warnings, u),
        refl,
        record { start = t; failed = rw hw f; last = e; bounded = omega arith; stops = tt },
      )
      by_result ih (some err) u e =
          elim (Bool-cases (gives_up backend cancelled opts attempt err u)) [
            | inl stop ↦ (
              (some err, warnings, u),
              rw stop,
              record {
                start = t;
                failed = rw hw f;
                last = e;
                bounded = omega arith;
                stops = rw hw (Stops-gives_up attempt err u stop);
              },
            )
            | inr go ↦
                let (below, ser, alive) = goes_on attempt err u go in
                rw go (
                  ih (attempt + 1) (snoc warnings (attempt + 1)) s u
                    (omega (arith, length-append warnings ((attempt + 1) ∷ []))) (omega arith)
                    (omega arith) (rw add-one (again f e ser alive)))
          ]

  -- RunTx always returns within MaxRetries + 1 attempts. Its result is that of its last attempt;
  -- each attempt before it failed by a serialization failure or a deadlock while the context was
  -- alive and was logged; and the last one succeeded, or failed otherwise, or the retries were
  -- used up, or the context was cancelled.
  pub run_tx-Ran :
      (s : Session W)
      → (out : Option Error × List ℕ × Session W) × (run_tx backend cancelled opts id s ≡ some out)
        × Ran s out
  unfolding run_tx
  run_tx-Ran s =
      retry_loop-LoopRan (suc (pos_part opts.max_retries)) 0 [] s s refl (omega arith) (omega arith)
        here

class_of-retried :
    (code : Text)
    → (text_eq code (codes "40001") || text_eq code (codes "40P01")) ≡ true
    → class_of code ≡ Class.conflict
unfolding class_of elem
class_of-retried code h = ground (
  arith,
  text_eq_sound code (codes "40001"),
  text_eq_sound code (codes "40P01"),
  text_eq_sound code (codes "42501"),
)

-- A retried error, when the retries are used up, is classified as a conflict under every policy.
pub classify-serialization_failure :
    (err : Error) (d : Detail)
    → is_serialization_failure err ≡ true
    → (classify (some err) d).class ≡ Class.conflict
unfolding classify is_serialization_failure
classify-serialization_failure err d h = by_found (as_pg err) h
  where
    by_found :
        (found : Option PgError)
        → (elim found [
          | none ↦ false
          | some e ↦ text_eq e.code (codes "40001") || text_eq e.code (codes "40P01")
        ])
          ≡ true
        → (classify_found found err d).class ≡ Class.conflict
    by_found none h = cc
    by_found (some e) h = class_of-retried e.code h
