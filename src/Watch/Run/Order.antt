-- ===== src/Watch/Run/Order.antt =====
-- Run is one loop over its requests, which stops at the first error.
use pdbcore.Prelude.{◌≡◌, refl, ℕ, suc, List, [], ◌∷◌, Option, none, some, Text, ltb, if◌then◌else◌}
use pdbcore.Watch.{Watcher, started, start, function_sql, trigger_sql}
use pdbcore.Watch.Run.{
  Request, acquire, on_connection, on_pool, Sent, Mode, broken, polls, listens, listen_sql, send,
  then_trigger, install_trigger, choose, unless_broken, set_up, begin, run_watcher,
}

-- LISTEN stands before the statements that make the trigger.
abbrev pub all_requests : Watcher → List Request
all_requests w =
    acquire ∷ on_connection (listen_sql w) ∷ on_pool (function_sql w) ∷ on_pool (trigger_sql w) ∷ []

-- An error of the connection ends Run, one of the trigger makes it poll.
abbrev pub mode_at : Watcher → Option (ℕ × Text) → Mode
mode_at w none = listens w
mode_at w (some (n, error)) = if ltb n 2 then broken error else polls w

abbrev pub finish : {W : Type 0} → Watcher → Option (ℕ × Text) × Sent W → Mode × Sent W
finish w (failure, s) = (mode_at w failure, s)

abbrev pub next :
    {W : Type 0}
    → ℕ
    → (Sent W → Option (ℕ × Text) × Sent W)
    → Option Text × Sent W
    → Option (ℕ × Text) × Sent W
next n k (some error, s) = (some (n, error), s)
next n k (none, s) = k s

module _ {W : Type 0} (reply : Request → W → Option Text × W) where
  -- Requests one by one until the first error: its place, counted from n, and the error.
  abbrev pub until_error : ℕ → List Request → Sent W → Option (ℕ × Text) × Sent W
  until_error n [] s = (none, s)
  until_error n (r ∷ rs) s = next n (until_error (suc n) rs) (send reply r s)

  trigger_made :
      (w : Watcher) (p : Option Text × Sent W)
      → choose reply w p ≡ finish w (next 3 (until_error 4 []) p)
  unfolding choose
  trigger_made w (some error, s) = refl
  trigger_made w (none, s) = refl

  function_made :
      (w : Watcher) (p : Option Text × Sent W)
      → choose reply w (then_trigger reply w p)
        ≡ finish w (next 2 (until_error 3 (on_pool (trigger_sql w) ∷ [])) p)
  unfolding then_trigger
  function_made w (some error, s) = unfold choose in refl
  function_made w (none, s) = trigger_made w (send reply (on_pool (trigger_sql w)) s)

  listening :
      (w : Watcher) (p : Option Text × Sent W)
      → unless_broken reply (λ s. choose reply w (install_trigger reply w s)) p
        ≡ finish w
            (next 1 (until_error 2 (on_pool (function_sql w) ∷ on_pool (trigger_sql w) ∷ [])) p)
  unfolding unless_broken install_trigger
  listening w (some error, s) = refl
  listening w (none, s) = function_made w (send reply (on_pool (function_sql w)) s)

  acquired :
      (w : Watcher) (p : Option Text × Sent W)
      → unless_broken reply
          (λ s1.
            unless_broken reply
              (λ s2. choose reply w (install_trigger reply w s2))
              (send reply (on_connection (listen_sql w)) s1))
          p
        ≡ finish w (
            next 0
              (until_error 1 (
                on_connection (listen_sql w)
                ∷ on_pool (function_sql w)
                ∷ on_pool (trigger_sql w)
                ∷ []))
              p)
  unfolding unless_broken
  acquired w (some error, s) = refl
  acquired w (none, s) = listening w (send reply (on_connection (listen_sql w)) s)

  -- With names that pass its tests Run acquires a connection, sends LISTEN on it, then the function
  -- and the trigger on the pool, and stops at the first error: an error of the first two is
  -- returned, after one of the others it polls, and without one it listens.
  pub run_watcher-until_error :
      (w named : Watcher) (s : Sent W)
      → start w ≡ started named
      → run_watcher reply w s ≡ finish named (until_error 0 (all_requests named) s)
  unfolding run_watcher begin set_up
  run_watcher-until_error w named s h = rw h (acquired named (send reply acquire s))
