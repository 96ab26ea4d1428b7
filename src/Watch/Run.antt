-- ===== src/Watch/Run.antt =====
-- watch/watch.go: Run and installTrigger. What is sent to the pool is a trace beside a world that
-- decides each reply; the release of the connection, when Run returns, is left out.
pub mod Order
use pdbcore.Prelude.{◌≡◌, ◌⊎◌, List, ◌∷◌, ◌++◌, Option, none, some, Text, codes, snoc, ◌∙◌}
use pdbcore.Watch.{Watcher, Start, refused, started, start, quote_name, function_sql, trigger_sql}

-- Acquire, an Exec on the acquired connection, and an Exec on the pool.
pub data Request : Type 0 where
  acquire : Request
  on_connection : Text → Request
  on_pool : Text → Request

pub record Sent (W : Type 0) : Type 0 where
  pub trace : List Request
  pub world : W

-- What Run comes to: an error before anything is sent, an error of the pool, poll, or listen.
pub data Mode : Type 0 where
  rejected : Text → Mode
  broken : Text → Mode
  polls : Watcher → Mode
  listens : Watcher → Mode

unfoldable pub listen_sql : Watcher → Text
listen_sql w = codes "LISTEN " ++ quote_name w.channel

module _ {W : Type 0} (reply : Request → W → Option Text × W) where
  unfoldable pub send : Request → Sent W → Option Text × Sent W
  send r s =
      let (error, w') = reply r s.world in (error, record { trace = snoc s.trace r; world = w' })

  -- What is left of installTrigger, by the reply to its first statement.
  unfoldable pub then_trigger : Watcher → Option Text × Sent W → Option Text × Sent W
  then_trigger w (some error, s) = (some error, s)
  then_trigger w (none, s) = send (on_pool (trigger_sql w)) s

  -- installTrigger
  unfoldable pub install_trigger : Watcher → Sent W → Option Text × Sent W
  install_trigger w s = then_trigger w (send (on_pool (function_sql w)) s)

  -- The last test of Run: without the trigger it polls.
  unfoldable pub choose : Watcher → Option Text × Sent W → Mode × Sent W
  choose w (some error, s) = (polls w, s)
  choose w (none, s) = (listens w, s)

  -- `if _, err := …; err != nil { return err }`
  unfoldable pub unless_broken : (Sent W → Mode × Sent W) → Option Text × Sent W → Mode × Sent W
  unless_broken k (some error, s) = (broken error, s)
  unless_broken k (none, s) = k s

  unfoldable pub set_up : Watcher → Sent W → Mode × Sent W
  set_up w s =
      unless_broken
        (λ s1.
          unless_broken (λ s2. choose w (install_trigger w s2))
            (send (on_connection (listen_sql w)) s1))
        (send acquire s)

  unfoldable pub begin : Start → Sent W → Mode × Sent W
  begin (refused text) s = (rejected text, s)
  begin (started w) s = set_up w s

  -- Run
  unfoldable pub run_watcher : Watcher → Sent W → Mode × Sent W
  run_watcher w s = begin (start w) s
