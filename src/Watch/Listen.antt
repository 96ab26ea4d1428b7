-- ===== src/Watch/Listen.antt =====
-- watch/watch.go: listen, drainNotifications and reintrospect as the steps of a machine beside a
-- database that changes. A DDL statement makes a new version of the schema and, by the trigger, one
-- more notification on the connection.
use pdbcore.Prelude.{ℕ, zero, suc, List, [], ◌∷◌, Option, none, some}

-- Where the loop of listen is: in WaitForNotification, in the sleep, in drainNotifications, in
-- reintrospect, or returned.
pub data Phase : Type 0 where
  waiting settling draining reading stopped : Phase

-- An introspection is several queries without a snapshot, so that statements may fall between them:
-- `begun` is the version at which the current one began, and `seen` that at which the one began
-- whose catalog OnChange got last, or the one that the watcher started with. The catalog may hold
-- parts of later versions; of `seen` itself it is only if no statement fell into its reading.
pub record State : Type 0 where
  pub version : ℕ
  pub queue : ℕ
  pub phase : Phase
  pub begun : ℕ
  pub seen : ℕ

-- A DDL statement; a notification that a wait returns; the end of the sleep; a wait of the drain
-- that ends with an error; an introspection that works or fails; an error of the outer wait.
pub data Event : Type 0 where
  ddl delivered slept drained introspected introspect_failed wait_failed : Event

abbrev pub deliver : ℕ → Phase → State → Option State
deliver zero p s = none
deliver (suc q) p s = some (record s { queue = q; phase = p })

-- What the watcher does in a phase; none where the event cannot happen.
unfoldable pub own_step : Event → Phase → State → Option State
own_step delivered waiting s = deliver s.queue settling s
own_step wait_failed waiting s = some (record s { phase = stopped })
own_step slept settling s = some (record s { phase = draining })
own_step delivered draining s = deliver s.queue draining s
own_step drained draining s = some (record s { phase = reading; begun = s.version })
own_step introspected reading s = some (record s { phase = waiting; seen = s.begun })
own_step introspect_failed reading s = some (record s { phase = waiting })
own_step _ _ s = none

unfoldable pub step : Event → State → Option State
step ddl s = some (record s { version = suc s.version; queue = suc s.queue })
step e s = own_step e s.phase s

abbrev pub then_run : (State → Option State) → Option State → Option State
then_run k none = none
then_run k (some s) = k s

-- listen, over any interleaving of its own events with those of the database.
unfoldable pub run : List Event → State → Option State
run [] s = some s
run (e ∷ es) s = then_run (run es) (step e s)
