-- ===== src/Watch/Progress.antt =====
-- No change of the schema is lost to the loop of listen.
use pdbcore.Prelude.{◌≡◌, ◌⊎◌, ℕ, zero, suc, ◌<◌, List, [], ◌∷◌, Option, none, some}
use pdbcore.Watch.Listen.{
  Phase, waiting, settling, draining, reading, stopped, State, Event, delivered, slept, drained,
  introspected, introspect_failed,
}

-- While the watcher waits, the catalog that it passed on was begun at the current version or a
-- notification is there; while it reads, so for the catalog that it reads.
abbrev InPhase : Phase → State → Type 0
InPhase waiting s = (s.seen ≡ s.version) ⊎ (0 < s.queue)
InPhase reading s = (s.begun ≡ s.version) ⊎ (0 < s.queue)
InPhase _ s = Unit

abbrev pub IsInformed : State → Type 0
IsInformed s = InPhase s.phase s

-- An introspection that does not fail.
abbrev pub Works : Event → Type 0
Works introspect_failed = ⊥
Works _ = Unit

abbrev SomeAll : Option State → Type 0
SomeAll none = Unit
SomeAll (some s) = IsInformed s

-- What the watcher does by itself until it waits again with nothing to do: at most five events.
abbrev pub catch_up : Phase → ℕ → List Event
catch_up waiting zero = []
catch_up waiting (suc q) = delivered ∷ slept ∷ drained ∷ introspected ∷ []
catch_up settling q = slept ∷ drained ∷ introspected ∷ []
catch_up draining q = drained ∷ introspected ∷ []
catch_up reading zero = introspected ∷ []
catch_up reading (suc q) = introspected ∷ delivered ∷ slept ∷ drained ∷ introspected ∷ []
catch_up stopped q = []

abbrev pub IsRunning : Phase → Type 0
IsRunning stopped = ⊥
IsRunning _ = Unit

-- The watcher waits, and the catalog that it passed on last was begun at the version that was
-- current and is.
abbrev pub IsCaughtUp : State → Option State → Type 0
IsCaughtUp s none = ⊥
IsCaughtUp s (some r) = (r.phase ≡ waiting) × (r.seen ≡ s.version) × (r.version ≡ s.version)

abbrev at_phase : Phase → ℕ → ℕ → ℕ → ℕ → State
at_phase p q v b n = record { version = v; queue = q; phase = p; begun = b; seen = n }
