-- ===== src/Watch/Samples.antt =====
-- The watcher at small inputs.
use pdbcore.Prelude.{
  ◌≡◌, refl, ℕ, ◌+◌, Option, none, Text, List, [], ◌∷◌, ◌++◌, some, codes, is_empty, text_eq,
}
use pdbcore.Watch.{
  Watcher, start, started, notify_body, trigger_body, Tick, hashed, no_catalog, poll, plain_runes,
  valid_channel, with_trigger_name,
}
use pdbcore.Watch.Names.{dollar_body, start-dollar_body}
use pdbcore.Watch.Listen.{State, waiting, settling}
use pdbcore.Watch.Run.{
  Request, on_pool, Sent, polls, send, install_trigger, then_trigger, choose, unless_broken, set_up,
  begin, run_watcher,
}
use pdbcore.Pgexec.Ident.{simple_rune}

abbrev watcher : Watcher
watcher = record { channel = codes "ddl"; trigger_name = [] }

abbrev named : Watcher
named = record { channel = codes "ddl"; trigger_name = codes "ddl_watch" }

watcher_started : start watcher ≡ started named
unfolding start valid_channel plain_runes simple_rune is_empty with_trigger_name
watcher_started = refl

start-dollar_body_example :
    (dollar_body (notify_body (codes "ddl") ++ codes "$$;")
      ≡ some (notify_body (codes "ddl"), codes ";"))
    × (dollar_body (trigger_body named ++ codes "$$;") ≡ some (trigger_body named, codes ";"))
start-dollar_body_example = start-dollar_body watcher named watcher_started

abbrev ticks : List (Tick ℕ)
ticks = hashed 1 (codes "a") ∷ hashed 2 (codes "a") ∷ no_catalog ∷ hashed 3 (codes "b") ∷ []

one_drift : poll ticks [] ≡ 3 ∷ []
unfolding poll is_empty text_eq
one_drift = refl

-- A DDL statement, its notification, and another statement during the sleep.
abbrev begun : State
begun = record { version = 4; queue = 0; phase = waiting; begun = 4; seen = 4 }

abbrev between : State
between = record { version = 6; queue = 1; phase = settling; begun = 4; seen = 4 }

-- A database without the right to create event triggers.
abbrev no_rights : Request → ℕ → Option Text × ℕ
no_rights (on_pool sql) w = (some (codes "permission denied"), w + 1)
no_rights _ w = (none, w + 1)

abbrev unsent : Sent ℕ
unsent = record { trace = []; world = 0 }

run_polls : (run_watcher no_rights watcher unsent).0 ≡ polls named
unfolding run_watcher begin set_up unless_broken send install_trigger then_trigger choose start
    valid_channel plain_runes simple_rune is_empty with_trigger_name
run_polls = refl
