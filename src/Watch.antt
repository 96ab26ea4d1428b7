-- ===== src/Watch.antt =====
-- watch/watch.go: the tests of Run, the statements that install the trigger, and the loop of poll.
-- The ticker and Introspect are the environment of the loops; what Run sends is in Run, and listen
-- is the machine of Listen.
pub mod Names
pub mod Polls
pub mod Listen
pub mod Progress
pub mod Run
mod Samples
use pdbcore.Prelude.{
  ℕ, Bool, true, false, not, ◌&&◌, List, [], ◌∷◌, ◌++◌, Text, codes, text_eq, is_empty, go_quote,
  if◌then◌else◌,
}
use pdbcore.Pgexec.Ident.{double, simple_rune}

-- The fields of Watcher that the statements depend on.
pub record Watcher : Type 0 where
  pub channel : Text
  pub trigger_name : Text

unfoldable pub plain_runes : Text → Bool
plain_runes [] = true
plain_runes (r ∷ s) = let rest = plain_runes s in if not (simple_rune r) then false else rest

-- validChannel
unfoldable pub valid_channel : Text → Bool
valid_channel s = plain_runes s && not (is_empty s)

-- quoteIdent and quoteLit of this package
abbrev pub quoted : ℕ → Text → Text
quoted q s = q ∷ (double q s ++ q ∷ [])

unfoldable pub quote_name : Text → Text
quote_name s = quoted b'"' s

unfoldable pub quote_lit : Text → Text
quote_lit s = quoted b'\'' s

-- The body of the notify function, between its dollar quotes.
unfoldable pub notify_body : Text → Text
notify_body channel =
    codes "\n\t\tBEGIN\n\t\t\tPERFORM pg_notify("
    ++ (quote_lit channel ++ codes ", tg_tag);\n\t\tEND ")

-- The first statement of installTrigger.
unfoldable pub function_sql : Watcher → Text
function_sql w =
    codes "\n\t\tCREATE OR REPLACE FUNCTION "
    ++ (quote_name (w.trigger_name ++ codes "_notify")
        ++ (codes "() RETURNS event_trigger\n\t\tLANGUAGE plpgsql AS $$"
            ++ (notify_body w.channel ++ codes "$$;")))

-- The body of its second statement.
unfoldable pub trigger_body : Watcher → Text
trigger_body w =
    codes " BEGIN\n\t\t\tIF NOT EXISTS (SELECT 1 FROM pg_event_trigger WHERE evtname = "
    ++ (quote_lit w.trigger_name
        ++ (codes ") THEN\n\t\t\t\tCREATE EVENT TRIGGER "
            ++ (quote_name w.trigger_name
                ++ (codes " ON ddl_command_end EXECUTE FUNCTION "
                    ++ (quote_name (w.trigger_name ++ codes "_notify")
                        ++ codes "();\n\t\t\tEND IF;\n\t\tEND ")))))

unfoldable pub trigger_sql : Watcher → Text
trigger_sql w = codes "\n\t\tDO $$" ++ (trigger_body w ++ codes "$$;")

-- The default of TriggerName, and the two tests that Run starts with: the watcher to go on with,
-- or an error's text.
unfoldable pub with_trigger_name : Watcher → Watcher
with_trigger_name w = record w {
  trigger_name = if is_empty w.trigger_name then w.channel ++ codes "_watch" else w.trigger_name;
}

pub data Start : Type 0 where
  refused : Text → Start
  started : Watcher → Start

unfoldable pub start : Watcher → Start
start w =
    let named = with_trigger_name w in
    if not (valid_channel w.channel)
    then refused (
        codes "watch: invalid channel name "
        ++ (go_quote w.channel ++ codes ": only letters, digits and underscores are allowed"))
    else if not (valid_channel named.trigger_name)
    then refused (
        codes "watch: invalid trigger name "
        ++ (go_quote named.trigger_name
            ++ codes ": only letters, digits and underscores are allowed"))
    else started named

-- What the ticks of poll find: an introspection that fails, a catalog that cannot be hashed, or a
-- catalog with its hash, which is a hex text and so not empty.
pub data Tick (C : Type 0) : Type 0 where
  no_catalog : Tick C
  no_hash : C → Tick C
  hashed : C → Text → Tick C

-- The loop of poll over the ticks until the context is done: the catalogs that OnChange gets.
unfoldable pub poll : {C : Type 0} → List (Tick C) → Text → List C
poll [] last = []
poll (no_catalog ∷ ticks) last = poll ticks last
poll (no_hash cat ∷ ticks) last = poll ticks last
poll (hashed cat hash ∷ ticks) last =
    let rest = poll ticks hash in
    if not (is_empty last) && not (text_eq hash last) then cat ∷ rest else rest
