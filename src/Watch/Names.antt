-- ===== src/Watch/Names.antt =====
-- The dollar-quoted bodies that the names are put into.
use pdbcore.Prelude.{
  ◌≡◌, refl, subst, arith, ℕ, Bool, true, false, not, ◌&&◌, [], ◌∷◌, ◌++◌, Option, none, some, Text,
  codes, ◌==◌, cut_prefix, if◌then◌else◌, append_assoc, Bool-cases, ◌⊎◌, inl, inr,
}
use pdbcore.Pgexec.Ident.{double, simple_rune}
use pdbcore.Watch.{
  Watcher, plain_runes, valid_channel, quoted, quote_name, quote_lit, notify_body, trigger_body,
  with_trigger_name, refused, started, start,
}

abbrev prepend : ℕ → Option (Text × Text) → Option (Text × Text)
prepend c none = none
prepend c (some (s, rest)) = some (c ∷ s, rest)

-- PostgreSQL's reading of a dollar-quoted string behind its opening quote: up to the next two
-- dollars, whatever stands there, and what follows them.
unfoldable pub dollar_body : Text → Option (Text × Text)
dollar_body [] = none
dollar_body (c ∷ s) = elim (cut_prefix (c ∷ s) (codes "$$")) [
  | some rest ↦ some ([], rest)
  | none ↦ prepend c (dollar_body s)
]

-- There is no dollar.
unfoldable no_dollar : Text → Bool
no_dollar [] = true
no_dollar (c ∷ s) = not (c == b'$') && no_dollar s

dollar_body-no_dollar :
    (s rest : Text) → no_dollar s ≡ true → dollar_body (s ++ b'$' ∷ b'$' ∷ rest) ≡ some (s, rest)
unfolding dollar_body cut_prefix no_dollar
dollar_body-no_dollar [] rest h = refl
dollar_body-no_dollar (c ∷ s) rest h =
    by_first (Bool-cases (c == b'$')) (dollar_body-no_dollar s rest (ground arith))
  where
    by_first :
        ((c == b'$') ≡ true) ⊎ ((c == b'$') ≡ false)
        → dollar_body (s ++ b'$' ∷ b'$' ∷ rest) ≡ some (s, rest)
        → dollar_body (c ∷ (s ++ b'$' ∷ b'$' ∷ rest)) ≡ some (c ∷ s, rest)
    by_first (inl e) ih = absurd (ground arith)
    by_first (inr e) ih = rw (e, dollar_body, cut_prefix) (rw (ih, dollar_body))

no_dollar-append : (s t : Text) → no_dollar (s ++ t) ≡ (no_dollar s && no_dollar t)
unfolding no_dollar
no_dollar-append [] t = refl
no_dollar-append (c ∷ s) t = ground (arith, no_dollar-append s t)

no_dollar-double :
    (q : ℕ) (s : Text) → (q == b'$') ≡ false → no_dollar s ≡ true → no_dollar (double q s) ≡ true
unfolding no_dollar double
no_dollar-double q [] h hs = refl
no_dollar-double q (c ∷ s) h hs = ground (arith, no_dollar-double q s h)

no_dollar-quoted :
    (q : ℕ) (s t : Text)
    → (q == b'$') ≡ false
    → no_dollar s ≡ true
    → no_dollar t ≡ true
    → no_dollar (quoted q s ++ t) ≡ true
unfolding no_dollar
no_dollar-quoted q s t h hs ht =
    rw
      (
        h,
        append_assoc (double q s) (q ∷ []) t,
        no_dollar-append (double q s) (q ∷ t),
        no_dollar-double q s h hs,
        h,
      )
      ht

no_dollar-plain_runes : (s : Text) → plain_runes s ≡ true → no_dollar s ≡ true
unfolding plain_runes no_dollar simple_rune
no_dollar-plain_runes [] h = refl
no_dollar-plain_runes (c ∷ s) h = ground (arith, no_dollar-plain_runes s)

no_dollar-notify_body :
    (channel : Text) → no_dollar channel ≡ true → no_dollar (notify_body channel) ≡ true
unfolding notify_body quote_lit no_dollar
no_dollar-notify_body channel h = no_dollar-quoted b'\'' channel _ refl h refl

no_dollar-trigger_body :
    (w : Watcher) → no_dollar w.trigger_name ≡ true → no_dollar (trigger_body w) ≡ true
unfolding trigger_body quote_lit quote_name no_dollar
no_dollar-trigger_body w h = no_dollar-quoted b'\'' w.trigger_name _ refl h (
    no_dollar-quoted b'"' w.trigger_name _ refl h (
      no_dollar-quoted b'"' (w.trigger_name ++ codes "_notify") _ refl
        (rw (no_dollar-append w.trigger_name (codes "_notify"), h) refl) refl))

started_of :
    (a b : Bool) (m n : Text) (x v : Watcher)
    → (if a then refused m else if b then refused n else started x) ≡ started v
    → (a ≡ false) × (b ≡ false) × (x ≡ v)
started_of true b m n x v h = absurd (cc)
started_of false true m n x v h = absurd (cc)
started_of false false m n x v h = (refl, refl, cc)

valid_channel-plain_runes : (s : Text) → not (valid_channel s) ≡ false → plain_runes s ≡ true
unfolding valid_channel
valid_channel-plain_runes s h = ground arith

abbrev HasPlainNames : Watcher → Type 0
HasPlainNames v = (plain_runes v.channel ≡ true) × (plain_runes v.trigger_name ≡ true)

started-HasPlainNames : (w v : Watcher) → start w ≡ started v → HasPlainNames v
unfolding start with_trigger_name
started-HasPlainNames w v h =
    let (channel, name, same) = started_of _ _ _ _ (with_trigger_name w) v h in
    subst HasPlainNames same (
      valid_channel-plain_runes w.channel channel,
      valid_channel-plain_runes (with_trigger_name w).trigger_name name,
    )

-- If Run gets as far as to install the trigger, PostgreSQL reads each of the two dollar-quoted
-- bodies as it is meant: neither the channel's name nor the trigger's ends it early.
pub start-dollar_body :
    (w v : Watcher)
    → start w ≡ started v
    → (dollar_body (notify_body v.channel ++ codes "$$;") ≡ some (notify_body v.channel, codes ";"))
      × (dollar_body (trigger_body v ++ codes "$$;") ≡ some (trigger_body v, codes ";"))
start-dollar_body w v h =
    let (channel, name) = started-HasPlainNames w v h in
    (
      dollar_body-no_dollar _ (codes ";")
          (no_dollar-notify_body v.channel (no_dollar-plain_runes v.channel channel)),
      dollar_body-no_dollar _ (codes ";")
          (no_dollar-trigger_body v (no_dollar-plain_runes v.trigger_name name)),
    )
