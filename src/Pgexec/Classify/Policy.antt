-- ===== src/Pgexec/Classify/Policy.antt =====
-- What a client can learn from a classified error under each detail policy.
use pdbcore.Prelude.{
  ◌≡◌, refl, ◌≢◌, ◌↔◌, ◌⊎◌, true, false, List, [], ◌∷◌, Option, none, some, arith, Text, codes,
  text_eq, elem,
}
use pdbcore.Pgexec.Classify.{
  Class, Detail, constraint_text, input_text, denied_text, operation_text, database_text,
  internal_text, code_prefix, class_of, sanitize_message, pg_message, classify, classify_found,
}
use pdbcore.Pgexec.Errors.{PgError, Error, wrap, as_pg}

-- Every message that does not come from the error itself.
abbrev pub generic_texts : List Text
generic_texts =
    constraint_text ∷ input_text ∷ denied_text ∷ operation_text ∷ database_text ∷ internal_text ∷ []

sanitize_message_strict : (e : PgError) → elem (sanitize_message e true) generic_texts ≡ true
unfolding sanitize_message elem text_eq
sanitize_message_strict e = ground arith

classify_found_strict :
    (found : Option PgError) (err : Error)
    → elem (classify_found found err Detail.strict).message generic_texts ≡ true
unfolding classify_found elem text_eq
classify_found_strict none err = refl
classify_found_strict (some e) err = unfold pg_message in sanitize_message_strict e

-- Under the strict policy the message of every error is one of six fixed texts, whatever the
-- error says.
pub classify_strict_fixed :
    (err : Error) → elem (classify (some err) Detail.strict).message generic_texts ≡ true
unfolding classify
classify_strict_fixed err = classify_found_strict (as_pg err) err

-- What the production policy lets through: a fixed text, or the message of an error of
-- class 22 or 23.
abbrev pub Passes : Option PgError → Text → Type 0
Passes none m = m ≡ internal_text
Passes (some e) m =
    (elem m generic_texts ≡ true)
    ⊎ ((m ≡ e.message) × (elem (code_prefix e.code) (codes "22" ∷ codes "23" ∷ []) ≡ true))

sanitize_message_prod : (e : PgError) → Passes (some e) (sanitize_message e false)
unfolding sanitize_message elem text_eq
sanitize_message_prod e = ground arith

-- Under the production policy the message of an error that carries no PgError is the fixed
-- "internal error"; that of a PgError is a fixed text, or the error's own message, and then its
-- SQLSTATE begins with 22 or 23.
pub classify_prod_message :
    (err : Error) → Passes (as_pg err) (classify (some err) Detail.prod).message
unfolding classify
classify_prod_message err = by_found (as_pg err)
  where
    by_found : (o : Option PgError) → Passes o (classify_found o err Detail.prod).message
    by_found none = refl
    by_found (some e) = sanitize_message_prod e

class_of-ne-ok : (code : Text) → class_of code ≢ Class.ok
unfolding class_of
class_of-ne-ok code = ground arith

classify_found-ne-ok :
    (found : Option PgError) (err : Error) (d : Detail)
    → (classify_found found err d).class ≢ Class.ok
unfolding classify_found
classify_found-ne-ok none err d = ground arith
classify_found-ne-ok (some e) err d = class_of-ne-ok e.code

-- The class is `ok` exactly for a nil error, under every policy.
pub classify_ok_iff :
    (err : Option Error) (d : Detail) → ((classify err d).class ≡ Class.ok) ↔ (err ≡ none)
unfolding classify
classify_ok_iff none d = (λ h. refl, λ h. refl)
classify_ok_iff (some err) d = (λ h. absurd (classify_found-ne-ok (as_pg err) err d h), λ h. cc)

-- Wrapping a database error with context changes nothing that a client sees.
pub classify-wrap :
    (text : Text) (err : Error) (e : PgError) (d : Detail)
    → as_pg err ≡ some e
    → classify (some (wrap text err)) d ≡ classify (some err) d
unfolding classify as_pg
classify-wrap text err e d h = rw h
