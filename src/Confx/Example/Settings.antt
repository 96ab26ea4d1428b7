-- ===== src/Confx/Example/Settings.antt =====
-- The settings of the reference configuration, line by line.
use Prim.Native.Nat.{suc}
use pdbcore.Prelude.{
  ◌≡◌, refl, ap, subst, sym, ◌∙◌, ◌⊎◌, inl, inr, ℕ, Bool, true, false, ◌&&◌, List, [], ◌∷◌, ◌++◌,
  append_assoc, append-nil, Text, codes, All, keep, arith, ◌==◌, if◌then◌else◌, Bool-cases,
}
use pdbcore.Prelude.Map.{Map, get}
use pdbcore.Prelude.Words.{split}
use pdbcore.Confx.Fields.{
  Tags, Value, string, boolean, integer, duration, slice, map_of, struct, other, Fields, end, field,
  is_inlined, is_struct, is_left_out, path_of, inner_prefix,
}
use pdbcore.Confx.Variables.{is_path}
use pdbcore.Confx.ListVariables.{
  is_named, has_paths, head-has_paths, struct-has_paths, rest-has_paths,
}
use pdbcore.Confx.Example.{
  Format, pad, line, doc_of, comment, setting, heading, write_struct, with_docs, example_yaml,
}
use pdbcore.Confx.Example.Values.{IsLine, IsPlain, yaml_value-IsLine}
use pdbcore.Confx.Example.Lines.{
  settings, settings-comment, settings-key, settings-blank, HasLines, doc_of-IsLine,
  with_docs-HasLines,
}

module _ (format : Format) where
  -- Comments of one line, and values whose raw parts hold no newline.
  unfoldable pub ArePlainFields : Fields → Type 0
  ArePlainFields end = Unit
  ArePlainFields (field t (struct fs) rest) = IsLine t.doc × ArePlainFields fs × ArePlainFields rest
  ArePlainFields (field t v rest) = IsLine t.doc × IsPlain format v × ArePlainFields rest

  -- A line for each field that is not left out: a heading for a struct, with its fields two blanks
  -- deeper, and the key with the value for any other; inlined fields stand in place of their struct.
  unfoldable pub setting_lines : Fields → ℕ → List Text
  setting_lines end indent = []
  setting_lines (field t (struct fs) rest) indent =
      let inner = setting_lines fs (if is_inlined t (struct fs) then indent else suc indent) in
      (if is_inlined t (struct fs)
        then inner
        else if is_left_out t
        then []
        else (pad indent ++ heading t) ∷ inner)
      ++ setting_lines rest indent
  setting_lines (field t v rest) indent =
      (if is_left_out t then [] else (pad indent ++ setting format t v) ∷ [])
      ++ setting_lines rest indent

  -- A piece of the text adds these lines.
  abbrev Adds : Text → List Text → Type 0
  Adds piece lines = (tail : Text) → settings (piece ++ tail) ≡ lines ++ settings tail

  Adds-append : (a b : Text) (ls ms : List Text) → Adds a ls → Adds b ms → Adds (a ++ b) (ls ++ ms)
  Adds-append a b ls ms ha hb tail =
      ap settings (append_assoc a b tail)
      ∙ ha (b ++ tail)
      ∙ ap (λ (x : List Text). ls ++ x) (hb tail)
      ∙ sym (append_assoc ls ms (settings tail))

  Adds-comment : (n : ℕ) (doc : Text) → IsLine doc → Adds (comment n doc) []
  Adds-comment n doc h tail = settings-comment n doc tail h

  Adds-key :
      (n : ℕ) (k s : Text)
      → is_path true k ≡ true
      → IsLine s
      → Adds (line n (k ++ s)) ((pad n ++ (k ++ s)) ∷ [])
  Adds-key n k s h line tail = settings-key n k s tail h line

  Adds-blank : (b : Bool) → Adds (if b then codes "\n" else []) []
  Adds-blank true tail = settings-blank tail
  Adds-blank false tail = refl

  leaf-Adds :
      (docs : Map Text) (t : Tags) (v : Value) (indent : ℕ) (prefix : Text)
      → HasLines docs
      → IsLine t.doc
      → IsPlain format v
      → (is_left_out t ≡ false → is_path true t.key ≡ true)
      → Adds
          (if is_left_out t
            then []
            else comment indent (doc_of docs (path_of prefix t.key) t)
              ++ line indent (setting format t v))
          (if is_left_out t then [] else (pad indent ++ setting format t v) ∷ [])
  leaf-Adds docs t v indent prefix h own plain named = elim (Bool-cases (is_left_out t)) [
    | inl e ↦ rw e (λ tail. refl)
    | inr e ↦ rw e (
        Adds-append _ _ [] ((pad indent ++ setting format t v) ∷ [])
          (Adds-comment indent _ (doc_of-IsLine docs (path_of prefix t.key) t h own))
          (Adds-key indent t.key _ (named e) (refl, (refl, yaml_value-IsLine format v plain))))
  ]

  struct-Adds :
      (docs : Map Text) (t : Tags) (fs : Fields) (indent : ℕ) (prefix inner : Text)
      (lines : List Text)
      → HasLines docs
      → IsLine t.doc
      → (is_inlined t (struct fs) ≡ false → is_left_out t ≡ false → is_path true t.key ≡ true)
      → ((is_inlined t (struct fs) ≡ true) ⊎ (is_left_out t ≡ false) → Adds inner lines)
      → Adds
          (if is_inlined t (struct fs)
            then inner
            else if is_left_out t
            then []
            else comment indent (doc_of docs (path_of prefix t.key) t)
              ++ (line indent (heading t) ++ (inner ++ (if indent == 0 then codes "\n" else []))))
          (if is_inlined t (struct fs)
            then lines
            else if is_left_out t
            then []
            else (pad indent ++ heading t) ∷ lines)
  struct-Adds docs t fs indent prefix inner lines h own named walked =
      elim (Bool-cases (is_inlined t (struct fs))) [
        | inl e ↦ rw e (walked (inl e))
        | inr i ↦ rw i (elim (Bool-cases (is_left_out t)) [
          | inl e ↦ rw e (λ tail. refl)
          | inr e ↦ rw e (
              Adds-append _ _ [] ((pad indent ++ heading t) ∷ lines)
                (Adds-comment indent _ (doc_of-IsLine docs (path_of prefix t.key) t h own))
                (Adds-append _ _ ((pad indent ++ heading t) ∷ []) lines
                  (Adds-key indent t.key (codes ":") (named i e) (refl, tt))
                  (subst (Adds (inner ++ (if indent == 0 then codes "\n" else [])))
                    (append-nil lines)
                    (Adds-append inner _ lines [] (walked (inr e)) (Adds-blank (indent == 0))))))
        ])
      ]

  named_key :
      (t : Tags) (v : Value)
      → is_named t v ≡ true
      → is_inlined t v ≡ false
      → is_left_out t ≡ false
      → is_path true t.key ≡ true
  unfolding is_named
  named_key t v h i e = ground arith

  left_true : (a b : Bool) → (a && b) ≡ true → a ≡ true
  left_true true b h = refl
  left_true false b h = cc

  right_true : (a b : Bool) → (a && b) ≡ true → b ≡ true
  right_true true b h = h
  right_true false b h = cc

  leaf_named :
      (t : Tags) (v : Value)
      → is_struct v ≡ false
      → is_named t v ≡ true
      → is_left_out t ≡ false
      → is_path true t.key ≡ true
  unfolding is_inlined is_struct
  leaf_named t v leaf h e = named_key t v h (ground arith) e

  leaf-field :
      (docs : Map Text) (t : Tags) (v : Value) (rest : Fields) (indent : ℕ) (prefix : Text)
      → is_struct v ≡ false
      → HasLines docs
      → IsLine t.doc × IsPlain format v × ArePlainFields rest
      → (is_named t v && has_paths rest) ≡ true
      → (ArePlainFields rest
          → has_paths rest ≡ true
          → Adds (write_struct format docs rest indent prefix) (setting_lines rest indent))
      → Adds
          ((if is_left_out t
              then []
              else comment indent (doc_of docs (path_of prefix t.key) t)
                ++ line indent (setting format t v))
            ++ write_struct format docs rest indent prefix)
          ((if is_left_out t then [] else (pad indent ++ setting format t v) ∷ [])
            ++ setting_lines rest indent)
  leaf-field docs t v rest indent prefix leaf h (own, plain, plain_rest) named behind =
      Adds-append
        (if is_left_out t
          then []
          else comment indent (doc_of docs (path_of prefix t.key) t)
            ++ line indent (setting format t v))
        (write_struct format docs rest indent prefix)
        (if is_left_out t then [] else (pad indent ++ setting format t v) ∷ [])
        (setting_lines rest indent)
        (leaf-Adds docs t v indent prefix h own plain (leaf_named t v leaf (left_true _ _ named)))
        (behind plain_rest (right_true _ _ named))

  write_struct-Adds :
      (docs : Map Text) (fs : Fields) (indent : ℕ) (prefix : Text)
      → HasLines docs
      → ArePlainFields fs
      → has_paths fs ≡ true
      → Adds (write_struct format docs fs indent prefix) (setting_lines fs indent)
  unfolding write_struct setting_lines ArePlainFields has_paths is_struct
  write_struct-Adds docs end indent prefix h p k = λ tail. refl
  write_struct-Adds docs (field t (struct fs) rest) indent prefix h (own, inside, behind) k =
      Adds-append _ (write_struct format docs rest indent prefix) _ (setting_lines rest indent)
        (struct-Adds docs t fs indent prefix
          (write_struct format docs fs (if is_inlined t (struct fs) then indent else suc indent)
            (inner_prefix prefix t (struct fs)))
          (setting_lines fs (if is_inlined t (struct fs) then indent else suc indent)) h own
          (named_key t (struct fs) (head-has_paths t fs rest k))
          (λ keeps.
            write_struct-Adds docs fs (if is_inlined t (struct fs) then indent else suc indent)
              (inner_prefix prefix t (struct fs)) h inside (struct-has_paths t fs rest k keeps)))
        (write_struct-Adds docs rest indent prefix h behind (rest-has_paths t fs rest k))
  write_struct-Adds docs (field t (string s) rest) indent prefix h p k =
      leaf-field docs t (string s) rest indent prefix refl h p k
        (write_struct-Adds docs rest indent prefix h)
  write_struct-Adds docs (field t (boolean s) rest) indent prefix h p k =
      leaf-field docs t (boolean s) rest indent prefix refl h p k
        (write_struct-Adds docs rest indent prefix h)
  write_struct-Adds docs (field t (integer s) rest) indent prefix h p k =
      leaf-field docs t (integer s) rest indent prefix refl h p k
        (write_struct-Adds docs rest indent prefix h)
  write_struct-Adds docs (field t (duration s) rest) indent prefix h p k =
      leaf-field docs t (duration s) rest indent prefix refl h p k
        (write_struct-Adds docs rest indent prefix h)
  write_struct-Adds docs (field t (slice s) rest) indent prefix h p k =
      leaf-field docs t (slice s) rest indent prefix refl h p k
        (write_struct-Adds docs rest indent prefix h)
  write_struct-Adds docs (field t (map_of s) rest) indent prefix h p k =
      leaf-field docs t (map_of s) rest indent prefix refl h p k
        (write_struct-Adds docs rest indent prefix h)
  write_struct-Adds docs (field t (other s) rest) indent prefix h p k =
      leaf-field docs t (other s) rest indent prefix refl h p k
        (write_struct-Adds docs rest indent prefix h)

  -- Whatever the comments and the overrides say, if each is one line, the lines of the example that
  -- are neither blank nor comments are these, in order: a line for each field that is not left out,
  -- a heading for a struct and the key with its value for any other, two blanks deeper for each
  -- struct round it; where the keys make paths and the raw parts of values hold no newline.
  pub settings-example_yaml :
      (fs : Fields) (opts : List (Text × Text))
      → All (λ (o : Text × Text). IsLine o.1) opts
      → ArePlainFields fs
      → has_paths fs ≡ true
      → settings (example_yaml format fs opts) ≡ setting_lines fs 0
  unfolding example_yaml settings setting_lines keep split
  settings-example_yaml fs opts docs plain paths =
      ap settings (sym (append-nil (write_struct format (with_docs opts []) fs 0 [])))
      ∙ write_struct-Adds (with_docs opts []) fs 0 []
          (with_docs-HasLines opts [] docs (λ p. unfold get in tt)) plain paths []
      ∙ append-nil (setting_lines fs 0)
