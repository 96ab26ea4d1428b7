-- ===== src/Confx/Example.antt =====
-- confx/example.go: the commented reference configuration. What fmt prints of a duration and of a
-- struct inside a list is a parameter; the keys of a map are strings.
pub mod Lines
pub mod Settings
pub mod Values
use Prim.Native.Nat.{suc, zero}
use pdbcore.Prelude.{
  Bool, ℕ, ◌+◌, true, false, not, List, [], ◌∷◌, ◌++◌, Option, none, some, Text, codes, is_empty,
  quote_text, map, ◌==◌, if◌then◌else◌,
}
use pdbcore.Prelude.Int.{ℤ, pos, negsuc}
use pdbcore.Prelude.Decimal.{decimal}
use pdbcore.Prelude.Map.{Map, get, put, sorted_keys}
use pdbcore.Prelude.Words.{join}
use pdbcore.Confx.Fields.{
  Tags, Value, string, boolean, integer, duration, slice, map_of, struct, other, Elements, nil,
  cons, Entries, done, entry, Fields, end, field, is_inlined, is_left_out, path_of, inner_prefix,
}

-- strconv.IsPrint from 128 on, Duration.String, and %v of a struct.
pub record Format : Type 0 where
  pub is_print : ℕ → Bool
  pub duration_text : ℤ → Text
  pub print_struct : Fields → Text

-- %d
unfoldable pub int_text : ℤ → Text
int_text (pos n) = decimal n
int_text (negsuc n) = b'-' ∷ decimal (suc n)

abbrev pub text_at : Option Text → Text
text_at none = []
text_at (some t) = t

-- The parts of a map in the order of its keys, from the texts of its values.
unfoldable pub map_parts : Map Text → List Text
map_parts m = map (λ k. k ++ (codes ": " ++ text_at (get k m))) (sorted_keys m)

-- A list between marks, or the marks alone for an empty one.
unfoldable pub enclosed : ℕ → ℕ → List Text → Text
enclosed open_mark close_mark [] = open_mark ∷ close_mark ∷ []
enclosed open_mark close_mark (p ∷ ps) = open_mark ∷ (join (codes ", ") (p ∷ ps) ++ close_mark ∷ [])

-- strings.Repeat("  ", indent)
unfoldable pub pad : ℕ → Text
pad zero = []
pad (suc n) = b' ' ∷ b' ' ∷ pad n

unfoldable pub line : ℕ → Text → Text
line indent content = pad indent ++ (content ++ b'\n' ∷ [])

-- The comment of a field: the override for its path, or its tag; none if that is empty.
unfoldable pub doc_of : Map Text → Text → Tags → Text
doc_of docs path t = elim (get path docs) [ none ↦ t.doc | some d ↦ d ]

unfoldable pub comment : ℕ → Text → Text
comment indent doc = if not (is_empty doc) then line indent (codes "# " ++ doc) else []

-- The line of a struct.
abbrev pub heading : Tags → Text
heading t = t.key ++ codes ":"

-- The options of WithDoc, applied in order.
unfoldable pub with_docs : List (Text × Text) → Map Text → Map Text
with_docs [] docs = docs
with_docs ((path, doc) ∷ opts) docs = with_docs opts (put path doc docs)

module _ (format : Format) where
  -- yamlValue
  unfoldable mutual
    pub yaml_value : Value → Text
    yaml_value (string s) = quote_text format.is_print s
    yaml_value (boolean true) = codes "true"
    yaml_value (boolean false) = codes "false"
    yaml_value (integer n) = int_text n
    yaml_value (duration d) = quote_text format.is_print (format.duration_text d)
    yaml_value (slice vs) = enclosed b'[' b']' (element_texts vs)
    yaml_value (map_of es) = enclosed b'{' b'}' (map_parts (entry_texts es))
    yaml_value (struct fs) = format.print_struct fs
    yaml_value (other t) = t

    pub element_texts : Elements → List Text
    element_texts nil = []
    element_texts (cons v vs) = yaml_value v ∷ element_texts vs

    pub entry_texts : Entries → Map Text
    entry_texts done = []
    entry_texts (entry k v es) = (k, yaml_value v) ∷ entry_texts es

  -- The line of any other field.
  abbrev pub setting : Tags → Value → Text
  setting t v = t.key ++ (codes ": " ++ yaml_value v)

  -- writeStruct: what it writes.
  unfoldable pub write_struct : Map Text → Fields → ℕ → Text → Text
  write_struct docs end indent prefix = []
  write_struct docs (field t (struct fs) rest) indent prefix =
      let deeper = if is_inlined t (struct fs) then indent else suc indent in
      let inner = write_struct docs fs deeper (inner_prefix prefix t (struct fs)) in
      (if is_inlined t (struct fs)
        then inner
        else if is_left_out t
        then []
        else comment indent (doc_of docs (path_of prefix t.key) t)
          ++ (line indent (heading t) ++ (inner ++ (if indent == 0 then codes "\n" else []))))
      ++ write_struct docs rest indent prefix
  write_struct docs (field t v rest) indent prefix =
      (if is_left_out t
        then []
        else comment indent (doc_of docs (path_of prefix t.key) t) ++ line indent (setting t v))
      ++ write_struct docs rest indent prefix

  -- ExampleYAML, of a struct.
  unfoldable pub example_yaml : Fields → List (Text × Text) → Text
  example_yaml fs opts = write_struct (with_docs opts []) fs 0 []
