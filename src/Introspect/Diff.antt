-- ===== src/Introspect/Diff.antt =====
-- introspect/diff.go: the lines that tell how two catalogs differ. The canonical JSON of each kind
-- of object is a parameter, encoding/json's Marshal.
pub mod Reports
pub mod Lookups
pub mod Complete
use pdbcore.Prelude.{
  Bool, not, ◌&&◌, List, [], ◌∷◌, ◌++◌, Option, none, some, Text, codes, text_eq, map,
  if◌then◌else◌,
}
use pdbcore.Prelude.Map.{Map, get, put, sorted_keys, index_by}
use pdbcore.Prelude.Words.{join}
use pdbcore.Introspect.Catalog.{
  RelKind, kind_text, Column, Constraint, ForeignKey, Index, Privileges, Table, Enum, Composite,
  Function, FuncArg, Catalog, table_key,
}

-- canonJSON at the types that it is called with.
pub record Json : Type 0 where
  pub column : Column → Text
  pub table : Table → Text
  pub enum : Enum → Text
  pub composite : Composite → Text
  pub function : Function → Text
  pub text : Text → Text
  pub kind : RelKind → Text
  pub bool : Bool → Text
  pub constraint : Option Constraint → Text
  pub constraints : List Constraint → Text
  pub foreign_keys : List ForeignKey → Text
  pub indexes : List Index → Text
  pub privileges : Privileges → Text

-- for _, k := range ks { out = append(out, f(k)...) }
unfoldable pub report : (Text → List Text) → List Text → List Text
report f [] = []
report f (k ∷ ks) = f k ++ report f ks

-- Words with a blank between them.
abbrev pub phrase : List Text → Text
phrase ws = join (codes " ") ws

unfoldable pub add_to_set : List Text → Map (Unit {0}) → Map (Unit {0})
add_to_set [] m = m
add_to_set (s ∷ rest) m = add_to_set rest (put s tt m)

-- The set of a list of strings.
unfoldable pub set_of : List Text → Map (Unit {0})
unfolding add_to_set
set_of ss = add_to_set ss []

module _ {V : Type 0} where
  unfoldable pub removed_line : (V → Text) → Map V → Map V → Text → List Text
  removed_line kind cached live name = elim (get name live) [
    | some x ↦ []
    | none ↦ elim (get name cached) [
      | none ↦ []
      | some c ↦ phrase (kind c ∷ name ∷ codes "removed" ∷ []) ∷ []
    ]
  ]

  -- The second loop: `both` tells what to say of a name on both sides.
  unfoldable pub added_line :
      (V → Text) → (Text → V → V → List Text) → Map V → Map V → Text → List Text
  added_line kind both cached live name = elim (get name live) [
    | none ↦ []
    | some l ↦ elim (get name cached) [
      | none ↦ phrase (kind l ∷ name ∷ codes "added" ∷ []) ∷ []
      | some c ↦ both name c l
    ]
  ]

  -- The two loops that diffStringSet, diffNamed and diffTables share.
  unfoldable pub diff_maps : (V → Text) → (Text → V → V → List Text) → Map V → Map V → List Text
  diff_maps kind both cached live =
      report (removed_line kind cached live) (sorted_keys cached)
      ++ report (added_line kind both cached live) (sorted_keys live)

unfoldable pub diff_string_set : Text → List Text → List Text → List Text
unfolding diff_maps set_of
diff_string_set kind cached live =
    diff_maps (λ u. kind) (λ name c l. []) (set_of cached) (set_of live)

unfoldable pub changed_line : {V : Type 0} → Text → (V → Text) → Text → V → V → List Text
changed_line kind canon name c l =
    if not (text_eq (canon c) (canon l))
    then phrase (kind ∷ name ∷ codes "changed" ∷ []) ∷ []
    else []

unfoldable pub diff_named : {V : Type 0} → Text → (V → Text) → Map V → Map V → List Text
unfolding diff_maps
diff_named kind canon cached live = diff_maps (λ x. kind) (changed_line kind canon) cached live

unfoldable pub type_desc : Column → Text
type_desc c =
    (c.pg_type ++ (if c.is_array then codes "[]" else []))
    ++ (if c.not_null then codes " not null" else [])

abbrev pub paren : Text → Text
paren s = codes "(" ++ (s ++ codes ")")

unfoldable pub aspect : Text → Text → Text → List Text
aspect label a b = if not (text_eq a b) then label ∷ [] else []

abbrev pub or_definition : List Text → List Text
or_definition [] = codes "definition" ∷ []
or_definition (p ∷ ps) = p ∷ ps

unfoldable pub column_removed : Table → Text → Map Column → Map Column → Text → List Text
column_removed cached name cc lc cn = elim (get cn lc) [
  | some x ↦ []
  | none ↦
      phrase
        (kind_text cached.kind ∷ (name ++ codes ":") ∷ codes "column" ∷ cn ∷ codes "removed" ∷ [])
      ∷ []
]

unfoldable pub column_map : List Column → Map Column
column_map cols = index_by (λ (c : Column). c.name) cols []

unfoldable pub table_map : List Table → Map Table
table_map ts = index_by (λ (t : Table). table_key t.schema t.name) ts []

unfoldable pub enum_map : List Enum → Map Enum
enum_map es = index_by (λ (e : Enum). table_key e.schema e.name) es []

unfoldable pub composite_map : List Composite → Map Composite
composite_map cs = index_by (λ (c : Composite). table_key c.schema c.name) cs []

-- schema.name(arg types)
unfoldable pub signature : Function → Text
signature f =
    table_key f.schema f.name ++ paren (join (codes ", ") (map (λ (a : FuncArg). a.pg_type) f.args))

unfoldable pub function_map : List Function → Map Function
function_map fs = index_by signature fs []

unfoldable pub version_line : Text → Text → List Text
version_line c l =
    if not (text_eq c l)
    then phrase (codes "server" ∷ codes "version" ∷ codes "changed:" ∷ c ∷ codes "->" ∷ l ∷ []) ∷ []
    else []

module _ (json : Json) where
  unfoldable pub table_aspect_changes : Table → Table → List Text
  unfolding aspect
  table_aspect_changes c l = or_definition (
      aspect (codes "kind") (json.kind c.kind) (json.kind l.kind)
      ++ aspect (codes "comment") (json.text c.comment) (json.text l.comment)
      ++ aspect (codes "rls") (json.bool c.rls_enabled) (json.bool l.rls_enabled)
      ++ aspect (codes "primary key") (json.constraint c.primary_key)
          (json.constraint l.primary_key)
      ++ aspect (codes "unique constraints") (json.constraints c.uniques)
          (json.constraints l.uniques)
      ++ aspect (codes "foreign keys") (json.foreign_keys c.foreign_keys)
          (json.foreign_keys l.foreign_keys)
      ++ aspect (codes "indexes") (json.indexes c.indexes) (json.indexes l.indexes)
      ++ aspect (codes "privileges") (json.privileges c.privileges) (json.privileges l.privileges))

  unfoldable pub column_changed : Table → Text → Text → Column → Column → List Text
  unfolding type_desc
  column_changed live name cn c l =
      let start = kind_text live.kind ∷ (name ++ codes ":") ∷ codes "column" ∷ cn ∷ [] in
      if not (text_eq (type_desc c) (type_desc l))
      then phrase (
          start
          ++ codes "type"
            ∷ codes "changed"
            ∷ paren (phrase (type_desc c ∷ codes "->" ∷ type_desc l ∷ []))
            ∷ [])
        ∷ []
      else if not (text_eq (json.column c) (json.column l))
      then phrase (start ++ codes "changed" ∷ []) ∷ []
      else []

  unfoldable pub column_added : Table → Text → Map Column → Map Column → Text → List Text
  column_added live name cc lc cn = elim (get cn lc) [
    | none ↦ []
    | some l ↦ elim (get cn cc) [
      | none ↦
          phrase (
            kind_text live.kind
            ∷ (name ++ codes ":")
            ∷ codes "column"
            ∷ cn
            ∷ codes "added"
            ∷ paren (type_desc l)
            ∷ [])
          ∷ []
      | some c ↦ column_changed live name cn c l
    ]
  ]

  unfoldable pub diff_columns : Text → Table → Table → List Text
  diff_columns name cached live =
      let cc = column_map cached.columns in
      let lc = column_map live.columns in
      report (column_removed cached name cc lc) (sorted_keys cc)
      ++ report (column_added live name cc lc) (sorted_keys lc)

  -- The coarse line, for a table whose columns agree.
  unfoldable pub or_coarse : Text → Table → Table → List Text → List Text
  or_coarse name cached live [] =
      if not (text_eq (json.table cached) (json.table live))
      then phrase (
          kind_text live.kind
          ∷ name
          ∷ codes "changed"
          ∷ paren (join (codes ", ") (table_aspect_changes cached live))
          ∷ [])
        ∷ []
      else []
  or_coarse name cached live (l ∷ ls) = l ∷ ls

  unfoldable pub diff_table : Text → Table → Table → List Text
  diff_table name cached live = or_coarse name cached live (diff_columns name cached live)

  unfoldable pub diff_tables : List Table → List Table → List Text
  diff_tables cached live =
      diff_maps (λ (t : Table). kind_text t.kind) diff_table (table_map cached) (table_map live)

  -- Diff
  unfoldable pub diff : Catalog → Catalog → List Text
  diff c l =
      version_line c.server_version l.server_version
      ++ (diff_string_set (codes "schema") c.schemas l.schemas
          ++ (diff_tables c.tables l.tables
              ++ (diff_named (codes "enum") json.enum (enum_map c.enums) (enum_map l.enums)
                  ++ (diff_named (codes "composite type") json.composite
                        (composite_map c.composites) (composite_map l.composites)
                      ++ diff_named (codes "function") json.function (function_map c.functions)
                          (function_map l.functions)))))
