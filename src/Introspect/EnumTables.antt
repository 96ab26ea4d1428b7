-- ===== src/Introspect/EnumTables.antt =====
-- introspect/enumtables.go: tables tagged @enum become enums of the catalog.
pub mod Closed
pub mod ValueColumn
pub mod Refs
use pdbcore.Prelude.{
  Bool, true, false, not, ◌||◌, List, [], ◌∷◌, ◌++◌, Option, none, some, Text, codes, text_eq,
  is_empty, elem, map, keep, snoc, if◌then◌else◌,
}
use pdbcore.Prelude.Map.{Map, get, put}
use pdbcore.Pgexec.Ident.{double}
use pdbcore.Smarttags.{parse, has_tag}
use pdbcore.Introspect.Catalog.{
  Column, Constraint, ForeignKey, Table, Enum, Catalog, column, table_key,
}

-- What a row of a result gives: the two strings that Scan takes, or its error.
pub data Row : Type 0 where
  scan_failed : Text → Row
  scanned : Text → Text → Row

-- What a query gives: its error, or rows and the error after them, if there is one.
pub data Answer : Type 0 where
  query_failed : Text → Answer
  rows : List Row → Option Text → Answer

-- A result or an error's text.
pub data Result (A : Type 0) : Type 0 where
  failed : Text → Result A
  ok : A → Result A

-- tags, _ := Parse(comment); tags.Has(name). A nil map has no keys.
unfoldable pub is_tagged : Text → Text → Bool
is_tagged comment name = elim (parse comment).0 [ none ↦ false | some tags ↦ has_tag tags name ]

unfoldable pub is_text_family : Text → Bool
unfolding elem
is_text_family pg_type =
    elem pg_type
      (codes "text" ∷ codes "varchar" ∷ codes "bpchar" ∷ codes "citext" ∷ codes "name" ∷ [])

unfoldable pub pick_column : Table → List Text → Text
pick_column t [] = []
pick_column t (n ∷ m ∷ ns) = []
pick_column t (n ∷ []) = elim (column t n) [
  | none ↦ []
  | some c ↦ if c.is_array || not (is_text_family c.pg_type) then [] else c.name
]

abbrev pub pick : Table → Option Constraint → Text
pick t none = []
pick t (some con) = pick_column t con.columns

-- The loop over the unique constraints; "" if none of them gives a column.
unfoldable pub tagged_unique : Table → List Constraint → Text
tagged_unique t [] = []
tagged_unique t (u ∷ us) =
    let rest = tagged_unique t us in
    let vc = pick_column t u.columns in
    if is_tagged u.comment (codes "enum") then (if is_empty vc then rest else vc) else rest

unfoldable pub enum_value_column : Table → Text
enum_value_column t =
    let vc = tagged_unique t t.uniques in if is_empty vc then pick t t.primary_key else vc

-- The loop over the columns; none if no other column than the value column is tagged.
unfoldable pub tagged_description : Text → List Column → Option Text
tagged_description value_col [] = none
tagged_description value_col (c ∷ cs) =
    let rest = tagged_description value_col cs in
    if is_tagged c.comment (codes "enumDescription")
    then (if not (text_eq c.name value_col) then some c.name else rest)
    else rest

unfoldable pub enum_description_column : Table → Text → Text
enum_description_column t value_col = elim (tagged_description value_col t.columns) [
  | some name ↦ name
  | none ↦ elim (column t (codes "description")) [
    | none ↦ []
    | some c ↦ if not (text_eq c.name value_col) then c.name else []
  ]
]

-- quoteIdent of this package
unfoldable pub sql_ident : Text → Text
sql_ident s = b'"' ∷ (double b'"' s ++ b'"' ∷ [])

unfoldable pub enum_query : Table → Text → Text
enum_query t value_col =
    let dc = enum_description_column t value_col in
    let desc_expr =
      if not (is_empty dc)
      then codes "COALESCE(" ++ (sql_ident dc ++ codes "::text, '')")
      else codes "''" in
    codes "SELECT "
    ++ (sql_ident value_col
        ++ (codes "::text, "
            ++ (desc_expr
                ++ (codes " FROM "
                    ++ (sql_ident t.schema
                        ++ (b'.' ∷ (sql_ident t.name ++ codes " ORDER BY 1")))))))

-- The loop over the rows.
unfoldable pub scan_rows : List Row → Enum → Result Enum
scan_rows [] e = ok e
scan_rows (scan_failed err ∷ rs) e = failed err
scan_rows (scanned v d ∷ rs) e =
    scan_rows rs
      (record e { values = snoc e.values v; value_descriptions = snoc e.value_descriptions d })

abbrev pub unless_empty : Enum → Option Enum
unless_empty e = elim e.values [ [] ↦ none | v ∷ vs ↦ some e ]

unfoldable pub table_enum : Table → Enum
table_enum t = record {
  schema = t.schema;
  name = t.name;
  values = [];
  comment = t.comment;
  value_descriptions = [];
  is_table_backed = true;
}

abbrev pub after_rows : Option Text → Result Enum → Result (Option Enum)
after_rows last (failed err) = failed err
after_rows (some err) (ok e) = failed err
after_rows none (ok e) = ok (unless_empty e)

-- readEnumTable from the query's answer on
unfoldable pub read_answer : Table → Answer → Result (Option Enum)
read_answer t (query_failed err) =
    failed (codes "introspect: @enum table " ++ (table_key t.schema t.name ++ (codes ": " ++ err)))
read_answer t (rows rs last) = after_rows last (scan_rows rs (table_enum t))

-- The value columns by table, and the enums in the order of the tables.
abbrev pub Converted : Type 0
Converted = Map Text × List Enum

abbrev pub record_enum : Table → Text → Converted → Result (Option Enum) → Result Converted
record_enum t vc acc (failed err) = failed err
record_enum t vc acc (ok none) = ok acc
record_enum t vc acc (ok (some e)) = ok (put (table_key t.schema t.name) vc acc.0, snoc acc.1 e)

module _ (db : Text → Answer) where
  unfoldable pub read_enum_table : Table → Text → Result (Option Enum)
  read_enum_table t value_col = read_answer t (db (enum_query t value_col))

  -- One round of the first loop.
  unfoldable pub collect_table : Table → Converted → Result Converted
  collect_table t acc =
      let vc = enum_value_column t in
      if not (is_tagged t.comment (codes "enum"))
      then ok acc
      else if is_empty vc
      then ok acc
      else record_enum t vc acc (read_enum_table t vc)

  unfoldable pub collect : List Table → Converted → Result Converted
  collect [] acc = ok acc
  collect (t ∷ ts) acc = elim (collect_table t acc) [
    | failed err ↦ failed err
    | ok acc' ↦ collect ts acc'
  ]

unfoldable pub is_key : Map Text → Text → Bool
is_key m k = elim (get k m) [ none ↦ false | some v ↦ true ]

-- if c := t.Column(name); c != nil { c.EnumRef = ref }
unfoldable pub set_enum_ref : Text → Text → List Column → List Column
set_enum_ref name ref [] = []
set_enum_ref name ref (c ∷ cs) =
    let rest = set_enum_ref name ref cs in
    if text_eq c.name name then record c { enum_ref = ref } ∷ cs else c ∷ rest

unfoldable pub rebind_columns : List Text → List Text → Text → Text → List Column → List Column
rebind_columns (c ∷ []) (r ∷ []) vc ref cols =
    if text_eq r vc then set_enum_ref c ref cols else cols
rebind_columns _ _ vc ref cols = cols

unfoldable pub rebind_key : Map Text → ForeignKey → List Column → List Column
rebind_key value_cols fk cols =
    let ref = table_key fk.ref_schema fk.ref_table in
    elim (get ref value_cols) [
      | none ↦ cols
      | some vc ↦ rebind_columns fk.columns fk.ref_columns vc ref cols
    ]

unfoldable pub rebind_keys : Map Text → List ForeignKey → List Column → List Column
rebind_keys value_cols [] cols = cols
rebind_keys value_cols (fk ∷ fks) cols = rebind_keys value_cols fks (rebind_key value_cols fk cols)

-- One round of the last loop.
unfoldable pub rebind_table : Map Text → Table → Table
rebind_table value_cols t = record t {
  columns = rebind_keys value_cols t.foreign_keys t.columns;
  foreign_keys =
      keep (λ (fk : ForeignKey). not (is_key value_cols (table_key fk.ref_schema fk.ref_table)))
        t.foreign_keys;
}

unfoldable pub rebuild : Catalog → Converted → Catalog
rebuild cat (value_cols, []) = cat
rebuild cat (value_cols, e ∷ es) = record cat {
  enums = cat.enums ++ e ∷ es;
  tables =
      map (rebind_table value_cols)
        (keep (λ (t : Table). not (is_key value_cols (table_key t.schema t.name))) cat.tables);
}

unfoldable pub convert_enum_tables : (Text → Answer) → Catalog → Result Catalog
convert_enum_tables db cat = elim (collect db cat.tables ([], [])) [
  | failed err ↦ failed err
  | ok acc ↦ ok (rebuild cat acc)
]
