-- ===== src/Introspect/Readers.antt =====
-- introspect/introspect.go: what is made of the rows of the catalog queries. The queries are the
-- database's part: each gives its rows, or an error, at the types that Scan fills.
pub mod Build
pub mod Readable
pub mod Whole
use pdbcore.Prelude.{
  ℕ, Bool, ◌&&◌, List, [], ◌∷◌, ◌++◌, Option, none, some, Text, codes, text_eq, snoc, ◌==◌,
  if◌then◌else◌,
}
use pdbcore.Introspect.Catalog.{
  RelKind, rel_table, rel_view, rel_materialized_view, Column, Index, Privileges, Table, Catalog,
}
use pdbcore.Introspect.EnumTables.{Result, failed, ok}

-- The rows of a query, each with the error of Scan, and the error behind them.
pub data Fetched (A : Type 0) : Type 0 where
  refused : Text → Fetched A
  fetched : List (Result A) → Option Text → Fetched A

-- pg_class.relkind, as far as the query lets it through.
pub data RelLetter : Type 0 where
  letter_r letter_p letter_v letter_m : RelLetter

abbrev pub kind_of_letter : RelLetter → RelKind
kind_of_letter letter_r = rel_table
kind_of_letter letter_p = rel_table
kind_of_letter letter_v = rel_view
kind_of_letter letter_m = rel_materialized_view

pub record TableRow : Type 0 where
  pub schema : Text
  pub name : Text
  pub letter : RelLetter
  pub rls_enabled : Bool
  pub comment : Text
  pub privileges : Privileges

-- What Scan fills of a Column; the other fields of a composite type's row are zero.
pub record ColumnRow : Type 0 where
  pub schema : Text
  pub table_name : Text
  pub name : Text
  pub position : ℕ
  pub type_schema : Text
  pub pg_type : Text
  pub is_array : Bool
  pub not_null : Bool
  pub has_default : Bool
  pub is_generated : Bool
  pub comment : Text

pub record ConstraintRow : Type 0 where
  pub schema : Text
  pub table_name : Text
  pub name : Text
  pub letter : ℕ
  pub cols : List Text
  pub ref_schema : Text
  pub ref_table : Text
  pub ref_cols : List Text
  pub comment : Text

pub record IndexRow : Type 0 where
  pub schema : Text
  pub table_name : Text
  pub index : Index

pub record EnumRow : Type 0 where
  pub schema : Text
  pub name : Text
  pub labels : List Text
  pub comment : Text

-- The types of the arguments come with their schemas: two arrays over one column.
pub record FunctionRow : Type 0 where
  pub schema : Text
  pub name : Text
  pub letter : ℕ
  pub returns_set : Bool
  pub return_type : Text
  pub return_type_schema : Text
  pub arg_names : List Text
  pub arg_types : List (Text × Text)
  pub comment : Text

-- The rows of one query after another, as Introspect asks for them.
pub record Rows : Type 0 where
  pub server_version : Result Text
  pub tables : Fetched TableRow
  pub columns : Fetched ColumnRow
  pub constraints : Fetched ConstraintRow
  pub indexes : Fetched IndexRow
  pub enums : Fetched EnumRow
  pub composites : Fetched ColumnRow
  pub functions : Fetched FunctionRow

module _ {A : Type 0} (add : A → Catalog → Catalog) where
  -- for rows.Next() { … }
  unfoldable pub each_row : List (Result A) → Catalog → Result Catalog
  each_row [] cat = ok cat
  each_row (failed err ∷ rs) cat = failed err
  each_row (ok a ∷ rs) cat = each_row rs (add a cat)

  -- return rows.Err()
  abbrev pub rows_err : Option Text → Result Catalog → Result Catalog
  rows_err last (failed err) = failed err
  rows_err none (ok cat) = ok cat
  rows_err (some err) (ok cat) = failed err

  unfoldable pub read_rows : Text → Fetched A → Catalog → Result Catalog
  read_rows what (refused err) cat = failed (codes "introspect: " ++ (what ++ (codes ": " ++ err)))
  read_rows what (fetched rs last) cat = rows_err last (each_row rs cat)

-- Through the pointer that Catalog.Table gives: the first table of the name, if there is one.
unfoldable pub update_table : Text → Text → (Table → Table) → List Table → List Table
update_table schema name f [] = []
update_table schema name f (t ∷ ts) =
    let rest = update_table schema name f ts in
    if text_eq t.schema schema && text_eq t.name name then f t ∷ ts else t ∷ rest

-- The body of the loop of readTables.
unfoldable pub add_table : TableRow → Catalog → Catalog
add_table r cat =
    let t : Table = record {
      schema = r.schema;
      name = r.name;
      kind = kind_of_letter r.letter;
      comment = r.comment;
      rls_enabled = r.rls_enabled;
      columns = [];
      primary_key = none;
      uniques = [];
      foreign_keys = [];
      indexes = [];
      privileges = r.privileges;
    } in
    if r.privileges.may_select then record cat { tables = snoc cat.tables t } else cat

abbrev pub column_of : ColumnRow → Column
column_of r = record {
  name = r.name;
  position = r.position;
  pg_type = r.pg_type;
  type_schema = r.type_schema;
  is_array = r.is_array;
  not_null = r.not_null;
  has_default = r.has_default;
  is_generated = r.is_generated;
  comment = r.comment;
  enum_ref = [];
}

-- readColumns
unfoldable pub add_column : ColumnRow → Catalog → Catalog
add_column r cat = record cat {
  tables =
      update_table r.schema r.table_name (λ t. record t { columns = snoc t.columns (column_of r) })
        cat.tables;
}
