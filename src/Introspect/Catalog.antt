-- ===== src/Introspect/Catalog.antt =====
-- introspect/catalog.go: the catalog and its lookups. Objects are values: no two slots of a
-- catalog share one.
use pdbcore.Prelude.{
  ℕ, Bool, true, false, ◌&&◌, List, [], ◌∷◌, ◌++◌, Option, none, some, Text, codes, text_eq,
  is_empty, find, if◌then◌else◌,
}

abbrev pub catalog_format_version : ℕ
catalog_format_version = 3

pub data RelKind : Type 0 where
  rel_table rel_view rel_materialized_view : RelKind

-- The string behind a RelKind.
unfoldable pub kind_text : RelKind → Text
kind_text rel_table = codes "table"
kind_text rel_view = codes "view"
kind_text rel_materialized_view = codes "matview"

pub record Column : Type 0 where
  pub name : Text
  pub position : ℕ
  pub pg_type : Text
  pub type_schema : Text
  pub is_array : Bool
  pub not_null : Bool
  pub has_default : Bool
  pub is_generated : Bool
  pub comment : Text
  pub enum_ref : Text

pub record Constraint : Type 0 where
  pub name : Text
  pub columns : List Text
  pub comment : Text

pub record ForeignKey : Type 0 where
  pub name : Text
  pub columns : List Text
  pub ref_schema : Text
  pub ref_table : Text
  pub ref_columns : List Text
  pub comment : Text

pub record Index : Type 0 where
  pub name : Text
  pub columns : List Text
  pub is_unique : Bool
  pub method : Text

pub record Privileges : Type 0 where
  pub may_select : Bool
  pub may_insert : Bool
  pub may_update : Bool
  pub may_delete : Bool

pub record Table : Type 0 where
  pub schema : Text
  pub name : Text
  pub kind : RelKind
  pub comment : Text
  pub rls_enabled : Bool
  pub columns : List Column
  pub primary_key : Option Constraint
  pub uniques : List Constraint
  pub foreign_keys : List ForeignKey
  pub indexes : List Index
  pub privileges : Privileges

pub record Enum : Type 0 where
  pub schema : Text
  pub name : Text
  pub values : List Text
  pub comment : Text
  pub value_descriptions : List Text
  pub is_table_backed : Bool

pub record Composite : Type 0 where
  pub schema : Text
  pub name : Text
  pub fields : List Column

pub data Volatility : Type 0 where
  immutable stable volatile : Volatility

pub record FuncArg : Type 0 where
  pub name : Text
  pub pg_type : Text
  pub type_schema : Text

pub record Function : Type 0 where
  pub schema : Text
  pub name : Text
  pub args : List FuncArg
  pub return_type : Text
  pub return_type_schema : Text
  pub returns_set : Bool
  pub volatility : Volatility
  pub comment : Text

pub record Catalog : Type 0 where
  pub format_version : ℕ
  pub server_version : Text
  pub schemas : List Text
  pub tables : List Table
  pub enums : List Enum
  pub composites : List Composite
  pub functions : List Function

abbrev pub is_base : RelKind → Bool
is_base rel_table = true
is_base _ = false

-- Table.Insertable, Updatable, Deletable
unfoldable pub insertable : Table → Bool
insertable t = is_base t.kind && t.privileges.may_insert

unfoldable pub updatable : Table → Bool
updatable t = is_base t.kind && t.privileges.may_update

unfoldable pub deletable : Table → Bool
deletable t = is_base t.kind && t.privileges.may_delete

-- Table.Column
unfoldable pub column : Table → Text → Option Column
unfolding find
column t name = find (λ c. text_eq c.name name) t.columns

-- The leading column of a list of columns, as a list.
abbrev pub leading : List Text → List Text
leading [] = []
leading (c ∷ cs) = c ∷ []

unfoldable pub leading_columns : {A : Type 0} → (A → List Text) → List A → List Text
leading_columns cols [] = []
leading_columns cols (x ∷ xs) = leading (cols x) ++ leading_columns cols xs

abbrev pub key_columns : Option Constraint → List Text
key_columns none = []
key_columns (some k) = leading k.columns

-- Table.IndexedColumns: the set as the list of its elements.
unfoldable pub indexed_columns : Table → List Text
unfolding leading_columns
indexed_columns t =
    leading_columns (λ (ix : Index). ix.columns) t.indexes
    ++ (key_columns t.primary_key ++ leading_columns (λ (u : Constraint). u.columns) t.uniques)

-- Catalog.Table
unfoldable pub table : Catalog → Text → Text → Option Table
unfolding find
table c schema name = find (λ t. text_eq t.schema schema && text_eq t.name name) c.tables

-- Catalog.Enum
unfoldable pub enum : Catalog → Text → Text → Option Enum
unfolding find
enum c schema name = find (λ e. text_eq e.schema schema && text_eq e.name name) c.enums

-- schema + "." + name
unfoldable pub table_key : Text → Text → Text
table_key schema name = schema ++ (b'.' ∷ name)

-- Catalog.EnumByRef
unfoldable pub enum_by_ref : Catalog → Text → Option Enum
unfolding find
enum_by_ref c ref =
    if is_empty ref
    then none
    else find (λ e. e.is_table_backed && text_eq (table_key e.schema e.name) ref) c.enums

-- Catalog.Composite
unfoldable pub composite : Catalog → Text → Text → Option Composite
unfolding find
composite c schema name = find (λ t. text_eq t.schema schema && text_eq t.name name) c.composites
