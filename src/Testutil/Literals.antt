-- ===== src/Testutil/Literals.antt =====
-- testutil/catalog.go: its literals, with the zero value of what they leave out.
use pdbcore.Prelude.{ℕ, Bool, true, false, List, [], Text}
use pdbcore.Introspect.Catalog.{
  Column, Constraint, ForeignKey, Index, Privileges, Volatility, FuncArg, Function,
}

abbrev pub plain_column : Text → ℕ → Text → Text → Column
plain_column name position pg_type type_schema = record {
  name = name;
  position = position;
  pg_type = pg_type;
  type_schema = type_schema;
  is_array = false;
  not_null = false;
  has_default = false;
  is_generated = false;
  comment = [];
  enum_ref = [];
}

abbrev pub constraint : Text → List Text → Constraint
constraint name columns = record { name = name; columns = columns; comment = [] }

abbrev pub index : Text → List Text → Bool → Text → Index
index name columns is_unique method = record {
  name = name;
  columns = columns;
  is_unique = is_unique;
  method = method;
}

abbrev pub array : Column → Column
array c = record c { is_array = true }

abbrev pub required : Column → Column
required c = record c { not_null = true }

abbrev pub defaulted : Column → Column
defaulted c = record c { has_default = true }

abbrev pub generated : Column → Column
generated c = record c { is_generated = true }

abbrev pub foreign_key : Text → List Text → Text → Text → List Text → Text → ForeignKey
foreign_key name columns ref_schema ref_table ref_columns comment = record {
  name = name;
  columns = columns;
  ref_schema = ref_schema;
  ref_table = ref_table;
  ref_columns = ref_columns;
  comment = comment;
}

abbrev pub all_privileges : Privileges
all_privileges = record {
  may_select = true;
  may_insert = true;
  may_update = true;
  may_delete = true;
}

abbrev pub argument : Text → Text → Text → FuncArg
argument name pg_type type_schema = record {
  name = name;
  pg_type = pg_type;
  type_schema = type_schema;
}

abbrev pub function : Text → Text → List FuncArg → Text → Text → Bool → Volatility → Function
function schema name args return_type return_type_schema returns_set volatility = record {
  schema = schema;
  name = name;
  args = args;
  return_type = return_type;
  return_type_schema = return_type_schema;
  returns_set = returns_set;
  volatility = volatility;
  comment = [];
}
