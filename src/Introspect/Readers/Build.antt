-- ===== src/Introspect/Readers/Build.antt =====
-- introspect/introspect.go: the other readers, and Introspect.
use pdbcore.Prelude.{
  ℕ, Bool, false, List, [], ◌∷◌, ◌++◌, some, Text, codes, text_eq, length, snoc, ltb, ◌==◌,
  if◌then◌else◌,
}
use pdbcore.Introspect.Catalog.{
  Constraint, ForeignKey, Table, Composite, Volatility, immutable, stable, volatile, FuncArg,
  Function, Catalog, catalog_format_version, table_key,
}
use pdbcore.Introspect.EnumTables.{Answer, Result, failed, ok, convert_enum_tables}
use pdbcore.Introspect.Hash.{sort_stable}
use pdbcore.Introspect.Readers.{
  ColumnRow, ConstraintRow, IndexRow, EnumRow, FunctionRow, Rows, read_rows, update_table,
  add_table, column_of, add_column,
}

abbrev pub constraint_of : ConstraintRow → Constraint
constraint_of r = record { name = r.name; columns = r.cols; comment = r.comment }

abbrev pub foreign_key_of : ConstraintRow → ForeignKey
foreign_key_of r = record {
  name = r.name;
  columns = r.cols;
  ref_schema = r.ref_schema;
  ref_table = r.ref_table;
  ref_columns = r.ref_cols;
  comment = r.comment;
}

-- The switch on contype.
unfoldable pub constrain : ConstraintRow → Table → Table
constrain r t =
    if r.letter == b'p'
    then record t { primary_key = some (constraint_of r) }
    else if r.letter == b'u'
    then record t { uniques = snoc t.uniques (constraint_of r) }
    else if r.letter == b'f'
    then record t { foreign_keys = snoc t.foreign_keys (foreign_key_of r) }
    else t

-- readConstraints
unfoldable pub add_constraint : ConstraintRow → Catalog → Catalog
add_constraint r cat = record cat {
  tables = update_table r.schema r.table_name (constrain r) cat.tables;
}

-- readIndexes
unfoldable pub add_index : IndexRow → Catalog → Catalog
add_index r cat = record cat {
  tables =
      update_table r.schema r.table_name (λ t. record t { indexes = snoc t.indexes r.index })
        cat.tables;
}

-- readEnums
unfoldable pub add_enum : EnumRow → Catalog → Catalog
add_enum r cat = record cat {
  enums = snoc cat.enums (record {
    schema = r.schema;
    name = r.name;
    values = r.labels;
    comment = r.comment;
    value_descriptions = [];
    is_table_backed = false;
  });
}

-- byKey: the composite types were all made by this loop, so the key finds the first that has it.
unfoldable pub add_field : ColumnRow → List Composite → List Composite
add_field r [] = record { schema = r.schema; name = r.table_name; fields = column_of r ∷ [] } ∷ []
add_field r (c ∷ cs) =
    let rest = add_field r cs in
    let more : Composite = record c { fields = snoc c.fields (column_of r) } in
    if text_eq (table_key c.schema c.name) (table_key r.schema r.table_name)
    then more ∷ cs
    else c ∷ rest

-- readComposites
unfoldable pub add_composite : ColumnRow → Catalog → Catalog
add_composite r cat = record cat { composites = add_field r cat.composites }

unfoldable pub volatility_of : ℕ → Volatility
volatility_of letter =
    if letter == b'i' then immutable else if letter == b's' then stable else volatile

-- argNames[i] with argTypes[i] and argSchemas[i], where there are names enough.
unfoldable pub func_args : List Text → List (Text × Text) → List FuncArg
func_args names [] = []
func_args [] (t ∷ ts) = []
func_args (n ∷ names) ((pg_type, type_schema) ∷ ts) =
    record { name = n; pg_type = pg_type; type_schema = type_schema } ∷ func_args names ts

-- readFunctions
unfoldable pub add_function : FunctionRow → Catalog → Catalog
add_function r cat =
    let f : Function = record {
      schema = r.schema;
      name = r.name;
      args = func_args r.arg_names r.arg_types;
      return_type = r.return_type;
      return_type_schema = r.return_type_schema;
      returns_set = r.returns_set;
      volatility = volatility_of r.letter;
      comment = r.comment;
    } in
    if ltb (length r.arg_names) (length r.arg_types)
    then cat
    else record cat { functions = snoc cat.functions f }

infixl 5 ◌>>=◌
abbrev pub ◌>>=◌ : {A B : Type 0} → Result A → (A → Result B) → Result B
failed err >>= k = failed err
ok a >>= k = k a

abbrev pub versioned : Result Text → Result Text
versioned (failed err) = failed (codes "introspect: server version: " ++ err)
versioned (ok version) = ok version

abbrev pub default_schemas : List Text → List Text
default_schemas [] = codes "public" ∷ []
default_schemas (s ∷ ss) = s ∷ ss

abbrev pub empty_catalog : List Text → Text → Catalog
empty_catalog schemas version = record {
  format_version = catalog_format_version;
  server_version = version;
  schemas = default_schemas schemas;
  tables = [];
  enums = [];
  composites = [];
  functions = [];
}

-- The readers of Introspect, up to the conversion of the enum tables.
unfoldable pub read_catalog : Rows → List Text → Result Catalog
read_catalog db schemas = do
  version ← versioned db.server_version
  c1 ← read_rows add_table (codes "tables") db.tables (empty_catalog schemas version)
  c2 ← read_rows add_column (codes "columns") db.columns c1
  c3 ← read_rows add_constraint (codes "constraints") db.constraints c2
  c4 ← read_rows add_index (codes "indexes") db.indexes c3
  c5 ← read_rows add_enum (codes "enums") db.enums c4
  c6 ← read_rows add_composite (codes "composites") db.composites c5
  read_rows add_function (codes "functions") db.functions c6

-- Introspect
unfoldable pub introspect :
    ((A : Type 0) → (A → A → Bool) → List A → List A)
    → Rows
    → (Text → Answer)
    → List Text
    → Result Catalog
introspect sort_slice db enum_rows schemas = do
  cat ← read_catalog db schemas
  converted ← convert_enum_tables enum_rows cat
  ok (sort_stable sort_slice converted)
