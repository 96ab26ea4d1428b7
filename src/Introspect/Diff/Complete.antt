-- ===== src/Introspect/Diff/Complete.antt =====
-- A difference without lines means the same catalog, object by object, and the other way round.
use pdbcore.Prelude.{
  ◌≡◌, refl, sym, subst, ◌↔◌, List, [], ◌∷◌, ◌++◌, Option, none, some, Text, codes, text_eq_iff,
  text_eq_refl, elem, arith,
}
use pdbcore.Prelude.Map.{Map, get, index_by, sorted_keys, sorted_keys-All_of}
use pdbcore.Introspect.Catalog.{Column, Table, Enum, Composite, Catalog, table_key}
use pdbcore.Introspect.Diff.{
  Json, report, set_of, diff_string_set, changed_line, diff_named, column_removed, column_changed,
  column_added, column_map, diff_columns, or_coarse, diff_table, table_map, diff_tables, enum_map,
  composite_map, function_map, signature, version_line, diff,
}
use pdbcore.Introspect.Diff.Lookups.{
  Agree-moved, last_named, named_by_types, get-index_by, sets_iff,
}
use pdbcore.Introspect.Diff.Reports.{
  append-nil_inv, append-nil_of, report-nil, Agree, diff_maps-nil_inv, diff_maps-nil,
}

changed_line_iff :
    {V : Type 0} (kind : Text) (canon : V → Text) (name : Text) (c l : V)
    → (changed_line kind canon name c l ≡ []) ↔ (canon c ≡ canon l)
unfolding changed_line
changed_line_iff kind canon name c l = (
  ground (arith, text_eq_iff (canon c) (canon l)),
  ground (arith, text_eq_iff (canon c) (canon l)),
)

Agree-map :
    {V : Type 0} (R S : V → V → Type 0) (a b : Option V)
    → ((x y : V) → R x y → S x y)
    → Agree R a b
    → Agree S a b
Agree-map R S none none f h = tt
Agree-map R S (some x) (some y) f h = f x y h
Agree-map R S none (some y) f h = h
Agree-map R S (some x) none f h = h

module _ (json : Json) where
  -- The same encoding under every name.
  abbrev pub SameObjects : {V : Type 0} → (V → Text) → Map V → Map V → Type 0
  SameObjects canon c l = (k : Text) → Agree (λ x y. canon x ≡ canon y) (get k c) (get k l)

  -- The same under every key of the maps that Diff builds.
  record SameMaps (c l : Catalog) : Type 0 where
    version : c.server_version ≡ l.server_version
    schemas : (s : Text) → Agree (λ x y. Unit) (get s (set_of c.schemas)) (get s (set_of l.schemas))
    tables : SameObjects json.table (table_map c.tables) (table_map l.tables)
    enums : SameObjects json.enum (enum_map c.enums) (enum_map l.enums)
    composites :
        SameObjects json.composite (composite_map c.composites) (composite_map l.composites)
    functions : SameObjects json.function (function_map c.functions) (function_map l.functions)

  diff_named_iff :
      {V : Type 0} (kind : Text) (canon : V → Text) (c l : Map V)
      → (diff_named kind canon c l ≡ []) ↔ SameObjects canon c l
  unfolding diff_named
  diff_named_iff kind canon c l = (
    λ h k.
        Agree-map _ _ (get k c) (get k l) (λ x y. (changed_line_iff kind canon k x y).0)
          (diff_maps-nil_inv (λ x. kind) (changed_line kind canon) c l h k),
    λ h.
        diff_maps-nil (λ x. kind) (changed_line kind canon) c l
          (λ k.
            Agree-map _ _ (get k c) (get k l) (λ x y. (changed_line_iff kind canon k x y).1) (h k)),
  )

  diff_string_set_iff :
      (kind : Text) (c l : List Text)
      → (diff_string_set kind c l ≡ [])
        ↔ ((s : Text) → Agree (λ x y. Unit) (get s (set_of c)) (get s (set_of l)))
  unfolding diff_string_set
  diff_string_set_iff kind c l = (
    λ h s.
        Agree-map _ _ (get s (set_of c)) (get s (set_of l)) (λ x y e. tt)
          (diff_maps-nil_inv _ _ (set_of c) (set_of l) h s),
    λ h.
        diff_maps-nil _ _ (set_of c) (set_of l)
          (λ s. Agree-map _ _ (get s (set_of c)) (get s (set_of l)) (λ x y e. refl) (h s)),
  )

  column_changed_self :
      (t : Table) (name cn : Text) (c : Column) → column_changed json t name cn c c ≡ []
  unfolding column_changed
  column_changed_self t name cn c = simp text_eq_refl

  removed_self :
      (name : Text) (t : Table) (k : Text) (x : Column)
      → get k (column_map t.columns) ≡ some x
      → column_removed t name (column_map t.columns) (column_map t.columns) k ≡ []
  unfolding column_removed
  removed_self name t k x e = rw (e, column_removed)

  added_self :
      (name : Text) (t : Table) (k : Text) (x : Column)
      → get k (column_map t.columns) ≡ some x
      → column_added json t name (column_map t.columns) (column_map t.columns) k ≡ []
  unfolding column_added
  added_self name t k x e =
      rw (e, column_added) (rw (e, column_added) (column_changed_self t name k x))

  diff_columns_self : (name : Text) (t : Table) → diff_columns json name t t ≡ []
  unfolding diff_columns
  diff_columns_self name t =
      let cc = column_map t.columns in
      append-nil_of (report (column_removed t name cc cc) (sorted_keys cc)) _
        (report-nil (column_removed t name cc cc) (sorted_keys cc)
          (sorted_keys-All_of (λ k. column_removed t name cc cc k ≡ []) cc (removed_self name t)))
        (report-nil (column_added json t name cc cc) (sorted_keys cc)
          (sorted_keys-All_of (λ k. column_added json t name cc cc k ≡ []) cc (added_self name t)))

  -- encoding/json tells different tables apart.
  abbrev pub TablesInjective : Type 0
  TablesInjective = (t u : Table) → json.table t ≡ json.table u → t ≡ u

  or_coarse-nil :
      (name : Text) (c l : Table) (lines : List Text)
      → or_coarse json name c l lines ≡ []
      → json.table c ≡ json.table l
  unfolding or_coarse
  or_coarse-nil name c l [] h = ground (arith, text_eq_iff (json.table c) (json.table l))
  or_coarse-nil name c l (x ∷ xs) h = absurd (cc)

  same_table : (name : Text) (t : Table) → or_coarse json name t t (diff_columns json name t t) ≡ []
  unfolding or_coarse
  same_table name t = rw (diff_columns_self name t) (simp text_eq_refl)

  diff_table_iff :
      TablesInjective
      → (name : Text) (c l : Table)
      → (diff_table json name c l ≡ []) ↔ (json.table c ≡ json.table l)
  unfolding diff_table
  diff_table_iff inj name c l = (
    or_coarse-nil name c l _,
    λ e.
        subst (λ (t : Table). or_coarse json name c t (diff_columns json name c t) ≡ []) (inj c l e)
          (same_table name c),
  )

  diff_tables_iff :
      TablesInjective
      → (c l : List Table)
      → (diff_tables json c l ≡ []) ↔ SameObjects json.table (table_map c) (table_map l)
  unfolding diff_tables
  diff_tables_iff inj c l = (
    λ h k.
        Agree-map _ _ (get k (table_map c)) (get k (table_map l))
          (λ x y. (diff_table_iff inj k x y).0)
          (diff_maps-nil_inv _ (diff_table json) (table_map c) (table_map l) h k),
    λ h. diff_maps-nil _ (diff_table json) (table_map c) (table_map l) (λ k.
        Agree-map _ _ (get k (table_map c)) (get k (table_map l))
          (λ x y. (diff_table_iff inj k x y).1) (h k)),
  )

  version_line_iff : (c l : Text) → (version_line c l ≡ []) ↔ (c ≡ l)
  unfolding version_line
  version_line_iff c l = (ground (arith, text_eq_iff c l), ground (arith, text_eq_iff c l))

  diff_maps_iff : TablesInjective → (c l : Catalog) → (diff json c l ≡ []) ↔ SameMaps c l
  unfolding diff
  diff_maps_iff inj c l = (reported, silent)
    where
      reported : diff json c l ≡ [] → SameMaps c l
      reported h =
          let (h1, r1) = append-nil_inv (version_line c.server_version l.server_version) _ h in
          let (h2, r2) =
            append-nil_inv (diff_string_set (codes "schema") c.schemas l.schemas) _ r1 in
          let (h3, r3) = append-nil_inv (diff_tables json c.tables l.tables) _ r2 in
          let (h4, r4) =
            append-nil_inv
              (diff_named (codes "enum") json.enum (enum_map c.enums) (enum_map l.enums)) _ r3 in
          let (h5, h6) =
            append-nil_inv
              (diff_named (codes "composite type") json.composite (composite_map c.composites)
                (composite_map l.composites))
              _ r4 in
          record {
            version = (version_line_iff _ _).0 h1;
            schemas = (diff_string_set_iff _ _ _).0 h2;
            tables = (diff_tables_iff inj _ _).0 h3;
            enums = (diff_named_iff _ _ _ _).0 h4;
            composites = (diff_named_iff _ _ _ _).0 h5;
            functions = (diff_named_iff _ _ _ _).0 h6;
          }

      silent : SameMaps c l → diff json c l ≡ []
      silent s = append-nil_of _ _ ((version_line_iff _ _).1 s.version) (
          append-nil_of _ _ ((diff_string_set_iff _ _ _).1 s.schemas) (
            append-nil_of _ _ ((diff_tables_iff inj _ _).1 s.tables) (
              append-nil_of _ _ ((diff_named_iff _ _ _ _).1 s.enums) (
                append-nil_of _ _ ((diff_named_iff _ _ _ _).1 s.composites)
                  ((diff_named_iff _ _ _ _).1 s.functions)))))

  -- The same encoding of the last object of each name, or no object of that name on either side.
  abbrev pub SameLast : {V : Type 0} → (V → Text) → (V → Text) → List V → List V → Type 0
  SameLast canon name c l =
      (k : Text) → Agree (λ x y. canon x ≡ canon y) (last_named name c k) (last_named name l k)

  -- Two catalogs of one server version with the same schemas, the same tables, enums and composite
  -- types under every name with its schema, and the same functions under every name with its schema
  -- and the names of the types of its arguments.
  pub record SameCatalog (c l : Catalog) : Type 0 where
    pub version : c.server_version ≡ l.server_version
    pub schemas : (s : Text) → elem s c.schemas ≡ elem s l.schemas
    pub tables : SameLast json.table (λ (t : Table). t.schema ++ b'.' ∷ t.name) c.tables l.tables
    pub enums : SameLast json.enum (λ (e : Enum). e.schema ++ b'.' ∷ e.name) c.enums l.enums
    pub composites :
        SameLast json.composite
          (λ (t : Composite). t.schema ++ b'.' ∷ t.name)
          c.composites
          l.composites
    pub functions : SameLast json.function named_by_types c.functions l.functions

  module _ {V : Type 0} where
    last_iff :
        (canon name : V → Text) (c l : List V)
        → SameObjects canon (index_by name c []) (index_by name l []) ↔ SameLast canon name c l
    last_iff canon name c l = (
      λ h k. Agree-moved _ (get-index_by name c k) (get-index_by name l k) (h k),
      λ h k. Agree-moved _ (sym (get-index_by name c k)) (sym (get-index_by name l k)) (h k),
    )

  -- Where the encoding tells tables apart, Diff returns no line exactly if the server versions and
  -- the sets of schemas are the same, and under every name the last object of that name on one
  -- side has the encoding of the last on the other, or there is none on either: of a table, an enum
  -- and a composite type the name is the schema, a dot and the name; of a function it has behind it
  -- the names of its arguments' types, without their schemas. An object that stands in front of
  -- another one of its name is not compared.
  pub diff_iff : TablesInjective → (c l : Catalog) → (diff json c l ≡ []) ↔ SameCatalog c l
  unfolding table_map enum_map composite_map function_map signature table_key
  diff_iff inj c l =
      (λ h. same ((diff_maps_iff inj c l).0 h), λ h. (diff_maps_iff inj c l).1 (maps h))
    where
      same : SameMaps c l → SameCatalog c l
      same s = record {
        version = s.version;
        schemas = (sets_iff c.schemas l.schemas).0 s.schemas;
        tables = (last_iff _ _ _ _).0 s.tables;
        enums = (last_iff _ _ _ _).0 s.enums;
        composites = (last_iff _ _ _ _).0 s.composites;
        functions = (last_iff _ _ _ _).0 s.functions;
      }

      maps : SameCatalog c l → SameMaps c l
      maps s = record {
        version = s.version;
        schemas = (sets_iff c.schemas l.schemas).1 s.schemas;
        tables = (last_iff _ _ _ _).1 s.tables;
        enums = (last_iff _ _ _ _).1 s.enums;
        composites = (last_iff _ _ _ _).1 s.composites;
        functions = (last_iff _ _ _ _).1 s.functions;
      }
