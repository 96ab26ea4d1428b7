-- ===== src/Introspect/Hash.antt =====
-- introspect/catalog.go: Hash and sortStable. sort.Slice, json.Marshal of a catalog (none is its
-- error) and the hexadecimal SHA-256 of a text are parameters.
use pdbcore.Prelude.{◌≡◌, refl, Bool, List, Option, none, some, Text}
use mathlib.Core.List.{Perm}
use mathlib.Core.List.Perm
use pdbcore.Prelude.Map.{sort_strings}
use pdbcore.Prelude.Sorting.{by_key, IsKeyed, IsSort, sort_slice-perm}
use pdbcore.Prelude.Insertion.{sort_strings-perm, sort_strings-rearranges}
use pdbcore.Introspect.Catalog.{Table, Enum, Composite, Function, Catalog}

-- What the comparisons of sortStable look at.
abbrev pub key_of_table : Table → Text × Text
key_of_table t = (t.schema, t.name)

abbrev pub key_of_enum : Enum → Text × Text
key_of_enum e = (e.schema, e.name)

abbrev pub key_of_composite : Composite → Text × Text
key_of_composite t = (t.schema, t.name)

abbrev pub key_of_function : Function → Text × Text
key_of_function f = (f.schema, f.name)

module _ (sort_slice : (A : Type 0) → (A → A → Bool) → List A → List A) where
  -- Catalog.sortStable: the catalog as it is left.
  unfoldable pub sort_stable : Catalog → Catalog
  sort_stable c = record c {
    schemas = sort_strings c.schemas;
    tables = sort_slice Table (by_key key_of_table) c.tables;
    enums = sort_slice Enum (by_key key_of_enum) c.enums;
    composites = sort_slice Composite (by_key key_of_composite) c.composites;
    functions = sort_slice Function (by_key key_of_function) c.functions;
  }

  module _ (marshal : Catalog → Option Text) (digest : Text → Text) where
    unfoldable pub digest_of : Option Text → Option Text
    digest_of none = none
    digest_of (some b) = some (digest b)

    -- Catalog.Hash: the catalog as it is left, and the hash, or none for an error.
    unfoldable pub hash : Catalog → Catalog × Option Text
    hash c = let sorted = sort_stable c in (sorted, digest_of (marshal sorted))

-- No two different objects of a kind have one schema and name; for functions: no overloads.
pub record HasOwnNames (c : Catalog) : Type 0 where
  pub tables_keyed : IsKeyed key_of_table c.tables
  pub enums_keyed : IsKeyed key_of_enum c.enums
  pub composites_keyed : IsKeyed key_of_composite c.composites
  pub functions_keyed : IsKeyed key_of_function c.functions

-- A catalog of the same objects in another order.
pub record IsRearranged (c d : Catalog) : Type 0 where
  pub same_format : c.format_version ≡ d.format_version
  pub same_server : c.server_version ≡ d.server_version
  pub schemas_perm : Perm c.schemas d.schemas
  pub tables_perm : Perm c.tables d.tables
  pub enums_perm : Perm c.enums d.enums
  pub composites_perm : Perm c.composites d.composites
  pub functions_perm : Perm c.functions d.functions

module _ (sort_slice : (A : Type 0) → (A → A → Bool) → List A → List A)
    (is_sort : IsSort sort_slice) where
  -- With one object for a name, a catalog in another order is left as the same catalog.
  pub sort_stable-perm :
      (c d : Catalog)
      → HasOwnNames c
      → IsRearranged c d
      → sort_stable sort_slice c ≡ sort_stable sort_slice d
  unfolding sort_stable
  sort_stable-perm c d own same =
      rw
        (
          same.same_format,
          same.same_server,
          sort_strings-perm c.schemas d.schemas same.schemas_perm,
          sort_slice-perm key_of_table sort_slice is_sort c.tables d.tables own.tables_keyed
              same.tables_perm,
          sort_slice-perm key_of_enum sort_slice is_sort c.enums d.enums own.enums_keyed
              same.enums_perm,
          sort_slice-perm key_of_composite sort_slice is_sort c.composites d.composites
              own.composites_keyed same.composites_perm,
          sort_slice-perm key_of_function sort_slice is_sort c.functions d.functions
              own.functions_keyed same.functions_perm,
        )
        refl

  pub hash-perm :
      (marshal : Catalog → Option Text) (digest : Text → Text) (c d : Catalog)
      → HasOwnNames c
      → IsRearranged c d
      → hash sort_slice marshal digest c ≡ hash sort_slice marshal digest d
  unfolding hash
  hash-perm marshal digest c d own same = rw (sort_stable-perm c d own same) refl

  -- Sorting rearranges.
  pub sort_stable-IsRearranged : (c : Catalog) → IsRearranged c (sort_stable sort_slice c)
  unfolding sort_stable
  sort_stable-IsRearranged c = record {
    same_format = refl;
    same_server = refl;
    schemas_perm = Perm.symm (sort_strings-rearranges c.schemas);
    tables_perm = Perm.symm (is_sort.permutes Table (by_key key_of_table) c.tables);
    enums_perm = Perm.symm (is_sort.permutes Enum (by_key key_of_enum) c.enums);
    composites_perm = Perm.symm (is_sort.permutes Composite (by_key key_of_composite) c.composites);
    functions_perm = Perm.symm (is_sort.permutes Function (by_key key_of_function) c.functions);
  }
