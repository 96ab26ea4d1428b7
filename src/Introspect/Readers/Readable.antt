-- ===== src/Introspect/Readers/Readable.antt =====
-- What holds of every catalog that the readers and the conversion give.
use pdbcore.Prelude.{
  ◌≡◌, refl, true, ◌&&◌, List, [], ◌∷◌, Option, none, some, Text, codes, text_eq, is_empty, All,
  All-append, All-weaken, if-all, ◌==◌,
}
use pdbcore.Introspect.Catalog.{Table, Column, Enum, Catalog}
use pdbcore.Introspect.EnumTables.{
  Answer, Result, failed, ok, Converted, collect, rebind_table, rebuild, convert_enum_tables,
}
use pdbcore.Introspect.EnumTables.Closed.{keep-All, map-All}
use pdbcore.Introspect.EnumTables.Refs.{Resolves, AllResolve, convert_enum_tables-AllResolve}
use pdbcore.Introspect.Readers.{
  Fetched, refused, fetched, Rows, each_row, rows_err, read_rows, update_table, add_table,
  add_column,
}
use pdbcore.Introspect.Readers.Build.{
  constrain, add_constraint, add_index, add_enum, add_composite, add_function, ◌>>=◌, versioned,
  empty_catalog, read_catalog,
}

abbrev pub ResultAll : {A : Type 0} → (A → Type 0) → Result A → Type 0
ResultAll P (failed err) = Unit
ResultAll P (ok a) = P a

pub bind-ResultAll :
    {A B : Type 0} (P : A → Type 0) (Q : B → Type 0) (r : Result A) (k : A → Result B)
    → ResultAll P r
    → ((a : A) → P a → ResultAll Q (k a))
    → ResultAll Q (r >>= k)
bind-ResultAll P Q (failed err) k h f = tt
bind-ResultAll P Q (ok a) k h f = f a h

module _ (P : Catalog → Type 0) {A : Type 0} (add : A → Catalog → Catalog)
    (keeps : (a : A) (c : Catalog) → P c → P (add a c)) where
  each_row-ResultAll : (rs : List (Result A)) (c : Catalog) → P c → ResultAll P (each_row add rs c)
  unfolding each_row
  each_row-ResultAll [] c h = h
  each_row-ResultAll (failed err ∷ rs) c h = tt
  each_row-ResultAll (ok a ∷ rs) c h = each_row-ResultAll rs (add a c) (keeps a c h)

  rows_err-ResultAll :
      (last : Option Text) (r : Result Catalog) → ResultAll P r → ResultAll P (rows_err add last r)
  rows_err-ResultAll last (failed err) h = tt
  rows_err-ResultAll none (ok c) h = h
  rows_err-ResultAll (some err) (ok c) h = tt

  read_rows-ResultAll :
      (what : Text) (q : Fetched A) (c : Catalog) → P c → ResultAll P (read_rows add what q c)
  unfolding read_rows
  read_rows-ResultAll what (refused err) c h = tt
  read_rows-ResultAll what (fetched rs last) c h =
      rows_err-ResultAll last (each_row add rs c) (each_row-ResultAll rs c h)

-- Readable, and no column with a reference to an enum yet.
abbrev pub IsFresh : Table → Type 0
IsFresh t =
    (t.privileges.may_select ≡ true) × All (λ (c : Column). is_empty c.enum_ref ≡ true) t.columns

abbrev pub AllFresh : Catalog → Type 0
AllFresh c = All IsFresh c.tables

update_table-All :
    (P : Table → Type 0) (schema name : Text) (f : Table → Table) (ts : List Table)
    → ((t : Table) → P t → P (f t))
    → All P ts
    → All P (update_table schema name f ts)
unfolding update_table
update_table-All P schema name f [] g h = tt
update_table-All P schema name f (t ∷ ts) g (ht, h) =
    if-all (All P) (text_eq t.schema schema && text_eq t.name name) _ _ (λ e. (g t ht, h))
      (λ e. (ht, update_table-All P schema name f ts g h))

unfresh : (c : Column) (enums : List Enum) → is_empty c.enum_ref ≡ true → Resolves enums c
unfresh c enums h k = absurd (cc)

module _ (c : Catalog) (h : AllFresh c) where
  add_table-AllFresh : (r : _) → AllFresh (add_table r c)
  unfolding add_table
  add_table-AllFresh r =
      if-all AllFresh r.privileges.may_select _ _
        (λ e. All-append IsFresh c.tables _ h ((e, tt), tt)) (λ e. h)

  add_column-AllFresh : (r : _) → AllFresh (add_column r c)
  unfolding add_column is_empty
  add_column-AllFresh r =
      update_table-All IsFresh _ _ _ c.tables
        (λ t (s, cols). (s, All-append _ t.columns _ cols (refl, tt))) h

  add_constraint-AllFresh : (r : _) → AllFresh (add_constraint r c)
  unfolding add_constraint constrain
  add_constraint-AllFresh r =
      update_table-All IsFresh _ _ _ c.tables
        (λ t ht.
          if-all IsFresh (r.letter == b'p') _ _ (λ e. ht)
            (λ e.
              if-all IsFresh (r.letter == b'u') _ _ (λ e. ht)
                (λ e. if-all IsFresh (r.letter == b'f') _ _ (λ e. ht) (λ e. ht))))
        h

  add_index-AllFresh : (r : _) → AllFresh (add_index r c)
  unfolding add_index
  add_index-AllFresh r = update_table-All IsFresh _ _ _ c.tables (λ t ht. ht) h

  add_enum-AllFresh : (r : _) → AllFresh (add_enum r c)
  unfolding add_enum
  add_enum-AllFresh r = h

  add_composite-AllFresh : (r : _) → AllFresh (add_composite r c)
  unfolding add_composite
  add_composite-AllFresh r = h

  add_function-AllFresh : (r : _) → AllFresh (add_function r c)
  unfolding add_function
  add_function-AllFresh r = if-all AllFresh _ _ _ (λ e. h) (λ e. h)

versioned-ResultAll : (v : Result Text) → ResultAll (λ (t : Text). Unit) (versioned v)
versioned-ResultAll (failed err) = tt
versioned-ResultAll (ok v) = tt

-- One reader, and what follows it.
bind-read_rows :
    {A : Type 0} (add : A → Catalog → Catalog)
    (keeps : (c : Catalog) → AllFresh c → (a : A) → AllFresh (add a c)) (what : Text)
    (q : Fetched A) (k : Catalog → Result Catalog) (c : Catalog)
    → AllFresh c
    → ((d : Catalog) → AllFresh d → ResultAll AllFresh (k d))
    → ResultAll AllFresh (read_rows add what q c >>= k)
bind-read_rows add keeps what q k c h =
    bind-ResultAll AllFresh AllFresh (read_rows add what q c) k
      (read_rows-ResultAll AllFresh add (λ a d hd. keeps d hd a) what q c h)

pub read_catalog-ResultAll :
    (db : Rows) (schemas : List Text) → ResultAll AllFresh (read_catalog db schemas)
unfolding read_catalog
read_catalog-ResultAll db schemas =
    bind-ResultAll (λ (t : Text). Unit) AllFresh (versioned db.server_version) _
      (versioned-ResultAll db.server_version)
      λ version u.
        bind-read_rows add_table add_table-AllFresh (codes "tables") db.tables _
          (empty_catalog schemas version) tt
          λ c1 h1.
            bind-read_rows add_column add_column-AllFresh (codes "columns") db.columns _ c1 h1
              λ c2 h2.
                bind-read_rows add_constraint add_constraint-AllFresh (codes "constraints")
                  db.constraints _ c2 h2
                  λ c3 h3.
                    bind-read_rows add_index add_index-AllFresh (codes "indexes") db.indexes _ c3 h3
                      λ c4 h4.
                        bind-read_rows add_enum add_enum-AllFresh (codes "enums") db.enums _ c4 h4
                          λ c5 h5.
                            bind-read_rows add_composite add_composite-AllFresh (codes "composites")
                              db.composites _ c5 h5
                              λ c6 h6.
                                read_rows-ResultAll AllFresh add_function
                                  (λ r c h. add_function-AllFresh c h r) (codes "functions")
                                  db.functions c6 h6

-- The catalog that Introspect promises: readable tables, and no reference to an enum that is not
-- there.
pub record IsServable (c : Catalog) : Type 0 where
  pub readable : All (λ (t : Table). t.privileges.may_select ≡ true) c.tables
  pub resolved : AllResolve c.enums c.tables

rebuild-readable :
    (cat : Catalog) (acc : Converted)
    → All (λ (t : Table). t.privileges.may_select ≡ true) cat.tables
    → All (λ (t : Table). t.privileges.may_select ≡ true) (rebuild cat acc).tables
unfolding rebuild rebind_table
rebuild-readable cat (vcs, []) h = h
rebuild-readable cat (vcs, e ∷ es) h =
    map-All _ _ (rebind_table vcs) _ (λ t k. k) (keep-All _ _ _ cat.tables (λ t e' k. k) h)

convert-readable :
    (enum_rows : Text → Answer) (cat : Catalog)
    → All (λ (t : Table). t.privileges.may_select ≡ true) cat.tables
    → ResultAll
        (λ (c : Catalog). All (λ (t : Table). t.privileges.may_select ≡ true) c.tables)
        (convert_enum_tables enum_rows cat)
unfolding convert_enum_tables
convert-readable enum_rows cat h = by_collected (collect enum_rows cat.tables ([], []))
  where
    by_collected :
        (r : Result Converted)
        → ResultAll
            (λ (c : Catalog). All (λ (t : Table). t.privileges.may_select ≡ true) c.tables)
            (elim r [ failed err ↦ failed err | ok acc ↦ ok (rebuild cat acc) ])
    by_collected (failed err) = tt
    by_collected (ok acc) = rebuild-readable cat acc h

pub fresh-Servable : (c : Catalog) → AllFresh c → IsServable c
fresh-Servable c h = record {
  readable = All-weaken _ _ c.tables (λ t k. k.0) h;
  resolved =
      All-weaken _ _ c.tables (λ t k. All-weaken _ _ t.columns (λ col e. unfresh col c.enums e) k.1)
        h;
}

pub convert-Servable :
    (enum_rows : Text → Answer) (cat : Catalog)
    → IsServable cat
    → ResultAll IsServable (convert_enum_tables enum_rows cat)
convert-Servable enum_rows cat h =
    by_result (convert_enum_tables enum_rows cat) refl (convert-readable enum_rows cat h.readable)
  where
    by_result :
        (r : Result Catalog)
        → convert_enum_tables enum_rows cat ≡ r
        → ResultAll
            (λ (c : Catalog). All (λ (t : Table). t.privileges.may_select ≡ true) c.tables)
            r
        → ResultAll IsServable r
    by_result (failed err) e k = tt
    by_result (ok c) e k = record {
      readable = k;
      resolved = convert_enum_tables-AllResolve enum_rows cat c h.resolved e;
    }
