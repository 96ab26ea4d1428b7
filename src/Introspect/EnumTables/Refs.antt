-- ===== src/Introspect/EnumTables/Refs.antt =====
-- The enum that a column is typed as after the conversion.
use pdbcore.Prelude.{
  ◌≡◌, refl, ◌∙◌, subst, arith, Bool, true, false, not, ◌||◌, ◌&&◌, List, [], ◌∷◌, ◌++◌, Option,
  none, some, Text, codes, text_eq, text_eq_iff, is_empty, map, keep, any, All, All-weaken, if-all,
}
use pdbcore.Prelude.Map.{Map, get, get-put}
use pdbcore.Introspect.Catalog.{Column, ForeignKey, Table, Enum, Catalog, table_key}
use pdbcore.Introspect.EnumTables.Closed.{ok_injective}
use pdbcore.Introspect.EnumTables.{
  Answer, Result, failed, ok, Row, scan_failed, scanned, rows, query_failed, scan_rows, table_enum,
  after_rows, read_answer, Converted, record_enum, read_enum_table, collect_table, collect,
  is_tagged, enum_value_column, is_key, set_enum_ref, rebind_columns, rebind_key, rebind_keys,
  rebind_table, rebuild, convert_enum_tables,
}

-- The test of enum_by_ref.
abbrev pub is_backing : Text → Enum → Bool
is_backing ref e = e.is_table_backed && text_eq (table_key e.schema e.name) ref

-- The columns' references resolve: EnumRef is empty or names a table-backed enum among these.
abbrev pub Resolves : List Enum → Column → Type 0
Resolves enums c = (is_empty c.enum_ref ≡ false) → any (is_backing c.enum_ref) enums ≡ true

any-append :
    {A : Type 0} (p : A → Bool) (xs ys : List A) → any p (xs ++ ys) ≡ (any p xs || any p ys)
unfolding any
any-append p [] ys = refl
any-append p (x ∷ xs) ys = ground (arith, any-append p xs ys)

-- The enum stands for its table.
abbrev Stands : Table → Enum → Type 0
Stands t e = (e.is_table_backed ≡ true) × (table_key e.schema e.name ≡ table_key t.schema t.name)

abbrev OkAll : {A : Type 0} → (A → Type 0) → Result A → Type 0
OkAll P (failed err) = Unit
OkAll P (ok a) = P a

abbrev SomeAll : {A : Type 0} → (A → Type 0) → Option A → Type 0
SomeAll P none = Unit
SomeAll P (some a) = P a

scan_rows-Stands :
    (t : Table) (rs : List Row) (e : Enum) → Stands t e → OkAll (Stands t) (scan_rows rs e)
unfolding scan_rows
scan_rows-Stands t [] e h = h
scan_rows-Stands t (scan_failed err ∷ rs) e h = tt
scan_rows-Stands t (scanned v d ∷ rs) e h = scan_rows-Stands t rs _ h

after_rows-Stands :
    (t : Table) (last : Option Text) (r : Result Enum)
    → OkAll (Stands t) r
    → OkAll (SomeAll (Stands t)) (after_rows last r)
after_rows-Stands t last (failed err) h = tt
after_rows-Stands t (some err) (ok e) h = tt
after_rows-Stands t none (ok e) h = by_values e.values
  where
    by_values : (vs : List Text) → SomeAll (Stands t) (elim vs [ [] ↦ none | v ∷ ws ↦ some e ])
    by_values [] = tt
    by_values (v ∷ ws) = h

read_answer-Stands : (t : Table) (a : Answer) → OkAll (SomeAll (Stands t)) (read_answer t a)
unfolding read_answer
read_answer-Stands t (query_failed err) = tt
read_answer-Stands t (rows rs last) =
    after_rows-Stands t last (scan_rows rs (table_enum t))
      (scan_rows-Stands t rs (table_enum t) (unfold table_enum in (refl, refl)))

-- Every key of the map has an enum that stands for it.
abbrev Backed : Converted → Type 0
Backed (vcs, enums) = (k : Text) → is_key vcs k ≡ true → any (is_backing k) enums ≡ true

record_enum-Backed :
    (t : Table) (vc : Text) (acc : Converted) (r : Result (Option Enum))
    → Backed acc
    → OkAll (SomeAll (Stands t)) r
    → OkAll Backed (record_enum t vc acc r)
unfolding is_key
record_enum-Backed t vc acc (failed err) b h = tt
record_enum-Backed t vc acc (ok none) b h = b
record_enum-Backed t vc (vcs, enums) (ok (some e)) b (backed, named) = λ k is.
    any-append (is_backing k) enums (e ∷ [])
    ∙ unfold any in
      (ground (
        arith,
        b k,
        get-put (table_key t.schema t.name) k vc vcs,
        text_eq_iff (table_key t.schema t.name) k,
        text_eq_iff (table_key e.schema e.name) k,
      ))

module _ (db : Text → Answer) where
  collect_table-Backed :
      (t : Table) (acc : Converted) → Backed acc → OkAll Backed (collect_table db t acc)
  unfolding collect_table read_enum_table
  collect_table-Backed t acc b =
      if-all (OkAll Backed) (not (is_tagged t.comment (codes "enum"))) _ _ (λ e. b)
        (λ e.
          if-all (OkAll Backed) (is_empty (enum_value_column t)) _ _ (λ f. b)
            (λ f. record_enum-Backed t _ acc _ b (read_answer-Stands t _)))

  collect-Backed :
      (ts : List Table) (acc : Converted) → Backed acc → OkAll Backed (collect db ts acc)
  unfolding collect
  collect-Backed [] acc b = b
  collect-Backed (t ∷ ts) acc b =
      by_round (collect_table db t acc) (collect_table-Backed t acc b) (collect-Backed ts)
    where
      by_round :
          (r : Result Converted)
          → OkAll Backed r
          → ((a : Converted) → Backed a → OkAll Backed (collect db ts a))
          → OkAll Backed (elim r [ failed err ↦ failed err | ok acc' ↦ collect db ts acc' ])
      by_round (failed err) h ih = tt
      by_round (ok acc') h ih = ih acc' h

set_enum_ref-All :
    (enums : List Enum) (name ref : Text) (cols : List Column)
    → any (is_backing ref) enums ≡ true
    → All (Resolves enums) cols
    → All (Resolves enums) (set_enum_ref name ref cols)
unfolding set_enum_ref
set_enum_ref-All enums name ref [] b h = tt
set_enum_ref-All enums name ref (c ∷ cs) b (hc, h) =
    if-all (All (Resolves enums)) (text_eq c.name name) _ _ (λ e. ((λ f. b), h))
      (λ e. (hc, set_enum_ref-All enums name ref cs b h))

rebind_columns-All :
    (enums : List Enum) (cs rs : List Text) (vc ref : Text) (cols : List Column)
    → any (is_backing ref) enums ≡ true
    → All (Resolves enums) cols
    → All (Resolves enums) (rebind_columns cs rs vc ref cols)
unfolding rebind_columns
rebind_columns-All enums (c ∷ []) (r ∷ []) vc ref cols b h =
    if-all (All (Resolves enums)) (text_eq r vc) _ _ (λ e. set_enum_ref-All enums c ref cols b h)
      (λ e. h)
rebind_columns-All enums [] rs vc ref cols b h = h
rebind_columns-All enums (c ∷ d ∷ cs) rs vc ref cols b h = h
rebind_columns-All enums (c ∷ []) [] vc ref cols b h = h
rebind_columns-All enums (c ∷ []) (r ∷ s ∷ rs) vc ref cols b h = h

rebind_keys-All :
    (vcs : Map Text) (enums : List Enum) (fks : List ForeignKey) (cols : List Column)
    → Backed (vcs, enums)
    → All (Resolves enums) cols
    → All (Resolves enums) (rebind_keys vcs fks cols)
unfolding rebind_keys is_key
rebind_keys-All vcs enums [] cols b h = h
rebind_keys-All vcs enums (fk ∷ fks) cols b h = rebind_keys-All vcs enums fks _ b one
  where
    by_key :
        (o : Option Text)
        → get (table_key fk.ref_schema fk.ref_table) vcs ≡ o
        → All (Resolves enums) (elim o [
          | none ↦ cols
          | some vc ↦
              rebind_columns fk.columns fk.ref_columns vc
                (table_key fk.ref_schema fk.ref_table)
                cols
        ])
    by_key none e = h
    by_key (some vc) e =
        rebind_columns-All enums fk.columns fk.ref_columns vc _ cols (b _ (rw (e, is_key))) h

    one : All (Resolves enums) (rebind_key vcs fk cols)
    one = unfold rebind_key in by_key (get (table_key fk.ref_schema fk.ref_table) vcs) refl

-- The references of all columns of these tables resolve.
abbrev pub AllResolve : List Enum → List Table → Type 0
AllResolve enums ts = All (λ (t : Table). All (Resolves enums) t.columns) ts

rebuild_tables-All :
    (vcs : Map Text) (enums : List Enum) (p : Table → Bool) (ts : List Table)
    → Backed (vcs, enums)
    → AllResolve enums ts
    → AllResolve enums (map (rebind_table vcs) (keep p ts))
unfolding keep rebind_table
rebuild_tables-All vcs enums p [] b h = tt
rebuild_tables-All vcs enums p (t ∷ ts) b (ht, h) =
    if-all (λ (us : List Table). AllResolve enums (map (rebind_table vcs) us)) (p t) _ _
      (λ e. (
        rebind_keys-All vcs enums t.foreign_keys t.columns b ht,
        rebuild_tables-All vcs enums p ts b h,
      ))
      (λ e. rebuild_tables-All vcs enums p ts b h)

more_enums :
    (enums es : List Enum) (ts : List Table) → AllResolve enums ts → AllResolve (enums ++ es) ts
more_enums enums es ts = All-weaken _ _ ts (λ t.
    All-weaken _ _ t.columns (λ c h f. any-append (is_backing c.enum_ref) enums es ∙ rw (h f) refl))

rebuild-AllResolve :
    (cat : Catalog) (acc : Converted)
    → Backed acc
    → AllResolve cat.enums cat.tables
    → AllResolve (rebuild cat acc).enums (rebuild cat acc).tables
unfolding rebuild
rebuild-AllResolve cat (vcs, []) b h = h
rebuild-AllResolve cat (vcs, e ∷ es) b h =
    rebuild_tables-All vcs (cat.enums ++ e ∷ es) _ cat.tables
      (λ k is. any-append (is_backing k) cat.enums (e ∷ es) ∙ ground (arith, b k is))
      (more_enums cat.enums (e ∷ es) cat.tables h)

-- The conversion types no column as an enum that the catalog lacks: if every EnumRef of a catalog
-- that is not empty names one of its table-backed enums, then so it is in the converted catalog.
pub convert_enum_tables-AllResolve :
    (db : Text → Answer) (cat cat' : Catalog)
    → AllResolve cat.enums cat.tables
    → convert_enum_tables db cat ≡ ok cat'
    → AllResolve cat'.enums cat'.tables
unfolding convert_enum_tables
convert_enum_tables-AllResolve db cat cat' h e =
    by_collected (collect db cat.tables ([], [])) refl
      (collect-Backed db cat.tables ([], []) (λ k is. absurd (unfold is_key get in cc)))
  where
    by_collected :
        (r : Result Converted)
        → collect db cat.tables ([], []) ≡ r
        → OkAll Backed r
        → AllResolve cat'.enums cat'.tables
    by_collected (failed err) c b = absurd (cc)
    by_collected (ok acc) c b =
        subst (λ (x : Catalog). AllResolve x.enums x.tables)
          (ok_injective (rw (c, convert_enum_tables) at e)) (rebuild-AllResolve cat acc b h)
