-- ===== src/Smartcomments/Keys.antt =====
-- What the hook leaves: whose tables, and what its keys refer to.
use pdbcore.Prelude.{
  ◌≡◌, refl, ◌⊎◌, inl, inr, Bool, true, false, not, ◌||◌, List, [], ◌∷◌, Option, none, some, Text,
  codes, keep, length, All, All-append, ◌==◌, if-all, arith,
}
use mathlib.Core.List.{Mem, mem-cons_self, mem-cons_of_mem}
use pdbcore.Prelude.Words.{cut_at, trim_space}
use pdbcore.Smarttags.{Tags, values}
use pdbcore.Introspect.Catalog.{ForeignKey, Table, Catalog, table}
use pdbcore.Smartcomments.{Index}
use pdbcore.Smartcomments.Reference.{Match, match_reference}
use pdbcore.Smartcomments.Hook.{
  columns_exist, checked_key, key_of_match, key_of, with_fields, parse_foreign_key, snoc_some,
  add_foreign_keys, apply_table_tags, or_empty,
}

-- A key with columns of its table that refers to as many columns of a table of the catalog.
pub record IsSound (c : Catalog) (t : Table) (fk : ForeignKey) : Type 0 where
  pub some_columns : (length fk.columns == 0) ≡ false
  pub as_many : (length fk.columns == length fk.ref_columns) ≡ true
  pub local : columns_exist t fk.columns ≡ true
  pub target : Table
  pub found : table c fk.ref_schema fk.ref_table ≡ some target
  pub remote : columns_exist target fk.ref_columns ≡ true

abbrev OptionAll : {A : Type 0} → (A → Type 0) → Option A → Type 0
OptionAll P none = Unit
OptionAll P (some a) = P a

checked_key-IsSound :
    (c : Catalog) (t : Table) (fk : ForeignKey) (o : Option Table)
    → table c fk.ref_schema fk.ref_table ≡ o
    → OptionAll (IsSound c t) (checked_key t fk o)
unfolding checked_key
checked_key-IsSound c t fk none e = tt
checked_key-IsSound c t fk (some ref) e =
    if-all P (length fk.columns == 0 || not (length fk.columns == length fk.ref_columns)) _ _
      (λ h. tt)
      (λ lengths.
        if-all P (not (columns_exist t fk.columns)) _ _ (λ h. tt)
          (λ here.
            if-all P (not (columns_exist ref fk.ref_columns)) _ _ (λ h. tt)
              (λ there. record {
                some_columns = ground arith;
                as_many = ground arith;
                local = ground arith;
                target = ref;
                found = e;
                remote = ground arith;
              })))
  where
    P : Option ForeignKey → Type 0
    P = OptionAll (IsSound c t)

key_of-IsSound :
    (c : Catalog) (t : Table) (spec : Text) (o : Option Match)
    → OptionAll (IsSound c t) (key_of c t spec o)
key_of-IsSound c t spec none = tt
key_of-IsSound c t spec (some m) =
    let fk = key_of_match t spec m in
    checked_key-IsSound c t fk (table c fk.ref_schema fk.ref_table) refl

with_fields-OptionAll :
    (P : ForeignKey → Type 0) (schema rest : Text) (ix : Index) (o : Option ForeignKey)
    → OptionAll P o
    → OptionAll P (with_fields schema rest ix o).1
with_fields-OptionAll P schema rest ix none h = tt
with_fields-OptionAll P schema rest ix (some fk) h = h

parse_foreign_key-IsSound :
    (c : Catalog) (t : Table) (v : Text) (ix : Index)
    → OptionAll (IsSound c t) (parse_foreign_key c t v ix).1
unfolding parse_foreign_key
parse_foreign_key-IsSound c t v ix =
    let (spec, behind) = cut_at (λ d. d == b'|') v in
    with_fields-OptionAll (IsSound c t) t.schema (or_empty behind) ix _
      (key_of-IsSound c t spec (match_reference (trim_space spec)))

-- One of the keys that the table had, or a sound one.
abbrev pub IsOldOrSound : Catalog → Table → ForeignKey → Type 0
IsOldOrSound c t fk = Mem fk t.foreign_keys ⊎ IsSound c t fk

snoc_some-All :
    (P : ForeignKey → Type 0) (fks : List ForeignKey) (o : Option ForeignKey)
    → All P fks
    → OptionAll P o
    → All P (snoc_some fks o)
snoc_some-All P fks none h k = h
snoc_some-All P fks (some fk) h k = All-append P fks (fk ∷ []) h (k, tt)

inr-OptionAll :
    (c : Catalog) (t : Table) (o : Option ForeignKey)
    → OptionAll (IsSound c t) o
    → OptionAll (IsOldOrSound c t) o
inr-OptionAll c t none h = tt
inr-OptionAll c t (some fk) h = inr h

add_foreign_keys-All :
    (c : Catalog) (t : Table) (vs : List Text) (ix : Index) (fks : List ForeignKey)
    → All (IsOldOrSound c t) fks
    → All (IsOldOrSound c t) (add_foreign_keys c t vs (ix, fks)).1
unfolding add_foreign_keys
add_foreign_keys-All c t [] ix fks h = h
add_foreign_keys-All c t (v ∷ vs) ix fks h =
    add_foreign_keys-All c t vs (parse_foreign_key c t v ix).0
      (snoc_some fks (parse_foreign_key c t v ix).1)
      (snoc_some-All (IsOldOrSound c t) fks (parse_foreign_key c t v ix).1 h
        (inr-OptionAll c t (parse_foreign_key c t v ix).1 (parse_foreign_key-IsSound c t v ix)))

keep-All :
    (P : ForeignKey → Type 0) (p : ForeignKey → Bool) (fks : List ForeignKey)
    → All P fks
    → All P (keep p fks)
unfolding keep
keep-All P p [] h = tt
keep-All P p (fk ∷ fks) (hk, h) =
    if-all (All P) (p fk) _ _ (λ e. (hk, keep-All P p fks h)) (λ e. keep-All P p fks h)

old-All :
    (fks : List ForeignKey) (P : ForeignKey → Type 0)
    → ((fk : ForeignKey) → Mem fk fks → P fk)
    → All P fks
old-All [] P h = tt
old-All (fk ∷ fks) P h = (h fk mem-cons_self, old-All fks P (λ k m. h k (mem-cons_of_mem fk m)))

pub apply_table_tags-All :
    (c : Catalog) (tags : Tags) (ix : Index) (t : Table)
    → All (IsOldOrSound c t) (apply_table_tags c tags ix t).1.foreign_keys
unfolding apply_table_tags
apply_table_tags-All c tags ix t = keep-All (IsOldOrSound c t) _ _ (
    add_foreign_keys-All c t (values tags (codes "foreignKey")) ix t.foreign_keys
      (old-All t.foreign_keys (IsOldOrSound c t) (λ fk m. inl m)))
