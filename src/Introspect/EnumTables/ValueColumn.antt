-- ===== src/Introspect/EnumTables/ValueColumn.antt =====
-- The column that gives an enum its values.
use pdbcore.Prelude.{
  ◌≡◌, refl, sym, subst, arith, true, false, not, ◌||◌, List, [], ◌∷◌, Option, none, some, Text,
  codes, text_eq, text_eq_sound, is_empty, if◌then◌else◌, if-all, find_sound,
}
use pdbcore.Introspect.Catalog.{Column, Constraint, Table, column}
use pdbcore.Introspect.EnumTables.{
  is_tagged, is_text_family, pick_column, pick, tagged_unique, enum_value_column,
}

-- "" or the name under which the table has a column of texts, not of arrays of them.
abbrev pub HoldsTexts : Table → Text → Type 0
HoldsTexts t vc =
    (is_empty vc ≡ false)
    → (c : Column) × (column t vc ≡ some c)
      × (c.is_array ≡ false)
      × (is_text_family c.pg_type ≡ true)

column-name : (t : Table) (n : Text) (c : Column) → column t n ≡ some c → c.name ≡ n
unfolding column
column-name t n c h =
    text_eq_sound c.name n (find_sound (λ (d : Column). text_eq d.name n) t.columns c h)

pick_column-HoldsTexts : (t : Table) (ns : List Text) → HoldsTexts t (pick_column t ns)
unfolding pick_column is_empty
pick_column-HoldsTexts t [] = λ h. absurd (cc)
pick_column-HoldsTexts t (n ∷ m ∷ ns) = λ h. absurd (cc)
pick_column-HoldsTexts t (n ∷ []) = by_column (column t n) refl
  where
    by_column :
        (o : Option Column)
        → column t n ≡ o
        → HoldsTexts t (elim o [
          | none ↦ []
          | some c ↦ if c.is_array || not (is_text_family c.pg_type) then [] else c.name
        ])
    by_column none e = λ h. absurd (cc)
    by_column (some c) e =
        if-all (HoldsTexts t) (c.is_array || not (is_text_family c.pg_type)) _ _
          (λ f h. absurd (cc))
          (λ f h. (
            c,
            subst (λ (k : Text). column t k ≡ some c) (sym (column-name t n c e)) e,
            ground arith,
            ground arith,
          ))

tagged_unique-HoldsTexts : (t : Table) (us : List Constraint) → HoldsTexts t (tagged_unique t us)
unfolding tagged_unique
tagged_unique-HoldsTexts t [] = unfold is_empty in (λ h. absurd (cc))
tagged_unique-HoldsTexts t (u ∷ us) =
    if-all (HoldsTexts t) (is_tagged u.comment (codes "enum")) _ _
      (λ e.
        if-all (HoldsTexts t) (is_empty (pick_column t u.columns)) _ _
          (λ f. tagged_unique-HoldsTexts t us) (λ f. pick_column-HoldsTexts t u.columns))
      (λ e. tagged_unique-HoldsTexts t us)

pick-HoldsTexts : (t : Table) (con : Option Constraint) → HoldsTexts t (pick t con)
unfolding is_empty
pick-HoldsTexts t none = λ h. absurd (cc)
pick-HoldsTexts t (some con) = pick_column-HoldsTexts t con.columns

-- The value column of a table, unless it is "", is one of its columns, of a text type and no
-- array.
pub enum_value_column-HoldsTexts : (t : Table) → HoldsTexts t (enum_value_column t)
unfolding enum_value_column
enum_value_column-HoldsTexts t =
    if-all (HoldsTexts t) (is_empty (tagged_unique t t.uniques)) _ _
      (λ e. pick-HoldsTexts t t.primary_key) (λ e. tagged_unique-HoldsTexts t t.uniques)
