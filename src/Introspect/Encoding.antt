-- ===== src/Introspect/Encoding.antt =====
-- An encoding of tables that tells them apart, as encoding/json does: prefix codes of the fields.
use pdbcore.Prelude.{
  ℕ, ◌≡◌, refl, sym, ap, ◌∙◌, Bool, true, false, List, [], ◌∷◌, ◌++◌, Option, none, some, Text,
  append_assoc, ◌==◌, if◌then◌else◌,
}
use pdbcore.Introspect.Catalog.{
  RelKind, rel_table, rel_view, rel_materialized_view, Column, Constraint, ForeignKey, Index,
  Privileges, Table,
}

-- A code whose words can be told from what comes behind them.
pub record Code (A : Type 0) : Type 0 where
  pub enc : A → Text
  pub cancel : (a b : A) (r s : Text) → enc a ++ r ≡ enc b ++ s → (a ≡ b) × (r ≡ s)

enc_injective : {A : Type 0} (c : Code A) (a b : A) → c.enc a ≡ c.enc b → a ≡ b
enc_injective c a b h = (c.cancel a b [] [] (ap (λ (t : Text). t ++ []) h)).0

number : Code ℕ
number = record { enc = λ n. n ∷ []; cancel = λ a b r s h. (cc, cc) }

pair : {A B : Type 0} → Code A → Code B → Code (A × B)
pair ca cb = record {
  enc = λ p. ca.enc p.0 ++ cb.enc p.1;
  cancel = λ p q r s h.
      let (e, k) = ca.cancel p.0 q.0 (cb.enc p.1 ++ r) (cb.enc q.1 ++ s) (
        sym (append_assoc (ca.enc p.0) (cb.enc p.1) r)
        ∙ h
        ∙ append_assoc (ca.enc q.0) (cb.enc q.1) s) in
      let (f, l) = cb.cancel p.1 q.1 r s k in (cc, l);
}

-- A code of what can be read back from a coded value.
via : {A B : Type 0} (f : B → A) (g : A → B) → ((b : B) → g (f b) ≡ b) → Code A → Code B
via f g back c = record {
  enc = λ b. c.enc (f b);
  cancel =
      λ a b r s h. let (e, k) = c.cancel (f a) (f b) r s h in (sym (back a) ∙ ap g e ∙ back b, k);
}

enc_list : {A : Type 0} → Code A → List A → Text
enc_list c [] = 0 ∷ []
enc_list c (x ∷ xs) = 1 ∷ (c.enc x ++ enc_list c xs)

behind :
    (a b t u r s : Text) → 1 ∷ ((a ++ t) ++ r) ≡ 1 ∷ ((b ++ u) ++ s) → a ++ (t ++ r) ≡ b ++ (u ++ s)
behind a b t u r s h = cc (append_assoc a t r, append_assoc b u s)

cancel_list :
    {A : Type 0} (c : Code A) (xs ys : List A) (r s : Text)
    → enc_list c xs ++ r ≡ enc_list c ys ++ s
    → (xs ≡ ys) × (r ≡ s)
unfolding enc_list
cancel_list c [] [] r s h = (refl, cc)
cancel_list c [] (y ∷ ys) r s h = absurd (cc)
cancel_list c (x ∷ xs) [] r s h = absurd (cc)
cancel_list c (x ∷ xs) (y ∷ ys) r s h =
    let (e, k) =
      c.cancel x y (enc_list c xs ++ r) (enc_list c ys ++ s)
        (behind (c.enc x) (c.enc y) (enc_list c xs) (enc_list c ys) r s h) in
    let (f, l) = cancel_list c xs ys r s k in (cc, l)

list : {A : Type 0} → Code A → Code (List A)
list c = record { enc = enc_list c; cancel = cancel_list c }

bit : Bool → ℕ
bit false = 0
bit true = 1

bit-read : (b : Bool) → (bit b == 1) ≡ b
unfolding bit
bit-read true = refl
bit-read false = refl

bool : Code Bool
bool = via bit (λ n. n == 1) bit-read number

optional : {A : Type 0} → Option A → List A
optional none = []
optional (some x) = x ∷ []

unoptional : {A : Type 0} → List A → Option A
unoptional [] = none
unoptional (x ∷ xs) = some x

optional-read : {A : Type 0} (o : Option A) → unoptional (optional o) ≡ o
unfolding optional unoptional
optional-read none = refl
optional-read (some x) = refl

option : {A : Type 0} → Code A → Code (Option A)
option c = via optional unoptional optional-read (list c)

kind_number : RelKind → ℕ
kind_number rel_table = 0
kind_number rel_view = 1
kind_number rel_materialized_view = 2

number_kind : ℕ → RelKind
number_kind n = if n == 0 then rel_table else if n == 1 then rel_view else rel_materialized_view

kind_number-read : (k : RelKind) → number_kind (kind_number k) ≡ k
unfolding kind_number number_kind
kind_number-read rel_table = refl
kind_number-read rel_view = refl
kind_number-read rel_materialized_view = refl

kind : Code RelKind
kind = via kind_number number_kind kind_number-read number

text : Code Text
text = list number

column : Code Column
column =
    via
      (λ (c : Column). (
        c.name,
        (
          c.position,
          (
            c.pg_type,
            (
              c.type_schema,
              (
                c.is_array,
                (c.not_null, (c.has_default, (c.is_generated, (c.comment, c.enum_ref)))),
              ),
            ),
          ),
        ),
      ))
      (λ (n, (p, (t, (s, (a, (m, (d, (g, (c, r))))))))). record {
        name = n;
        position = p;
        pg_type = t;
        type_schema = s;
        is_array = a;
        not_null = m;
        has_default = d;
        is_generated = g;
        comment = c;
        enum_ref = r;
      })
      (λ c. refl)
      (pair text (
        pair number
          (pair text (pair text (pair bool (pair bool (pair bool (pair bool (pair text text)))))))))

constraint : Code Constraint
constraint =
    via (λ (c : Constraint). (c.name, (c.columns, c.comment)))
      (λ (n, (cs, c)). record { name = n; columns = cs; comment = c }) (λ c. refl)
      (pair text (pair (list text) text))

foreign_key : Code ForeignKey
foreign_key =
    via
      (λ (k : ForeignKey).
        (k.name, (k.columns, (k.ref_schema, (k.ref_table, (k.ref_columns, k.comment))))))
      (λ (n, (cs, (s, (t, (rs, c))))). record {
        name = n;
        columns = cs;
        ref_schema = s;
        ref_table = t;
        ref_columns = rs;
        comment = c;
      })
      (λ k. refl) (pair text (pair (list text) (pair text (pair text (pair (list text) text)))))

index : Code Index
index =
    via (λ (i : Index). (i.name, (i.columns, (i.is_unique, i.method))))
      (λ (n, (cs, (u, m))). record { name = n; columns = cs; is_unique = u; method = m })
      (λ i. refl) (pair text (pair (list text) (pair bool text)))

privileges : Code Privileges
privileges =
    via (λ (p : Privileges). (p.may_select, (p.may_insert, (p.may_update, p.may_delete))))
      (λ (s, (i, (u, d))). record {
        may_select = s;
        may_insert = i;
        may_update = u;
        may_delete = d;
      })
      (λ p. refl) (pair bool (pair bool (pair bool bool)))

pub table : Code Table
table =
    via
      (λ (t : Table). (
        t.schema,
        (
          t.name,
          (
            t.kind,
            (
              t.comment,
              (
                t.rls_enabled,
                (
                  t.columns,
                  (t.primary_key, (t.uniques, (t.foreign_keys, (t.indexes, t.privileges)))),
                ),
              ),
            ),
          ),
        ),
      ))
      (λ (s, (n, (k, (c, (r, (cs, (p, (us, (fs, (is, pr)))))))))). record {
        schema = s;
        name = n;
        kind = k;
        comment = c;
        rls_enabled = r;
        columns = cs;
        primary_key = p;
        uniques = us;
        foreign_keys = fs;
        indexes = is;
        privileges = pr;
      })
      (λ t. refl)
      (pair text (
        pair text (
          pair kind (
            pair text (
              pair bool (
                pair (list column) (
                  pair (option constraint) (
                    pair (list constraint)
                      (pair (list foreign_key) (pair (list index) privileges))))))))))

pub table_injective : (t u : Table) → table.enc t ≡ table.enc u → t ≡ u
table_injective = enc_injective table
