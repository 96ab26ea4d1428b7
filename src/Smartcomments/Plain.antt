-- ===== src/Smartcomments/Plain.antt =====
-- What a lookup without a schema finds.
use pdbcore.Prelude.{
  ◌≡◌, refl, sym, ap, ◌∙◌, Bool, true, false, List, [], ◌∷◌, ◌++◌, Option, none, some, Text,
  text_eq, text_eq_sound, is_empty, append-nil, append_assoc,
}
use pdbcore.Prelude.Map.{get, get-put}
use pdbcore.Smarttags.{Tags, parse}
use pdbcore.Introspect.Catalog.{Table, Catalog}
use pdbcore.Smartcomments.{
  Maps, Index, Entry, unless_seen, index_tags, index_object, table_entry, index_table, index_tables,
  no_index, build_index, or_nil, lookup, table_tags,
}

abbrev pub listed : Bool → Option Tags → List Tags
listed false tags = []
listed true none = []
listed true (some tags) = tags ∷ []

-- The tags of the commented tables of a name, in order; a comment without tags does not count.
unfoldable pub commented : Text → List Table → List Tags
commented name [] = []
commented name (t ∷ ts) = listed (text_eq t.name name) (parse t.comment).0 ++ commented name ts

-- One element, if it is the only one.
abbrev pub only : List Tags → Option Tags
only [] = none
only (t ∷ []) = some t
only (t ∷ u ∷ ts) = none

-- The entry that a name has after these tags.
abbrev entry_of : List Tags → Option (Option Tags)
entry_of [] = none
entry_of (t ∷ ts) = some (only (t ∷ ts))

entry_of-snoc :
    (ts : List Tags) (tags : Tags)
    → entry_of (ts ++ tags ∷ []) ≡ some (unless_seen (entry_of ts) tags)
entry_of-snoc [] tags = refl
entry_of-snoc (t ∷ []) tags = refl
entry_of-snoc (t ∷ u ∷ ts) tags = refl

index_tags-entry_of :
    (e : Entry) (o : Option Tags) (m : Maps) (name : Text) (seen : List Tags) (b : Bool)
    → text_eq e.by_key name ≡ b
    → get name m.by ≡ entry_of seen
    → get name (index_tags e o m).by ≡ entry_of (seen ++ listed b o)
unfolding index_tags
index_tags-entry_of e none m name seen true same h = rw append-nil h
index_tags-entry_of e none m name seen false same h = rw append-nil h
index_tags-entry_of e (some tags) m name seen false same h =
    get-put e.by_key name (unless_seen (get e.by_key m.by) tags) m.by ∙ (rw (same, append-nil) h)
index_tags-entry_of e (some tags) m name seen true same h =
    get-put e.by_key name (unless_seen (get e.by_key m.by) tags) m.by
    ∙ (rw same (
        ap (λ (k : Text). some (unless_seen (get k m.by) tags)) (text_eq_sound e.by_key name same)
        ∙ ap (λ (o : Option (Option Tags)). some (unless_seen o tags)) h
        ∙ sym (entry_of-snoc seen tags)))

tables-entry_of :
    (ts : List Table) (ix : Index) (name : Text) (seen : List Tags)
    → get name ix.tables.by ≡ entry_of seen
    → get name (index_tables ts ix).tables.by ≡ entry_of (seen ++ commented name ts)
unfolding index_tables index_table index_object commented table_entry
tables-entry_of [] ix name seen h = rw append-nil h
tables-entry_of (t ∷ ts) ix name seen h =
    tables-entry_of ts (index_table t ix) name
      (seen ++ listed (text_eq t.name name) (parse t.comment).0)
      (index_tags-entry_of (table_entry t) (parse t.comment).0 ix.tables name seen
        (text_eq t.name name) refl h)
    ∙ ap entry_of
        (append_assoc seen (listed (text_eq t.name name) (parse t.comment).0) (commented name ts))

or_nil-entry_of : (ts : List Tags) → or_nil (entry_of ts) ≡ only ts
or_nil-entry_of [] = refl
or_nil-entry_of (t ∷ ts) = refl

-- A table's plain name finds the tags of the table of that name, in whatever schema, if exactly
-- one table of that name has tags in its comment, and nothing otherwise.
pub table_tags-only :
    (c : Catalog) (name : Text)
    → table_tags (build_index c) [] name ≡ only (commented name c.tables)
unfolding table_tags lookup build_index is_empty get
table_tags-only c name =
    ap or_nil (tables-entry_of c.tables no_index name [] refl)
    ∙ or_nil-entry_of (commented name c.tables)
