-- ===== src/Smarttags/Block.antt =====
-- A comment that is written as a block of tags and a description is read back as such.
use pdbcore.Prelude.{
  ◌≡◌, refl, sym, ap, ◌∙◌, true, false, List, [], ◌∷◌, ◌++◌, some, arith, Text, text_eq,
  text_eq_iff, is_empty, if◌then◌else◌, Bool-cases, inl, inr, append_assoc, append-nil, map, All,
  All-append, snoc,
}
use pdbcore.Prelude.Map.{get, get-put}
use pdbcore.Prelude.Words.{
  trim_space, join, begins, begins-trim_space-append, cut_at-found, cut_at_everywhere, Lacks,
  split-join,
}
use pdbcore.Smarttags.Description.{StartsText}
use pdbcore.Smarttags.{
  Tags, newline, at_sign, values, is_blank, tag_lines, tag_of, add_tag, drop_mark, parse,
}

-- The line of a tag.
unfoldable pub render : Text × Text → Text
render (name, value) = at_sign ∷ (if is_empty value then name else name ++ b' ' ∷ value)

-- A tag that can be written: its name is not empty and has no blanks, its value has no spaces
-- around it, and its line none at its end and no line break.
pub record IsWritable (tag : Text × Text) : Type 0 where
  pub named : is_empty tag.0 ≡ false
  pub one_word : All (λ c. is_blank c ≡ false) tag.0
  pub trimmed_value : trim_space tag.1 ≡ tag.1
  pub trimmed_line : trim_space (render tag) ≡ render tag
  pub one_line : Lacks newline (render tag)

unfoldable pub add_tags : List (Text × Text) → Tags → Tags
add_tags [] m = m
add_tags (t ∷ ts) m = add_tags ts (add_tag t m)

is_empty_sound : (s : Text) → is_empty s ≡ true → s ≡ []
unfolding is_empty
is_empty_sound [] h = refl
is_empty_sound (c ∷ s) h = cc

tag_of-render : (tag : Text × Text) → IsWritable tag → tag_of (drop_mark (render tag)) ≡ tag
unfolding tag_of render
tag_of-render (name, value) w = elim (Bool-cases (is_empty value)) [
  | inl e ↦
      rw (e, cut_at_everywhere is_blank name w.one_word)
        (ap (λ (v : Text). (name, v)) (sym (is_empty_sound value e)))
  | inr e ↦
      rw (e, cut_at-found is_blank name b' ' value w.one_word (unfold is_blank in refl))
        (ap (λ (v : Text). (name, v)) w.trimmed_value)
]

tag_lines-render :
    (tag : Text × Text) (ls : List Text) (m : Tags)
    → IsWritable tag
    → tag_lines (render tag ∷ ls) m ≡ tag_lines ls (add_tag tag m)
unfolding tag_lines
tag_lines-render tag ls m w =
    rw (w.trimmed_line, tag_of-render tag w) (unfold render is_empty begins in refl)

tag_lines-block :
    (tags : List (Text × Text)) (ls : List Text) (m : Tags)
    → All IsWritable tags
    → tag_lines (map render tags ++ ls) m ≡ tag_lines ls (add_tags tags m)
unfolding add_tags
tag_lines-block [] ls m h = refl
tag_lines-block (t ∷ tags) ls m (ht, h) =
    tag_lines-render t (map render tags ++ ls) m ht ∙ tag_lines-block tags ls (add_tag t m) h

tag_lines-text : (ls : List Text) (m : Tags) → StartsText ls → tag_lines ls m ≡ (m, ls)
unfolding tag_lines
tag_lines-text [] m h = refl
tag_lines-text (l ∷ ls) m (h, k) = rw (h, k)

render-Lacks :
    (tags : List (Text × Text)) → All IsWritable tags → All (Lacks newline) (map render tags)
render-Lacks [] h = tt
render-Lacks (t ∷ tags) (ht, h) = (ht.one_line, render-Lacks tags h)

begins-block :
    (t : Text × Text) (ls : List Text)
    → IsWritable t
    → begins at_sign (trim_space (join (newline ∷ []) (render t ∷ ls))) ≡ true
unfolding join
begins-block t [] w = rw w.trimmed_line (unfold render begins in refl)
begins-block t (l ∷ ls) w =
    begins-trim_space-append at_sign (render t) _
      (rw w.trimmed_line (unfold render is_empty in refl))
    ∙ (rw w.trimmed_line (unfold render begins in refl))

parse_lines :
    (t : Text × Text) (tags : List (Text × Text)) (ls : List Text)
    → All IsWritable (t ∷ tags)
    → StartsText ls
    → All (Lacks newline) ls
    → parse (join (newline ∷ []) (map render (t ∷ tags) ++ ls))
      ≡ (some (add_tags (t ∷ tags) []), trim_space (join (newline ∷ []) ls))
unfolding parse
parse_lines t tags ls h starts broken = rw (
  begins-block t (map render tags ++ ls) h.0,
  split-join newline (render t) (map render tags ++ ls)
      (All-append (Lacks newline) (map render (t ∷ tags)) ls (render-Lacks (t ∷ tags) h) broken),
  tag_lines-block (t ∷ tags) ls [] h,
  tag_lines-text ls (add_tags (t ∷ tags) []) starts,
)

-- The values of one name, in the order of the lines.
unfoldable pub values_of : Text → List (Text × Text) → List Text
values_of name [] = []
values_of name ((n, v) ∷ tags) =
    let rest = values_of name tags in if text_eq n name then v ∷ rest else rest

values-add_tag :
    (name n v : Text) (m : Tags)
    → is_empty n ≡ false
    → values (add_tag (n, v) m) name
      ≡ (if text_eq n name then snoc (values m name) v else values m name)
unfolding values add_tag
values-add_tag name n v m h =
    ground (arith, get-put n name (snoc (values m n) v) m, text_eq_iff n name)

values-add_tags :
    (name : Text) (tags : List (Text × Text)) (m : Tags)
    → All IsWritable tags
    → values (add_tags tags m) name ≡ values m name ++ values_of name tags
unfolding add_tags values_of
values-add_tags name [] m h = rw append-nil
values-add_tags name ((n, v) ∷ tags) m (ht, h) =
    rw (values-add_tags name tags (add_tag (n, v) m) h, values-add_tag name n v m ht.named)
      (ground (arith, append_assoc (values m name) (v ∷ []) (values_of name tags)))

-- A comment that is written as lines of tags, at least one, and then the lines of a description
-- that does not begin with a blank line or a tag, is parsed into tags that have under every name
-- the values of the lines of that name, one for each line and in their order, and no others; and
-- into the description without the spaces around it.
pub parse-block :
    (t : Text × Text) (tags : List (Text × Text)) (ls : List Text)
    → All IsWritable (t ∷ tags)
    → StartsText ls
    → All (Lacks newline) ls
    → (m : Tags) × (parse (join (newline ∷ []) (map render (t ∷ tags) ++ ls))
        ≡ (some m, trim_space (join (newline ∷ []) ls)))
      × ((name : Text) → values m name ≡ values_of name (t ∷ tags))
unfolding values get values_of
parse-block t tags ls h starts broken = (
  add_tags (t ∷ tags) [],
  parse_lines t tags ls h starts broken,
  λ name. values-add_tags name (t ∷ tags) [] h,
)
