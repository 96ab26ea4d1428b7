-- ===== src/Smarttags/Description.antt =====
-- What is left of a comment when its tags are taken off.
use pdbcore.Prelude.{
  ◌≡◌, refl, ◌∙◌, false, not, List, [], ◌∷◌, Option, none, arith, Text, is_empty, if-all,
}
use pdbcore.Prelude.Words.{
  trim_space, trim_space_idem, split, join, begins, begins-trim_space-append,
}
use pdbcore.Smarttags.{Tags, newline, at_sign, tag_lines, tag_of, add_tag, drop_mark, parse, strip}

-- The rest of the lines begins with a line of its own, one that is neither blank nor a tag.
abbrev pub StartsText : List Text → Type 0
StartsText [] = Unit
StartsText (l ∷ ls) = (is_empty (trim_space l) ≡ false) × (begins at_sign (trim_space l) ≡ false)

tag_lines-StartsText : (ls : List Text) (tags : Tags) → StartsText (tag_lines ls tags).1
unfolding tag_lines
tag_lines-StartsText [] tags = tt
tag_lines-StartsText (l ∷ ls) tags =
    if-all (λ (r : Tags × List Text). StartsText r.1) (is_empty (trim_space l)) _ _
      (λ e. tag_lines-StartsText ls tags)
      (λ e.
        if-all (λ (r : Tags × List Text). StartsText r.1) (not (begins at_sign (trim_space l))) _ _
          (λ e'. (e, ground arith))
          (λ e'. tag_lines-StartsText ls (add_tag (tag_of (drop_mark (trim_space l))) tags)))

join-StartsText :
    (ls : List Text) → StartsText ls → begins at_sign (trim_space (join (newline ∷ []) ls)) ≡ false
unfolding join
join-StartsText [] h = unfold trim_space begins in refl
join-StartsText (l ∷ []) (h, k) = k
join-StartsText (l ∷ m ∷ ls) (h, k) =
    begins-trim_space-append at_sign l (newline ∷ join (newline ∷ []) (m ∷ ls)) h ∙ k

-- A stripped comment holds no tag block any more: it does not begin with the mark, spaces aside.
strip_no_tag : (comment : Text) → begins at_sign (trim_space (strip comment)) ≡ false
unfolding strip parse
strip_no_tag comment =
    if-all (λ (r : Option Tags × Text). begins at_sign (trim_space r.1) ≡ false)
      (not (begins at_sign (trim_space comment))) _ _ (λ e. ground arith)
      (λ e.
        rw trim_space_idem (join-StartsText _ (tag_lines-StartsText (split newline comment) [])))

parse-plain :
    (comment : Text) → begins at_sign (trim_space comment) ≡ false → parse comment ≡ (none, comment)
unfolding parse
parse-plain comment h = rw h

-- Stripping takes off the whole tag block: what is left has no tags, and stripping it again
-- changes nothing.
pub parse-strip : (comment : Text) → parse (strip comment) ≡ (none, strip comment)
parse-strip comment = parse-plain (strip comment) (strip_no_tag comment)
