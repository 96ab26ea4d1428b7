-- ===== src/Smarttags.antt =====
-- smarttags/smarttags.go: the smart tags of a database comment.
pub mod Description
pub mod Block
mod Samples
use pdbcore.Prelude.{
  ℕ, Bool, true, false, not, ◌||◌, List, [], ◌∷◌, ◌++◌, Option, none, some, Text, codes, text_eq,
  is_empty, elem, map, lower_rune, ◌==◌, if◌then◌else◌, snoc,
}
use pdbcore.Prelude.Map.{Map, get, put}
use pdbcore.Prelude.Words.{trim_space, split, join, fields, cut_at, begins}

-- The values of each tag, one for each occurrence. A nil Tags is `none` where the program tells it
-- from an empty one.
abbrev pub Tags : Type 0
Tags = Map (List Text)

abbrev pub newline : ℕ
newline = 10

abbrev pub at_sign : ℕ
at_sign = b'@'

-- m[k], which is nil for a missing key.
unfoldable pub values : Tags → Text → List Text
values tags name = elim (get name tags) [ none ↦ [] | some vs ↦ vs ]

-- A blank or a tab.
unfoldable pub is_blank : ℕ → Bool
is_blank c = c == b' ' || c == 9

-- The name and the value of a trimmed tag line, without its mark.
unfoldable pub tag_of : Text → Text × Text
tag_of line =
    let (name, behind) = cut_at is_blank line in
    (name, elim behind [ none ↦ [] | some rest ↦ trim_space rest ])

-- tags[name] = append(tags[name], value), unless the name is empty.
unfoldable pub add_tag : Text × Text → Tags → Tags
add_tag (name, value) tags =
    if is_empty name then tags else put name (snoc (values tags name) value) tags

abbrev pub drop_mark : Text → Text
drop_mark [] = []
drop_mark (c ∷ s) = s

-- The loop over the lines: the tags, and the lines from the first other one on.
unfoldable pub tag_lines : List Text → Tags → Tags × List Text
tag_lines [] tags = (tags, [])
tag_lines (l ∷ ls) tags =
    let line = trim_space l in
    let blank = tag_lines ls tags in
    let tagged = tag_lines ls (add_tag (tag_of (drop_mark line)) tags) in
    if is_empty line then blank else if not (begins at_sign line) then (tags, l ∷ ls) else tagged

unfoldable pub parse : Text → Option Tags × Text
parse comment =
    let (tags, rest) = tag_lines (split newline comment) [] in
    if not (begins at_sign (trim_space comment))
    then (none, comment)
    else (some tags, trim_space (join (newline ∷ []) rest))

unfoldable pub strip : Text → Text
strip comment = (parse comment).1

-- Tags.Has
unfoldable pub has_tag : Tags → Text → Bool
has_tag tags name = elim (get name tags) [ none ↦ false | some vs ↦ true ]

-- The first non-empty text of a list, or "".
unfoldable pub first_nonempty : List Text → Text
first_nonempty [] = []
first_nonempty (v ∷ vs) = let rest = first_nonempty vs in if is_empty v then rest else v

-- Tags.First
unfoldable pub first : Tags → Text → Text
first tags name = first_nonempty (values tags name)

-- SplitList
unfoldable pub split_list : Text → List Text
unfolding is_blank
split_list v = fields (λ c. c == b',' || is_blank c) v

-- behaviorOmits
unfoldable pub behavior_omit : Text → Option Text
behavior_omit token =
    if text_eq token (codes "-insert")
    then some (codes "create")
    else if text_eq token (codes "-update")
    then some (codes "update")
    else if text_eq token (codes "-delete")
    then some (codes "delete")
    else if text_eq token (codes "-select")
    then some (codes "read")
    else if text_eq token (codes "-filter")
    then some (codes "filter")
    else if text_eq token (codes "-order")
    then some (codes "order")
    else none

-- The set of actions is the list of those that were put in.
unfoldable pub omit_actions : List Text → List Text
omit_actions [] = []
omit_actions (v ∷ vs) = map (map lower_rune) (split_list v) ++ omit_actions vs

unfoldable pub behavior_actions : List Text → List Text
behavior_actions [] = []
behavior_actions (tok ∷ toks) = elim (behavior_omit (map lower_rune tok)) [
  | none ↦ behavior_actions toks
  | some action ↦ action ∷ behavior_actions toks
]

unfoldable pub all_tokens : List Text → List Text
all_tokens [] = []
all_tokens (v ∷ vs) = split_list v ++ all_tokens vs

-- A bare @omit.
unfoldable pub omits_everything : Tags → Bool
omits_everything tags = elem [] (values tags (codes "omit"))

-- Tags.Omits: the actions; `omits_everything` is its second result.
unfoldable pub omits : Tags → List Text
omits tags =
    omit_actions (values tags (codes "omit"))
    ++ behavior_actions (all_tokens (values tags (codes "behavior")))
