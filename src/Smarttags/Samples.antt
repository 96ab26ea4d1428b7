-- ===== src/Smarttags/Samples.antt =====
-- Smart tags at small inputs.
use pdbcore.Prelude.{All, ◌≡◌, refl, [], ◌∷◌, ◌++◌, some, Text, codes, map, is_empty}
use pdbcore.Prelude.Words.{join, trim_space, begins, Lacks, is_space, split}
use pdbcore.Smarttags.{Tags, values, is_blank, newline, parse, strip, tag_lines}
use pdbcore.Smarttags.Description.{StartsText}
use pdbcore.Smarttags.Block.{render, values_of, IsWritable, parse-block}

abbrev comment : Text
comment = codes "@name people" ++ newline ∷ codes "@omit" ++ newline ∷ codes "All users"

described : strip comment ≡ codes "All users"
unfolding strip parse begins trim_space is_space join tag_lines split is_empty
described = refl

abbrev named : Text × Text
named = (codes "n", codes "pg")

abbrev omitted : Text × Text
omitted = (codes "o", codes "x")

named-IsWritable : IsWritable named
unfolding render is_empty trim_space is_blank is_space
named-IsWritable = record {
  named = refl;
  one_word = (refl, tt);
  trimmed_value = refl;
  trimmed_line = refl;
  one_line = (refl, (refl, (refl, (refl, (refl, tt)))));
}

omitted-IsWritable : IsWritable omitted
unfolding render is_empty trim_space is_blank is_space
omitted-IsWritable = record {
  named = refl;
  one_word = (refl, tt);
  trimmed_value = refl;
  trimmed_line = refl;
  one_line = (refl, (refl, (refl, (refl, tt))));
}

parse-block_example :
    (m : Tags) × (parse
        (join (newline ∷ []) (map render (named ∷ omitted ∷ []) ++ codes "All" ∷ []))
      ≡ (some m, trim_space (join (newline ∷ []) (codes "All" ∷ []))))
    × ((name : Text) → values m name ≡ values_of name (named ∷ omitted ∷ []))
parse-block_example =
    parse-block named (omitted ∷ []) (codes "All" ∷ []) (named-IsWritable, (omitted-IsWritable, tt))
      All-StartsText All-Lacks
  where
    All-StartsText : StartsText (codes "All" ∷ [])
    All-StartsText = unfold is_empty trim_space begins is_space in (refl, refl)

    All-Lacks : All (Lacks newline) (codes "All" ∷ [])
    All-Lacks = ((refl, (refl, (refl, tt))), tt)
