-- ===== src/Inflect/Samples.antt =====
-- Names of tables and labels, with the tables of package unicode for ASCII.
use pdbcore.Prelude.{
  ◌≡◌, refl, false, ◌&&◌, ◌||◌, [], ◌∷◌, codes, leb, upper_rune, text_eq, cut_prefix, is_empty, All,
  elem, if◌then◌else◌, lower_rune,
}
use pdbcore.Inflect.{
  Unicode, upper_camel, lower_camel, lower_first, camel_runes, is_separator, enum_value, enum_runes,
  enum_rune, last_byte, by_columns,
}
use pdbcore.Inflect.Nouns.{
  irregular, irregular_plurals, irregular_singulars, has_suffix, singularize, pluralize, drop_last,
  drop, regular_singular, regular_plural, is_vowel, behind_consonant,
}
use pdbcore.Inflect.EnumNames.{IsEnumRune, IsGuarded, enum_value-IsGuarded}
use pdbcore.Inflect.Plural.{singularize-pluralize}
use pdbcore.Prelude.Words.{join}

abbrev ascii : Unicode
ascii = record {
  is_letter = λ c. (leb b'a' c && leb c b'z') || (leb b'A' c && leb c b'Z');
  is_upper = λ c. leb b'A' c && leb c b'Z';
  is_lower = λ c. leb b'a' c && leb c b'z';
  is_decimal = λ c. leb b'0' c && leb c b'9';
  to_upper = λ c. if leb b'a' c && leb c b'z' then upper_rune c else c;
}

enum_value_test : enum_value ascii (codes "3 inProgress") ≡ codes "_3_IN_PROGRESS"
unfolding enum_value enum_runes enum_rune upper_rune last_byte
enum_value_test = refl

enum_value-IsGuarded_example :
    All (IsEnumRune ascii) (enum_value ascii (codes "3 inProgress"))
    × IsGuarded ascii (enum_value ascii (codes "3 inProgress"))
enum_value-IsGuarded_example = enum_value-IsGuarded ascii (codes "3 inProgress") refl

no_plural : irregular (codes "category") irregular_plurals ≡ []
unfolding irregular text_eq has_suffix cut_prefix
no_plural = refl

no_singular : irregular (codes "category") irregular_singulars ≡ []
unfolding irregular text_eq has_suffix cut_prefix
no_singular = refl

no_e : has_suffix (codes "category") (codes "e") ≡ false
unfolding has_suffix cut_prefix
no_e = refl

singularize-pluralize_example : singularize (pluralize (codes "category")) ≡ codes "category"
singularize-pluralize_example = singularize-pluralize (codes "category") no_plural no_singular no_e

pluralize_test : pluralize (codes "category") ≡ codes "categories"
unfolding pluralize is_empty irregular text_eq has_suffix cut_prefix regular_plural behind_consonant
    drop is_vowel elem drop_last
pluralize_test = refl

-- A word that ends in e loses it.
singularize_test : singularize (pluralize (codes "house")) ≡ codes "hous"
unfolding singularize is_empty irregular text_eq pluralize has_suffix cut_prefix regular_plural
    regular_singular drop_last drop
singularize_test = refl

lower_camel_test : lower_camel ascii (codes "user_id") ≡ codes "userId"
unfolding lower_camel lower_first upper_camel camel_runes is_separator upper_rune lower_rune
lower_camel_test = refl

by_columns_test : by_columns ascii (codes "email" ∷ codes "tenant" ∷ []) ≡ codes "EmailAndTenant"
unfolding by_columns join upper_camel camel_runes is_separator upper_rune
by_columns_test = refl
