-- ===== src/Postgis/Wkt.antt =====
-- parseWKT and what it calls: the check of a WKT or EWKT string.
use pdbcore.Prelude.{
  trim_prefix, ℕ, Bool, true, false, not, ◌&&◌, List, [], ◌∷◌, Option, none, some, Text, codes,
  is_empty, cut_prefix, map, all, any, upper_rune, ◌==◌, if◌then◌else◌,
}
use pdbcore.Prelude.Decimal.{is_digit}
use pdbcore.Prelude.Words.{trim_space, cut_at}
use pdbcore.Postgis.Values.{
  Flavour, is_geography, Value, default_srid, not_wkt, empty_value, Parsed, refused, parsed,
}

-- strings.EqualFold(s[:n], p) and s[n:], for p of ASCII: no letter of p folds to one of n bytes.
unfoldable pub cut_fold : Text → Text → Option Text
cut_fold s [] = some s
cut_fold [] (d ∷ p) = none
cut_fold (c ∷ s) (d ∷ p) =
    let rest = cut_fold s p in if upper_rune c == upper_rune d then rest else none

-- The number between the prefix and the semicolon, and what follows.
unfoldable pub after_srid : Text → Option Text
after_srid s =
    let (number, behind) = cut_at (λ c. c == b';') s in
    elim behind [
      | none ↦ none
      | some rest ↦
          if is_empty number
          then none
          else if all is_digit number
          then some (trim_space rest)
          else none
    ]

-- cutEWKTPrefix; none stands for (s, false).
unfoldable pub cut_ewkt_prefix : Text → Option Text
cut_ewkt_prefix s = elim (cut_fold s (codes "SRID=")) [ none ↦ none | some rest ↦ after_srid rest ]

abbrev pub wkt_types : List Text
wkt_types =
    codes "POINT"
    ∷ codes "LINESTRING"
    ∷ codes "POLYGON"
    ∷ codes "MULTIPOINT"
    ∷ codes "MULTILINESTRING"
    ∷ codes "MULTIPOLYGON"
    ∷ codes "GEOMETRYCOLLECTION"
    ∷ codes "CIRCULARSTRING"
    ∷ codes "COMPOUNDCURVE"
    ∷ codes "CURVEPOLYGON"
    ∷ codes "MULTICURVE"
    ∷ codes "MULTISURFACE"
    ∷ codes "POLYHEDRALSURFACE"
    ∷ codes "TRIANGLE"
    ∷ codes "TIN"
    ∷ []

-- unicode.ToUpper, as far as its result is ASCII; the dotless i and the long s become I and S.
-- Other code points stay, as they do not become ASCII.
unfoldable pub upper_to_ascii : ℕ → ℕ
upper_to_ascii c = if c == 0x131 then b'I' else if c == 0x17f then b'S' else upper_rune c

-- What may follow the keyword: coordinates or EMPTY, behind the mark of a dimension.
unfoldable pub has_body : Text → Bool
has_body s =
    let marked =
      trim_prefix (trim_prefix (trim_prefix (trim_space s) (codes "ZM")) (codes "Z")) (codes "M") in
    let rest = trim_space marked in
    elim (cut_prefix rest (codes "(")) [
      | some r ↦ true
      | none ↦ elim (cut_prefix rest (codes "EMPTY")) [ some r ↦ true | none ↦ false ]
    ]

unfoldable pub starts_type : Text → Text → Bool
starts_type upper t = elim (cut_prefix upper t) [ none ↦ false | some rest ↦ has_body rest ]

-- looksLikeWKT
unfoldable pub looks_like_wkt : Text → Bool
looks_like_wkt s =
    let upper = map upper_to_ascii (trim_space s) in any (starts_type upper) wkt_types

-- The body of the string and whether it carries its reference system.
abbrev pub body_of : Text → Option Text → Text × Bool
body_of trimmed none = (trimmed, false)
body_of trimmed (some rest) = (rest, true)

-- parseWKT
unfoldable pub parse_wkt : Text → Flavour → Parsed Value
parse_wkt s f =
    let trimmed = trim_space s in
    let (body, has_srid) = body_of trimmed (cut_ewkt_prefix trimmed) in
    if is_empty trimmed
    then refused empty_value
    else if not (looks_like_wkt body)
    then refused (not_wkt s)
    else parsed (record {
      param = trimmed;
      ctor = codes "ST_GeomFromEWKT";
      flavour = f;
      srid = if not has_srid && is_geography f then default_srid else 0;
    })
