-- ===== src/Postgis/Samples.antt =====
-- Inputs, documents and operators, small ones.
use pdbcore.Prelude.{
  trim_prefix, ◌≡◌, refl, true, false, ◌++◌, Option, some, Text, codes, any, cut_prefix, elem, find,
  is_empty, text_eq, upper_rune,
}
use pdbcore.Prelude.Decimal.{decimal}
use pdbcore.Prelude.Words.{trim_space, is_space}
use pdbcore.Postgis.{parse}
use pdbcore.Postgis.Values.{geography, Value, too_deep, refused, parsed, flavour_of}
use pdbcore.Postgis.Wkt.{
  parse_wkt, cut_ewkt_prefix, cut_fold, has_body, looks_like_wkt, starts_type, upper_to_ascii,
}
use pdbcore.Postgis.GeoJson.{
  Json, string, array, object, nil, cons, Members, end, member, unwrap, srid_of_name, collection,
  at, each_feature, type_of, validate_geometry,
}
use pdbcore.Postgis.Ops.{Op, op_by_name, fn, make_op, type_name}
use pdbcore.Postgis.Unwrap.{IsGeometry, nested, feature, parse-nested}
use pdbcore.Postgis.Srid.{srid_of_name-decimal}
use pdbcore.Postgis.Shape.{IsShaped, value_sql-parse}

abbrev point : Members
point =
    member (codes "type") (string (codes "Point")) (member (codes "coordinates") (array nil) end)

-- An encoder that knows no document.
abbrev marshal : Json → Option Text
marshal j = some (codes "{}")

abbrev wkt : Value
wkt = record {
  param = codes "POINT(1 2)";
  ctor = codes "ST_GeomFromEWKT";
  flavour = geography;
  srid = 4326;
}

wkt_is_parsed : parse marshal (string (codes " POINT(1 2)\n")) geography ≡ parsed wkt
unfolding parse parse_wkt is_empty trim_space is_space looks_like_wkt any starts_type cut_prefix
    cut_ewkt_prefix cut_fold upper_rune upper_to_ascii has_body trim_prefix
wkt_is_parsed = refl

value_sql-parse_example : IsShaped geography wkt
value_sql-parse_example =
    value_sql-parse marshal (string (codes " POINT(1 2)\n")) geography wkt wkt_is_parsed

point-IsGeometry : IsGeometry point
unfolding elem text_eq type_of at validate_geometry
point-IsGeometry = record { known = refl; complete = refl }

abbrev features : Members
features =
    member (codes "type") (string (codes "FeatureCollection"))
      (member (codes "features") (array (cons (object (feature point)) nil)) end)

features_come_off : unwrap 3 features ≡ parsed (collection (cons (object point) nil))
unfolding unwrap is_empty type_of at text_eq elem each_feature validate_geometry
features_come_off = refl

parse-nested_example : parse marshal (object (nested 9 point)) geography ≡ refused too_deep
parse-nested_example =
    parse-nested marshal geography 8 point (codes "{}") refl point-IsGeometry refl

srid_of_name-decimal_example :
    srid_of_name (codes "EPSG:" ++ decimal 18446744073709555978) ≡ some 4362
srid_of_name-decimal_example = srid_of_name-decimal 18446744073709555978

abbrev touches : Op
touches =
    make_op (codes "touches") type_name true false (some (fn (codes "ST_Touches")))
      (codes "Geometries touch at a boundary but interiors do not intersect (ST_Touches).")

find_touches : op_by_name (codes "touches") ≡ some touches
unfolding op_by_name find text_eq
find_touches = refl

flavour_test : flavour_of (codes "_geography") ≡ geography
unfolding flavour_of text_eq trim_prefix cut_prefix
flavour_test = refl
