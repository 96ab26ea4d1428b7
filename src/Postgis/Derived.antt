-- ===== src/Postgis/Derived.antt =====
-- postgis/ops.go: bounding boxes, the reading of a column as GeoJSON, and the derived accessors.
use pdbcore.Prelude.{
  zero, suc, Bool, true, false, ◌++◌, List, [], ◌∷◌, Option, Text, codes, text_eq, find, map,
  if◌then◌else◌,
}
use pdbcore.Prelude.Int.{ℤ, pos, negsuc}
use pdbcore.Prelude.Decimal.{decimal}
use pdbcore.Postgis.Values.{Flavour, is_geography, default_srid, call, to_geography}
use pdbcore.Postgis.Ops.{type_name}

abbrev pub default_when_zero : ℤ → ℤ
default_when_zero (pos zero) = pos default_srid
default_when_zero z = z

-- The verb %d.
unfoldable pub signed_decimal : ℤ → Text
signed_decimal (pos n) = decimal n
signed_decimal (negsuc n) = b'-' ∷ decimal (suc n)

-- BBoxSQL
unfoldable pub bbox_sql : Text → Text → Text → Text → ℤ → Flavour → Text
bbox_sql min_x min_y max_x max_y srid f =
    let number = signed_decimal (default_when_zero srid) in
    let corners =
      min_x ++ (codes ", " ++ (min_y ++ (codes ", " ++ (max_x ++ (codes ", " ++ max_y))))) in
    let expr = call (codes "ST_MakeEnvelope") (corners ++ (codes ", " ++ number)) in
    if is_geography f then to_geography expr else expr

-- OutputSQL
unfoldable pub output_sql : Text → Text
output_sql ref = call (codes "ST_AsGeoJSON") ref ++ codes "::jsonb"

pub record Derived : Type 0 where
  pub suffix : Text
  pub field_type : Text
  pub description : Text
  pub geo_json : Bool
  pub sql : Text → Flavour → Text

-- A function that has an overload for geography, and one that the column is cast for.
abbrev pub both : Text → Text → Flavour → Text
both name ref f = call name ref

abbrev pub geometry_only : Text → Text → Flavour → Text
geometry_only name ref f =
    if is_geography f then call name (ref ++ codes "::geometry") else call name ref

abbrev pub make_derived : Text → Text → Bool → (Text → Flavour → Text) → Text → Derived
make_derived suffix field_type geo_json sql description = record {
  suffix = suffix;
  field_type = field_type;
  description = description;
  geo_json = geo_json;
  sql = sql;
}

-- Deriveds
abbrev pub deriveds : List Derived
deriveds =
    make_derived (codes "Area") (codes "Float") false (both (codes "ST_Area")) (
      codes "Area of the geometry (ST_Area): square metres for geography, SRID units for geometry.")
    ∷ make_derived (codes "Length") (codes "Float") false (both (codes "ST_Length")) (
        codes "Length/perimeter of the geometry (ST_Length): "
        ++ codes "metres for geography, SRID units for geometry.")
    ∷ make_derived (codes "Perimeter") (codes "Float") false (geometry_only (codes "ST_Perimeter"))
        (codes "Perimeter of a polygonal geometry (ST_Perimeter).")
    ∷ make_derived (codes "Centroid") type_name true (geometry_only (codes "ST_Centroid"))
        (codes "Centroid of the geometry (ST_Centroid), as GeoJSON.")
    ∷ make_derived (codes "Envelope") type_name true (geometry_only (codes "ST_Envelope"))
        (codes "Bounding box of the geometry (ST_Envelope), as GeoJSON.")
    ∷ make_derived (codes "Srid") (codes "Int") false (both (codes "ST_SRID"))
        (codes "Spatial reference identifier of the value (ST_SRID).")
    ∷ make_derived (codes "GeometryType") (codes "String") false
        (geometry_only (codes "ST_GeometryType"))
        (codes "Geometry type name, e.g. ST_Point (ST_GeometryType).")
    ∷ make_derived (codes "IsValid") (codes "Boolean") false (geometry_only (codes "ST_IsValid"))
        (codes "Whether the geometry is topologically valid (ST_IsValid).")
    ∷ []

-- DerivedBySuffix
unfoldable pub derived_by_suffix : Text → Option Derived
derived_by_suffix suffix = find (λ (d : Derived). text_eq d.suffix suffix) deriveds

-- Derived.SQL
unfoldable pub derived_sql : Derived → Text → Flavour → Text
derived_sql d ref f = let expr = d.sql ref f in if d.geo_json then output_sql expr else expr

-- TransformSQL behind its test of the number.
abbrev pub transform_positive : Text → ℤ → Flavour → Text
transform_positive ref (negsuc n) f = ref
transform_positive ref (pos zero) f = ref
transform_positive ref (pos (suc n)) f =
    let number = codes ", " ++ decimal (suc n) in
    if is_geography f
    then call (codes "ST_Transform") (ref ++ (codes "::geometry" ++ number))
    else call (codes "ST_Transform") (ref ++ number)

unfoldable pub transform_sql : Text → ℤ → Flavour → Text
transform_sql ref srid f = transform_positive ref srid f

-- SimplifySQL
unfoldable pub simplify_sql : Text → Text → Flavour → Text
simplify_sql ref tolerance f =
    let more = codes ", " ++ tolerance in
    if is_geography f
    then call (codes "ST_SimplifyPreserveTopology") (ref ++ (codes "::geometry" ++ more))
    else call (codes "ST_SimplifyPreserveTopology") (ref ++ more)

-- DistanceSQL
unfoldable pub distance_sql : Text → Text → Text
distance_sql col geom = call (codes "ST_Distance") (col ++ (codes ", " ++ geom))

-- KNNSQL
unfoldable pub knn_sql : Text → Text → Text
knn_sql col geom = col ++ (codes " <-> " ++ geom)

-- DerivedSuffixes
unfoldable pub derived_suffixes : List Text
derived_suffixes = map (λ (d : Derived). d.suffix) deriveds
