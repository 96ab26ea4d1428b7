-- ===== src/Postgis/GeoJson.antt =====
-- parseGeoJSON and what it calls: the check of a GeoJSON document and its unwrapping.
use pdbcore.Prelude.{
  ℕ, zero, suc, ◌+◌, ◌*◌, ◌-◌, Bool, true, false, not, ◌&&◌, List, [], ◌∷◌, Option, none, some,
  Text, codes, text_eq, is_empty, elem, cut_prefix, all, ltb, if◌then◌else◌,
}
use Prim.Native.Nat.{◌%◌, ◌^◌}
use pdbcore.Prelude.Decimal.{is_digit}
use pdbcore.Postgis.Values.{
  Flavour, Value, default_srid, SpatialError, not_encodable, too_deep, type_missing,
  geometry_missing, features_missing, feature_no_object, geometries_missing, unknown_type,
  coordinates_missing, Parsed, refused, parsed,
}

-- What encoding/json decodes into an `any`; a number is the text of its float64.
mutual
  pub data Json : Type 0 where
    null : Json
    boolean : Bool → Json
    number : Text → Json
    string : Text → Json
    array : Items → Json
    object : Members → Json

  pub data Items : Type 0 where
    nil : Items
    cons : Json → Items → Items

  pub data Members : Type 0 where
    end : Members
    member : Text → Json → Members → Members

-- m[key], which is nil for a missing key.
unfoldable pub at : Text → Members → Json
at key end = null
at key (member k v m) = let rest = at key m in if text_eq k key then v else rest

-- The type assertions of the package.
abbrev pub string_or_empty : Json → Text
string_or_empty (string s) = s
string_or_empty _ = []

abbrev pub is_array : Json → Bool
is_array (array xs) = true
is_array _ = false

abbrev pub as_object : Json → Option Members
as_object (object m) = some m
as_object _ = none

-- typ, _ := m["type"].(string)
unfoldable pub type_of : Members → Text
type_of m = string_or_empty (at (codes "type") m)

abbrev pub geo_json_types : List Text
geo_json_types =
    codes "Point"
    ∷ codes "LineString"
    ∷ codes "Polygon"
    ∷ codes "MultiPoint"
    ∷ codes "MultiLineString"
    ∷ codes "MultiPolygon"
    ∷ codes "GeometryCollection"
    ∷ []

-- validateGeometry
unfoldable pub validate_geometry : Members → Text → Option SpatialError
validate_geometry m typ =
    if text_eq typ (codes "GeometryCollection")
    then (if is_array (at (codes "geometries") m) then none else some geometries_missing)
    else if is_array (at (codes "coordinates") m)
    then none
    else some (coordinates_missing typ)

abbrev pub or_refused : Option SpatialError → Members → Parsed Members
or_refused none m = parsed m
or_refused (some err) m = refused err

infixl 5 ◌>>=◌
abbrev pub ◌>>=◌ : {A B : Type 0} → Parsed A → (A → Parsed B) → Parsed B
refused err >>= k = refused err
parsed a >>= k = k a

-- v.(map[string]any), or an error.
abbrev pub need_object : Json → SpatialError → Parsed Members
need_object (object m) err = parsed m
need_object _ err = refused err

-- The loop over the features, by what is done with each.
unfoldable pub each_feature : (Members → Parsed Members) → Items → Parsed Items
each_feature f nil = parsed nil
each_feature f (cons item rest) = do
  fm ← need_object item feature_no_object
  g ← f fm
  geoms ← each_feature f rest
  parsed (cons (object g) geoms)

abbrev pub collection : Items → Members
collection geoms =
    member (codes "type") (string (codes "GeometryCollection"))
      (member (codes "geometries") (array geoms) end)

-- A non-empty array of features.
abbrev pub need_features : Json → Parsed Items
need_features (array (cons x xs)) = parsed (cons x xs)
need_features _ = refused features_missing

-- unwrapGeoJSON. The first argument is the number of levels that are left, maxUnwrapDepth + 1
-- minus depth: the code's own bound on its recursion.
unfoldable pub unwrap : ℕ → Members → Parsed Members
unwrap zero m = refused too_deep
unwrap (suc left) m =
    let typ = type_of m in
    let feature = (do
      geom ← need_object (at (codes "geometry") m) geometry_missing
      unwrap left geom) in
    let features = (do
      feats ← need_features (at (codes "features") m)
      geoms ← each_feature (unwrap left) feats
      parsed (collection geoms)) in
    if is_empty typ
    then refused type_missing
    else if elem typ geo_json_types
    then or_refused (validate_geometry m typ) m
    else if text_eq typ (codes "Feature")
    then feature
    else if text_eq typ (codes "FeatureCollection")
    then features
    else refused (unknown_type typ)

abbrev pub max_unwrap_depth : ℕ
max_unwrap_depth = 8

-- n = n*10 + int(r-'0') on Go's int, of 64 bits in two's complement.
unfoldable pub srid_number : ℕ → Text → ℕ
srid_number n [] = n
srid_number n (r ∷ s) = srid_number ((n * 10 + (r - 48)) % 2 ^ 64) s

-- n > 0
abbrev pub is_positive : ℕ → Bool
is_positive n = ltb 0 n && ltb n (2 ^ 63)

-- The loop over the runes behind a prefix: none if the outer loop goes on, otherwise the
-- function's result.
unfoldable pub number_behind : Text → Option (Option ℕ)
number_behind rest =
    let n = srid_number 0 rest in
    if not (all is_digit rest) then some none else if is_positive n then some (some n) else none

-- One prefix of the loop.
unfoldable pub srid_behind : Text → Text → Option (Option ℕ)
srid_behind name prefix = elim (cut_prefix name prefix) [
  | none ↦ none
  | some rest ↦ number_behind rest
]

-- The next round of the loop, unless a round has returned.
abbrev pub or_else_try : Option (Option ℕ) → Option (Option ℕ) → Option ℕ
or_else_try (some result) next = result
or_else_try none (some result) = result
or_else_try none none = none

-- The reference system that a name gives.
unfoldable pub srid_of_name : Text → Option ℕ
srid_of_name name =
    or_else_try (srid_behind name (codes "EPSG:"))
      (srid_behind name (codes "urn:ogc:def:crs:EPSG::"))

abbrev pub name_srid : Json → Option ℕ
name_srid (string name) = srid_of_name name
name_srid _ = none

-- explicitSRID
unfoldable pub explicit_srid : Members → Option ℕ
explicit_srid m = elim (as_object (at (codes "crs") m)) [
  | none ↦ none
  | some crs ↦ elim (as_object (at (codes "properties") crs)) [
    | none ↦ none
    | some props ↦ name_srid (at (codes "name") props)
  ]
]

abbrev pub need_text : Option Text → Parsed Text
need_text none = refused not_encodable
need_text (some s) = parsed s

-- parseGeoJSON
unfoldable pub parse_geo_json : (Json → Option Text) → Members → Flavour → Parsed Value
parse_geo_json marshal m f = do
  geom ← unwrap (suc max_unwrap_depth) m
  text ← need_text (marshal (object geom))
  parsed (record {
    param = text;
    ctor = codes "ST_GeomFromGeoJSON";
    flavour = f;
    srid = elim (explicit_srid m) [ none ↦ default_srid | some n ↦ n ];
  })
