-- ===== src/Postgis/Values.antt =====
-- The flavours of spatial types, the values on their way to SQL, and what can be wrong with them.
use pdbcore.Prelude.{
  trim_prefix, ℕ, Bool, true, false, not, ◌++◌, [], ◌∷◌, Text, codes, text_eq, ◌==◌, if◌then◌else◌,
}
use pdbcore.Prelude.Decimal.{decimal}

pub data Flavour : Type 0 where
  not_spatial geometry geography : Flavour

-- Flavour.String
unfoldable pub flavour_text : Flavour → Text
flavour_text geometry = codes "geometry"
flavour_text geography = codes "geography"
flavour_text not_spatial = []

-- Flavour.Spatial
abbrev pub is_spatial_flavour : Flavour → Bool
is_spatial_flavour not_spatial = false
is_spatial_flavour _ = true

-- Flavour.MetresNative, and the tests f == Geography
abbrev pub is_geography : Flavour → Bool
is_geography geography = true
is_geography _ = false

-- FlavourOf
unfoldable pub flavour_of : Text → Flavour
flavour_of pg_type =
    let base = trim_prefix pg_type (codes "_") in
    if text_eq base (codes "geometry")
    then geometry
    else if text_eq base (codes "geography")
    then geography
    else not_spatial

-- IsSpatial
unfoldable pub is_spatial : Text → Bool
is_spatial pg_type = is_spatial_flavour (flavour_of pg_type)

pub record Value : Type 0 where
  pub param : Text
  pub ctor : Text
  pub flavour : Flavour
  pub srid : ℕ

abbrev pub default_srid : ℕ
default_srid = 4326

-- The errors of Parse.
pub data SpatialError : Type 0 where
  not_spatial_type unsupported_input empty_value not_encodable too_deep : SpatialError
  type_missing geometry_missing features_missing feature_no_object : SpatialError
  geometries_missing : SpatialError
  not_wkt : Text → SpatialError
  unknown_type : Text → SpatialError
  coordinates_missing : Text → SpatialError

pub data Parsed (A : Type 0) : Type 0 where
  refused : SpatialError → Parsed A
  parsed : A → Parsed A

-- f(a, b): a call in SQL with its arguments written out.
abbrev pub call : Text → Text → Text
call name args = name ++ (b'(' ∷ (args ++ b')' ∷ []))

abbrev pub to_geography : Text → Text
to_geography expr = b'(' ∷ (expr ++ codes ")::geography")

-- ST_SetSRID, where the reference system is not 0.
unfoldable pub with_srid : ℕ → Text → Text
with_srid srid expr =
    if not (srid == 0)
    then call (codes "ST_SetSRID") (expr ++ (codes ", " ++ decimal srid))
    else expr

-- Value.SQL
unfoldable pub value_sql : Value → Text → Text
value_sql v placeholder =
    let expr = with_srid v.srid (call v.ctor placeholder) in
    if is_geography v.flavour then to_geography expr else expr
