-- ===== src/Postgis.antt =====
-- postgis/postgis.go: how an input becomes one parameter and the expression round it. The children
-- hold the two input forms (Wkt, GeoJson) and the operators of postgis/ops.go (Ops). Errors keep
-- the untrusted text whole; what is printed of it, clipped by `clip`, is not modelled.
pub mod Values
pub mod Wkt
pub mod GeoJson
pub mod Ops
pub mod Derived
pub mod Unwrap
pub mod Srid
pub mod Kinds
pub mod Shape
mod Samples
use pdbcore.Prelude.{not, Option, Text, if◌then◌else◌}
use pdbcore.Postgis.Values.{
  Flavour, is_spatial_flavour, Value, not_spatial_type, unsupported_input, Parsed, refused,
}
use pdbcore.Postgis.Wkt.{parse_wkt}
use pdbcore.Postgis.GeoJson.{Json, string, object, parse_geo_json}

-- The switch on the dynamic type of the input; `marshal` is json.Marshal, none an error of it.
abbrev pub parse_input : (Json → Option Text) → Json → Flavour → Parsed Value
parse_input marshal (string s) f = parse_wkt s f
parse_input marshal (object m) f = parse_geo_json marshal m f
parse_input marshal _ f = refused unsupported_input

-- Parse
unfoldable pub parse : (Json → Option Text) → Json → Flavour → Parsed Value
parse marshal v f =
    if not (is_spatial_flavour f) then refused not_spatial_type else parse_input marshal v f
