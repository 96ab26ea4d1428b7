-- ===== src/Postgis/Ops.antt =====
-- postgis/ops.go: the table of spatial filter operators and the SQL that each renders to.
use pdbcore.Prelude.{
  Bool, true, false, ◌++◌, List, [], ◌∷◌, Option, none, some, Text, codes, text_eq, elem, find, map,
  if◌then◌else◌,
}
use pdbcore.Prelude.Words.{join}
use pdbcore.Postgis.Values.{call}

-- A predicate from a column, a geometry and further placeholders; none is the panic of extra[0].
abbrev pub Renderer : Type 0
Renderer = Text → Text → List Text → Option Text

pub record Op : Type 0 where
  pub name : Text
  pub arg : Text
  pub index : Bool
  pub geography_overload : Bool
  pub description : Text
  pub renderer : Option Renderer

pub data ArgKind : Type 0 where
  arg_geometry arg_dwithin arg_bbox arg_boolean : ArgKind

-- Op.Kind
unfoldable pub kind : Op → ArgKind
kind o =
    if elem o.name (codes "dwithin" ∷ codes "beyond" ∷ [])
    then arg_dwithin
    else if elem o.name
        (codes "bboxIntersects" ∷ codes "bboxContains" ∷ codes "bboxContainedBy" ∷ [])
    then arg_bbox
    else if text_eq o.name (codes "isNull")
    then arg_boolean
    else arg_geometry

unfoldable pub binary : Text → Renderer
binary op col geom extra = some (col ++ (codes " " ++ (op ++ (codes " " ++ geom))))

unfoldable pub fn : Text → Renderer
fn name col geom extra = some (call name (col ++ (codes ", " ++ geom)))

-- ST_DWithin behind a prefix: the two operators that take a distance.
abbrev pub with_distance : Text → Renderer
with_distance prefix col geom [] = none
with_distance prefix col geom (distance ∷ extra) = some (
    prefix ++ call (codes "ST_DWithin") (col ++ (codes ", " ++ (geom ++ (codes ", " ++ distance)))))

abbrev pub type_name : Text
type_name = codes "GeoJSON"

abbrev pub make_op : Text → Text → Bool → Bool → Option Renderer → Text → Op
make_op name arg index geography renderer description = record {
  name = name;
  arg = arg;
  index = index;
  geography_overload = geography;
  description = description;
  renderer = renderer;
}

-- Ops
abbrev pub ops : List Op
ops =
    make_op (codes "bboxIntersects") (codes "BBoxInput") true true (some (binary (codes "&&"))) (
      codes "Bounding boxes overlap (&&). Index-usable; the cheap first pass for viewport queries.")
    ∷ make_op (codes "bboxContains") (codes "BBoxInput") true false (some (binary (codes "~")))
        (codes "This column's bounding box contains the given box (~).")
    ∷ make_op (codes "bboxContainedBy") (codes "BBoxInput") true false (some (binary (codes "@")))
        (codes "This column's bounding box is contained by the given box (@).")
    ∷ make_op (codes "intersects") type_name true true (some (fn (codes "ST_Intersects")))
        (codes "Geometries share any portion of space (ST_Intersects).")
    ∷ make_op (codes "disjoint") type_name false false (some (fn (codes "ST_Disjoint")))
        (codes "Geometries share no space (ST_Disjoint). Cannot use an index.")
    ∷ make_op (codes "contains") type_name true false (some (fn (codes "ST_Contains")))
        (codes "This column's geometry contains the given geometry (ST_Contains).")
    ∷ make_op (codes "containsProperly") type_name true false
        (some (fn (codes "ST_ContainsProperly")))
        (codes "Contains with no boundary contact (ST_ContainsProperly).")
    ∷ make_op (codes "within") type_name true false (some (fn (codes "ST_Within")))
        (codes "This column's geometry lies within the given geometry (ST_Within).")
    ∷ make_op (codes "covers") type_name true true (some (fn (codes "ST_Covers")))
        (codes "No point of the given geometry lies outside this column (ST_Covers).")
    ∷ make_op (codes "coveredBy") type_name true true (some (fn (codes "ST_CoveredBy")))
        (codes "No point of this column lies outside the given geometry (ST_CoveredBy).")
    ∷ make_op (codes "crosses") type_name true false (some (fn (codes "ST_Crosses")))
        (codes "Geometries cross (ST_Crosses).")
    ∷ make_op (codes "overlaps") type_name true false (some (fn (codes "ST_Overlaps")))
        (codes "Geometries overlap at the same dimension (ST_Overlaps).")
    ∷ make_op (codes "touches") type_name true false (some (fn (codes "ST_Touches")))
        (codes "Geometries touch at a boundary but interiors do not intersect (ST_Touches).")
    ∷ make_op (codes "equals") type_name false false (some (fn (codes "ST_Equals")))
        (codes "Geometries are spatially equal, ignoring vertex order (ST_Equals).")
    ∷ make_op (codes "dwithin") (codes "DWithinInput") true true (some (with_distance [])) (
        codes "Within the given distance of the geometry (ST_DWithin). "
        ++ codes "Distance is metres for geography, SRID units for geometry.")
    ∷ make_op (codes "beyond") (codes "DWithinInput") false true
        (some (with_distance (codes "NOT ")))
        (codes "Further than the given distance from the geometry (ST_DWithin negated).")
    ∷ make_op (codes "isNull") (codes "Boolean") false false none
        (codes "Test whether the column is null.")
    ∷ []

-- OpByName
unfoldable pub op_by_name : Text → Option Op
op_by_name name = find (λ (o : Op). text_eq o.name name) ops

abbrev pub render_with : Option Renderer → Renderer
render_with none col geom extra = some []
render_with (some r) col geom extra = r col geom extra

-- Op.Render
unfoldable pub render : Op → Renderer
render o = render_with o.renderer

-- OpNames
unfoldable pub op_names : List Text
op_names = map (λ (o : Op). o.name) ops

-- OpsDoc
unfoldable pub ops_doc : Text
ops_doc =
    join [] (map (λ (o : Op). call o.name o.arg ++ (codes ": " ++ (o.description ++ 10 ∷ []))) ops)
