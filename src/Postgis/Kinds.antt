-- ===== src/Postgis/Kinds.antt =====
-- How the operands that a compiler is told to parse agree with what the operators render.
use pdbcore.Prelude.{
  ◌≡◌, refl, List, [], ◌∷◌, ◌++◌, some, Text, codes, text_eq, text_eq_sound, elem, find_sound,
  find-All, All,
}
use pdbcore.Postgis.Values.{call}
use pdbcore.Postgis.Ops.{
  Op, ArgKind, arg_geometry, arg_dwithin, arg_bbox, arg_boolean, ops, op_by_name, kind, render,
  binary, fn,
}

-- What an operator of a kind renders to, for all operands.
abbrev pub Rendered : ArgKind → Op → Type 0
Rendered arg_boolean o = (col geom : Text) (extra : List Text) → render o col geom extra ≡ some []
Rendered arg_bbox o =
    (sign : Text) × ((col geom : Text) (extra : List Text)
      → render o col geom extra ≡ some (col ++ (codes " " ++ (sign ++ (codes " " ++ geom)))))
Rendered arg_geometry o =
    (name : Text) × ((col geom : Text) (extra : List Text)
      → render o col geom extra ≡ some (call name (col ++ (codes ", " ++ geom))))
Rendered arg_dwithin o =
    (prefix : Text) × ((col geom distance : Text) (extra : List Text)
      → render o col geom (distance ∷ extra)
        ≡ some (
            prefix
            ++ call (codes "ST_DWithin")
                (col ++ (codes ", " ++ (geom ++ (codes ", " ++ distance))))))

ops-All : All (λ o. Rendered (kind o) o) ops
unfolding kind elem text_eq render binary fn
ops-All = (
  (codes "&&", λ col geom extra. refl),
  (
    (codes "~", λ col geom extra. refl),
    (
      (codes "@", λ col geom extra. refl),
      (
        (codes "ST_Intersects", λ col geom extra. refl),
        (
          (codes "ST_Disjoint", λ col geom extra. refl),
          (
            (codes "ST_Contains", λ col geom extra. refl),
            (
              (codes "ST_ContainsProperly", λ col geom extra. refl),
              (
                (codes "ST_Within", λ col geom extra. refl),
                (
                  (codes "ST_Covers", λ col geom extra. refl),
                  (
                    (codes "ST_CoveredBy", λ col geom extra. refl),
                    (
                      (codes "ST_Crosses", λ col geom extra. refl),
                      (
                        (codes "ST_Overlaps", λ col geom extra. refl),
                        (
                          (codes "ST_Touches", λ col geom extra. refl),
                          (
                            (codes "ST_Equals", λ col geom extra. refl),
                            (
                              ([], λ col geom distance extra. refl),
                              (
                                (codes "NOT ", λ col geom distance extra. refl),
                                (λ col geom extra. refl, tt),
                              ),
                            ),
                          ),
                        ),
                      ),
                    ),
                  ),
                ),
              ),
            ),
          ),
        ),
      ),
    ),
  ),
)

-- An operator that is found by a name has that name, and renders as its kind says, whatever the
-- operands: a Boolean's to the empty text, a box's to an infix sign, a geometry's to a function
-- of two arguments, and one with a distance, if there is a placeholder for it, to ST_DWithin
-- behind a prefix.
pub render-op_by_name :
    (name : Text) (o : Op) → op_by_name name ≡ some o → (o.name ≡ name) × Rendered (kind o) o
unfolding op_by_name
render-op_by_name name o e = (
  text_eq_sound o.name name (find_sound _ ops o e),
  find-All (λ o. Rendered (kind o) o) _ ops o ops-All e,
)
