-- ===== src/Postgis/Unwrap.antt =====
-- What the unwrapping of a GeoJSON document accepts, and how deep it goes.
use pdbcore.Prelude.{
  ◌≡◌, refl, subst, Bool, Bool-cases, inl, inr, ltb, ◌∙◌, ℕ, zero, suc, true, false, [], ◌∷◌,
  Option, none, some, Text, codes, text_eq, is_empty, elem, if◌then◌else◌, if-all, arith,
}
use pdbcore.Postgis.Values.{
  Flavour, is_spatial_flavour, SpatialError, too_deep, Parsed, refused, parsed,
}
use pdbcore.Postgis.{parse}
use pdbcore.Postgis.GeoJson.{
  string, object, Items, Members, end, member, at, type_of, geo_json_types, validate_geometry,
  or_refused, ◌>>=◌, each_feature, collection, need_features, unwrap, explicit_srid, parse_geo_json,
  Json,
}

-- A geometry object: one of the types, with the array that the type requires.
pub record IsGeometry (g : Members) : Type 0 where
  pub known : elem (type_of g) geo_json_types ≡ true
  pub complete : validate_geometry g (type_of g) ≡ none

abbrev pub ParsedAll : {A : Type 0} → (A → Type 0) → Parsed A → Type 0
ParsedAll P (refused e) = Unit
ParsedAll P (parsed a) = P a

pub bind-ParsedAll :
    {A B : Type 0} (P : B → Type 0) (r : Parsed A) (k : A → Parsed B)
    → ((a : A) → ParsedAll P (k a))
    → ParsedAll P (r >>= k)
bind-ParsedAll P (refused e) k h = tt
bind-ParsedAll P (parsed a) k h = h a

or_refused-ParsedAll :
    (P : Members → Type 0) (o : Option SpatialError) (m : Members)
    → (o ≡ none → P m)
    → ParsedAll P (or_refused o m)
or_refused-ParsedAll P none m h = h refl
or_refused-ParsedAll P (some e) m h = tt

collection-IsGeometry : (geoms : Items) → IsGeometry (collection geoms)
unfolding elem text_eq type_of at validate_geometry
collection-IsGeometry geoms = record { known = refl; complete = refl }

unwrap-All : (k : ℕ) (m : Members) → ParsedAll IsGeometry (unwrap k m)
unfolding unwrap
unwrap-All zero m = tt
unwrap-All (suc k) m =
    if-all P (is_empty (type_of m)) _ _ (λ e. tt)
      (λ e.
        if-all P (elem (type_of m) geo_json_types) _ _
          (λ known.
            or_refused-ParsedAll IsGeometry (validate_geometry m (type_of m)) m
              (λ complete. record { known = known; complete = complete }))
          (λ e.
            if-all P (text_eq (type_of m) (codes "Feature")) _ _
              (λ e. bind-ParsedAll IsGeometry _ (unwrap k) (unwrap-All k))
              (λ e.
                if-all P (text_eq (type_of m) (codes "FeatureCollection")) _ _
                  (λ e. bind-ParsedAll IsGeometry (need_features (at (codes "features") m)) _ (λ fs.
                    bind-ParsedAll IsGeometry (each_feature (unwrap k) fs) _ collection-IsGeometry))
                  (λ e. tt))))
  where
    P : Parsed Members → Type 0
    P = ParsedAll IsGeometry

nonempty-elem : (s : Text) → elem s geo_json_types ≡ true → is_empty s ≡ false
unfolding elem text_eq is_empty
nonempty-elem [] h = cc
nonempty-elem (c ∷ s) h = refl

-- A geometry unwraps to itself, if there is a level left.
unwrap-geometry : (k : ℕ) (g : Members) → IsGeometry g → unwrap (suc k) g ≡ parsed g
unfolding unwrap
unwrap-geometry k g h = rw (nonempty-elem (type_of g) h.known, h.known, h.complete) refl

-- Whatever a document unwraps to is a geometry of the seven types with the array that its type
-- requires, and unwrapping that again, at any level, gives it back.
pub unwrap_idem :
    (k l : ℕ) (m g : Members) → unwrap k m ≡ parsed g → IsGeometry g × (unwrap (suc l) g ≡ parsed g)
unwrap_idem k l m g e =
    let is_geometry : IsGeometry g = subst (ParsedAll IsGeometry) e (unwrap-All k m) in
    (is_geometry, unwrap-geometry l g is_geometry)

abbrev pub feature : Members → Members
feature m =
    member (codes "type") (string (codes "Feature")) (member (codes "geometry") (object m) end)

-- A document inside as many features.
abbrev pub nested : ℕ → Members → Members
nested zero m = m
nested (suc d) m = feature (nested d m)

unwrap-feature : (k : ℕ) (m : Members) → unwrap (suc k) (feature m) ≡ unwrap k m
unfolding unwrap elem text_eq type_of at is_empty
unwrap-feature k m = refl

unwrap-nested :
    (k d : ℕ) (g : Members)
    → IsGeometry g
    → unwrap k (nested d g) ≡ (if ltb d k then parsed g else refused too_deep)
unwrap-nested zero d g h = unfold unwrap in ground arith
unwrap-nested (suc k) zero g h = unwrap-geometry k g h ∙ ground arith
unwrap-nested (suc k) (suc d) g h =
    unwrap-feature k (nested d g) ∙ unwrap-nested k d g h ∙ ground arith

explicit_srid-feature : (m : Members) → explicit_srid (feature m) ≡ none
unfolding explicit_srid at text_eq
explicit_srid-feature m = refl

parse_geo_json-nested :
    (marshal : Json → Option Text) (f : Flavour) (d : ℕ) (g : Members) (text : Text)
    → IsGeometry g
    → marshal (object g) ≡ some text
    → parse_geo_json marshal (nested (suc d) g) f ≡ (
        if ltb d 8
        then parsed
            (record { param = text; ctor = codes "ST_GeomFromGeoJSON"; flavour = f; srid = 4326 })
        else refused too_deep)
unfolding parse_geo_json
parse_geo_json-nested marshal f d g text h e = elim (Bool-cases (ltb d 8)) [
  | inl within ↦
      let k : unwrap 9 (nested (suc d) g) ≡ parsed g =
        unwrap-nested 9 (suc d) g h ∙ by_depth (parsed g) (refused too_deep) true within in
      rw (k, e, explicit_srid-feature (nested d g), within) refl
  | inr beyond ↦
      let k : unwrap 9 (nested (suc d) g) ≡ refused too_deep =
        unwrap-nested 9 (suc d) g h ∙ by_depth (parsed g) (refused too_deep) false beyond in
      rw (k, beyond) refl
]
  where
    by_depth :
        (x y : Parsed Members) (b : Bool)
        → ltb d 8 ≡ b
        → (if ltb (suc d) 9 then x else y) ≡ (if b then x else y)
    by_depth x y true l = ground arith
    by_depth x y false l = ground arith

-- A geometry of a known type with its array, inside at least one feature, is parsed if there are
-- eight features at most, to the encoding of the geometry in the system 4326, and refused as nested
-- too deeply otherwise; where the features have a type and a geometry only, the column is spatial
-- and the geometry can be encoded.
pub parse-nested :
    (marshal : Json → Option Text) (f : Flavour) (d : ℕ) (g : Members) (text : Text)
    → is_spatial_flavour f ≡ true
    → IsGeometry g
    → marshal (object g) ≡ some text
    → parse marshal (object (nested (suc d) g)) f ≡ (
        if ltb d 8
        then parsed
            (record { param = text; ctor = codes "ST_GeomFromGeoJSON"; flavour = f; srid = 4326 })
        else refused too_deep)
unfolding parse
parse-nested marshal f d g text spatial h e =
    rw spatial (parse_geo_json-nested marshal f d g text h e)
