-- ===== src/Postgis/Shape.antt =====
-- The SQL of a parsed value: what of the input reaches it.
use pdbcore.Prelude.{
  ◌≡◌, refl, subst, ℕ, Bool, true, false, not, ◌&&◌, ◌++◌, Option, none, some, Text, codes,
  is_empty, if◌then◌else◌, if-all, ◌==◌, arith, suc,
}
use pdbcore.Prelude.Decimal.{decimal}
use pdbcore.Prelude.Words.{trim_space}
use pdbcore.Postgis.{parse, parse_input}
use pdbcore.Postgis.Values.{
  Flavour, geometry, geography, not_spatial, is_geography, is_spatial_flavour, Value, default_srid,
  empty_value, not_wkt, refused, parsed, call, to_geography, with_srid, value_sql,
}
use pdbcore.Postgis.Wkt.{parse_wkt, cut_ewkt_prefix, looks_like_wkt, body_of}
use pdbcore.Postgis.GeoJson.{
  Json, null, boolean, number, string, array, object, Members, explicit_srid, parse_geo_json,
  unwrap, need_text, max_unwrap_depth,
}
use pdbcore.Postgis.Srid.{OptionAll, IsPositive, explicit_srid-OptionAll}
use pdbcore.Postgis.Unwrap.{ParsedAll, bind-ParsedAll}

-- The texts that stand round the placeholder: a constructor by itself, or in ST_SetSRID with a
-- number, and for geography a cast.
pub data Form : Type 0 where
  ewkt : Form
  ewkt_in_default : Form
  geo_json_in : ℕ → Form

abbrev pub form_expr : Form → Text → Text
form_expr ewkt ph = call (codes "ST_GeomFromEWKT") ph
form_expr ewkt_in_default ph =
    call (codes "ST_SetSRID") (call (codes "ST_GeomFromEWKT") ph ++ codes ", 4326")
form_expr (geo_json_in n) ph =
    call (codes "ST_SetSRID") (call (codes "ST_GeomFromGeoJSON") ph ++ (codes ", " ++ decimal n))

abbrev pub cast_to : Flavour → Text → Text
cast_to geography expr = to_geography expr
cast_to _ expr = expr

-- A bare WKT text gets a reference system for geography only; a document's is positive.
abbrev pub Allowed : Form → Flavour → Type 0
Allowed ewkt f = Unit
Allowed ewkt_in_default f = f ≡ geography
Allowed (geo_json_in n) f = IsPositive n

-- A value whose SQL at every placeholder is of one of the forms.
pub record IsShaped (f : Flavour) (v : Value) : Type 0 where
  pub form : Form
  pub allowed : Allowed form f
  pub sql : (ph : Text) → value_sql v ph ≡ cast_to f (form_expr form ph)

abbrev wkt_value : Text → Flavour → Bool → Value
wkt_value s f has_srid = record {
  param = trim_space s;
  ctor = codes "ST_GeomFromEWKT";
  flavour = f;
  srid = if not has_srid && is_geography f then default_srid else 0;
}

abbrev document_value : Text → Flavour → ℕ → Value
document_value text f n = record {
  param = text;
  ctor = codes "ST_GeomFromGeoJSON";
  flavour = f;
  srid = n;
}

wkt_value-IsShaped : (s : Text) (f : Flavour) (b : Bool) → IsShaped f (wkt_value s f b)
unfolding value_sql with_srid decimal
wkt_value-IsShaped s geometry true = record { form = ewkt; allowed = tt; sql = λ ph. refl }
wkt_value-IsShaped s geometry false = record { form = ewkt; allowed = tt; sql = λ ph. refl }
wkt_value-IsShaped s geography true = record { form = ewkt; allowed = tt; sql = λ ph. refl }
wkt_value-IsShaped s geography false = record {
  form = ewkt_in_default;
  allowed = refl;
  sql = λ ph. refl;
}
wkt_value-IsShaped s not_spatial true = record { form = ewkt; allowed = tt; sql = λ ph. refl }
wkt_value-IsShaped s not_spatial false = record { form = ewkt; allowed = tt; sql = λ ph. refl }

parse_wkt-IsShaped : (s : Text) (f : Flavour) → ParsedAll (IsShaped f) (parse_wkt s f)
unfolding parse_wkt
parse_wkt-IsShaped s f = by_body (body_of (trim_space s) (cut_ewkt_prefix (trim_space s)))
  where
    by_body :
        (b : Text × Bool)
        → ParsedAll (IsShaped f) (
            if is_empty (trim_space s)
            then refused empty_value
            else if not (looks_like_wkt b.0)
            then refused (not_wkt s)
            else parsed (wkt_value s f b.1))
    by_body b =
        if-all (ParsedAll (IsShaped f)) (is_empty (trim_space s)) _ _ (λ e. tt)
          (λ e.
            if-all (ParsedAll (IsShaped f)) (not (looks_like_wkt b.0)) _ _ (λ e. tt)
              (λ e. wkt_value-IsShaped s f b.1))

positive_ne : (n : ℕ) → IsPositive n → (n == 0) ≡ false
positive_ne n (h, k) = ground arith

numbered_sql :
    (text : Text) (f : Flavour) (n : ℕ) (ph : Text)
    → IsPositive n
    → value_sql (document_value text f n) ph ≡ cast_to f (form_expr (geo_json_in n) ph)
unfolding value_sql with_srid
numbered_sql text geometry n ph h = rw (positive_ne n h) refl
numbered_sql text geography n ph h = rw (positive_ne n h) refl
numbered_sql text not_spatial n ph h = rw (positive_ne n h) refl

numbered-IsShaped :
    (text : Text) (f : Flavour) (n : ℕ) → IsPositive n → IsShaped f (document_value text f n)
numbered-IsShaped text f n h = record {
  form = geo_json_in n;
  allowed = h;
  sql = λ ph. numbered_sql text f n ph h;
}

document_value-IsShaped :
    (text : Text) (f : Flavour) (o : Option ℕ)
    → OptionAll IsPositive o
    → IsShaped f (document_value text f (elim o [ none ↦ default_srid | some n ↦ n ]))
document_value-IsShaped text f none h =
    numbered-IsShaped text f default_srid (omega arith, omega arith)
document_value-IsShaped text f (some n) h = numbered-IsShaped text f n h

parse_geo_json-IsShaped :
    (marshal : Json → Option Text) (m : Members) (f : Flavour)
    → ParsedAll (IsShaped f) (parse_geo_json marshal m f)
unfolding parse_geo_json
parse_geo_json-IsShaped marshal m f =
    bind-ParsedAll (IsShaped f) (unwrap (suc max_unwrap_depth) m) _ (λ geom.
      bind-ParsedAll (IsShaped f) (need_text (marshal (object geom))) _
        (λ text. document_value-IsShaped text f (explicit_srid m) (explicit_srid-OptionAll m)))

parse_input-IsShaped :
    (marshal : Json → Option Text) (v : Json) (f : Flavour)
    → ParsedAll (IsShaped f) (parse_input marshal v f)
parse_input-IsShaped marshal (string s) f = parse_wkt-IsShaped s f
parse_input-IsShaped marshal (object m) f = parse_geo_json-IsShaped marshal m f
parse_input-IsShaped marshal null f = tt
parse_input-IsShaped marshal (boolean b) f = tt
parse_input-IsShaped marshal (number t) f = tt
parse_input-IsShaped marshal (array xs) f = tt

parse-IsShaped :
    (marshal : Json → Option Text) (v : Json) (f : Flavour)
    → ParsedAll (IsShaped f) (parse marshal v f)
unfolding parse
parse-IsShaped marshal v f =
    if-all (ParsedAll (IsShaped f)) (not (is_spatial_flavour f)) _ _ (λ e. tt)
      (λ e. parse_input-IsShaped marshal v f)

-- Whatever an input parses to, the SQL of the value is, for every placeholder, one of three
-- texts round it, cast where the column is of geography: the constructor for EWKT; the same in
-- the system 4326, for geography only; or the constructor for GeoJSON in the system of a number
-- above 0 and below 2 ^ 63. Of the input no more than that choice and that number is in the SQL.
pub value_sql-parse :
    (marshal : Json → Option Text) (v : Json) (f : Flavour) (val : Value)
    → parse marshal v f ≡ parsed val
    → IsShaped f val
value_sql-parse marshal v f val e = subst (ParsedAll (IsShaped f)) e (parse-IsShaped marshal v f)
