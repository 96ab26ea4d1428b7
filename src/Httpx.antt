-- ===== src/Httpx.antt =====
-- httpx/cors.go and httpx/gzip.go: what is put into a response's headers, and who answers. The
-- next handler and strconv.ParseFloat are parameters. A header map has canonical names; a response
-- is its status, its headers and whether its body is compressed.
pub mod Cors
pub mod Coding
pub mod Serve
mod Samples
use pdbcore.Prelude.{
  ℕ, Bool, true, false, not, ◌||◌, ◌&&◌, List, [], ◌∷◌, ◌++◌, none, some, Text, codes, text_eq,
  is_empty, cut_prefix, snoc, ◌==◌, if◌then◌else◌,
}
use pdbcore.Prelude.Map.{get, put}
use pdbcore.Prelude.Words.{trim_space, split, cut_at}
use pdbcore.Auth.Headers.{HeaderMap, header_get}

pub record Request : Type 0 where
  pub method : Text
  pub header : HeaderMap

pub record Response : Type 0 where
  pub status : ℕ
  pub header : HeaderMap
  pub is_compressed : Bool

-- A handler goes on with what has been written into the response so far.
abbrev pub Handler : Type 0
Handler = Request → Response → Response

-- w.Header().Set
abbrev pub set : Text → Text → Response → Response
set name value w = record w { header = put name (value ∷ []) w.header }

-- w.Header().Add
abbrev pub add : Text → Text → Response → Response
add name value w = record w {
  header = put name (snoc (elim (get name w.header) [ none ↦ [] | some vs ↦ vs ]) value) w.header;
}

abbrev pub no_content : Response → Response
no_content w = record w { status = 204 }

-- OriginAllowed
unfoldable pub origin_allowed : List Text → Text → Bool
origin_allowed [] origin = false
origin_allowed (o ∷ os) origin =
    let rest = origin_allowed os origin in
    if text_eq o (codes "*") || text_eq o origin then true else rest

-- The two headers that name the origin.
unfoldable pub allow_origin : Text → Response → Response
allow_origin origin w =
    set (codes "Vary") (codes "Origin") (set (codes "Access-Control-Allow-Origin") origin w)

-- CORS
unfoldable pub cors : List Text → Handler → Handler
cors origins next r w =
    let origin = header_get r.header (codes "Origin") in
    next r
      (if not (is_empty origin) && origin_allowed origins origin then allow_origin origin w else w)

-- Preflight
unfoldable pub preflight : List Text → Text → Handler
preflight origins allow_methods r w =
    let origin = header_get r.header (codes "Origin") in
    let asked = header_get r.header (codes "Access-Control-Request-Headers") in
    let named = set (codes "Access-Control-Allow-Methods") allow_methods (allow_origin origin w) in
    let headed =
      if not (is_empty asked)
      then set (codes "Access-Control-Allow-Headers") asked named
      else named in
    if is_empty origin || not (origin_allowed origins origin)
    then no_content w
    else no_content (set (codes "Access-Control-Max-Age") (codes "600") headed)

-- CORSWithPreflight
unfoldable pub cors_with_preflight : List Text → Text → Handler → Handler
cors_with_preflight origins allow_methods next r w =
    if text_eq r.method (codes "OPTIONS")
      && not (is_empty (header_get r.header (codes "Access-Control-Request-Method")))
    then preflight origins allow_methods r w
    else cors origins next r w

-- strings.Cut at a semicolon: what stands in front of it and what behind.
unfoldable pub cut_params : Text → Text × Text
cut_params part =
    let (token, behind) = cut_at (λ c. c == b';') part in
    (token, elim behind [ none ↦ [] | some rest ↦ rest ])

module _ (parses_to_zero : Text → Bool) where
  -- A quality of 0 excludes the coding: `parses_to_zero` tells whether ParseFloat gives 0.
  unfoldable pub is_excluded : Text → Bool
  is_excluded params = elim (cut_prefix (trim_space params) (codes "q=")) [
    | none ↦ false
    | some q ↦ parses_to_zero (trim_space q)
  ]

  -- The loop of AcceptsGzip.
  unfoldable pub any_gzip : List Text → Bool
  any_gzip [] = false
  any_gzip (part ∷ parts) =
      let rest = any_gzip parts in
      let (token, params) = cut_params (trim_space part) in
      let tok = trim_space token in
      if not (text_eq tok (codes "gzip")) && not (text_eq tok (codes "*"))
      then rest
      else if is_excluded params
      then rest
      else true

  unfoldable pub accepts_gzip : Text → Bool
  accepts_gzip header = any_gzip (split b',' header)

  -- Gzip
  unfoldable pub gzip : Handler → Handler
  gzip next r w =
      if text_eq r.method (codes "OPTIONS")
        || not (accepts_gzip (header_get r.header (codes "Accept-Encoding")))
      then next r w
      else next r
          (record (add (codes "Vary") (codes "Accept-Encoding")
            (set (codes "Content-Encoding") (codes "gzip") w)) { is_compressed = true })
