-- ===== src/Httpx/Cors.antt =====
-- Which origins a browser is told to trust.
use pdbcore.Prelude.{
  ◌≡◌, refl, sym, ◌∙◌, arith, Bool, true, false, not, ◌||◌, ◌&&◌, List, [], ◌∷◌, Option, none, some,
  Text, codes, text_eq, text_eq_iff, is_empty, elem, if◌then◌else◌, if-all,
}
use pdbcore.Prelude.Map.{get, get-put}
use pdbcore.Auth.Headers.{header_get}
use pdbcore.Httpx.{
  Request, Response, Handler, set, origin_allowed, allow_origin, cors, preflight,
  cors_with_preflight,
}

-- The origin that a response lets in; none if it has no such header.
abbrev pub allowed_origin : Response → Option (List Text)
allowed_origin w = get (codes "Access-Control-Allow-Origin") w.header

origin_allowed-elem :
    (origins : List Text) (origin : Text)
    → origin_allowed origins origin ≡ (elem (codes "*") origins || elem origin origins)
unfolding origin_allowed elem
origin_allowed-elem [] origin = refl
origin_allowed-elem (o ∷ os) origin = ground (
  arith,
  origin_allowed-elem os origin,
  text_eq_iff o (codes "*"),
  text_eq_iff o origin,
  text_eq_iff (codes "*") o,
  text_eq_iff origin o,
)

-- What a request from somewhere else may be told: its own origin, if that or * is listed, and
-- nothing otherwise.
abbrev pub policy : List Text → Text → Option (List Text)
policy origins origin =
    if not (is_empty origin) && (elem (codes "*") origins || elem origin origins)
    then some (origin ∷ [])
    else none

-- The next handler writes nothing about origins itself.
abbrev pub LeavesOrigin : Handler → Type 0
LeavesOrigin next = (r : Request) (w : Response) → allowed_origin (next r w) ≡ allowed_origin w

set-allowed_origin :
    (name value : Text) (w : Response)
    → text_eq name (codes "Access-Control-Allow-Origin") ≡ false
    → allowed_origin (set name value w) ≡ allowed_origin w
set-allowed_origin name value w h =
    get-put name (codes "Access-Control-Allow-Origin") (value ∷ []) w.header ∙ (rw h refl)

allow_origin-allowed :
    (origin : Text) (w : Response) → allowed_origin (allow_origin origin w) ≡ some (origin ∷ [])
unfolding allow_origin text_eq
allow_origin-allowed origin w =
    set-allowed_origin (codes "Vary") (codes "Origin")
      (set (codes "Access-Control-Allow-Origin") origin w) refl
    ∙ get-put (codes "Access-Control-Allow-Origin") (codes "Access-Control-Allow-Origin")
        (origin ∷ []) w.header

policy-allowed :
    (origins : List Text) (origin : Text) (ok : Bool)
    → (not (is_empty origin) && origin_allowed origins origin) ≡ ok
    → policy origins origin ≡ (if ok then some (origin ∷ []) else none)
policy-allowed origins origin ok h = rw (sym h, origin_allowed-elem origins origin) refl

cors-policy :
    (origins : List Text) (next : Handler) (r : Request) (w : Response)
    → LeavesOrigin next
    → allowed_origin w ≡ none
    → allowed_origin (cors origins next r w) ≡ policy origins (header_get r.header (codes "Origin"))
unfolding cors
cors-policy origins next r w leaves fresh =
    let origin = header_get r.header (codes "Origin") in
    let allowed = not (is_empty origin) && origin_allowed origins origin in
    leaves r (if allowed then allow_origin origin w else w)
    ∙ if-all (λ (out : Response). allowed_origin out ≡ policy origins origin) allowed _ _
        (λ e. allow_origin-allowed origin w ∙ sym (policy-allowed origins origin true e))
        (λ e. fresh ∙ sym (policy-allowed origins origin false e))

preflight_headers :
    (origin methods asked : Text) (w : Response)
    → allowed_origin (
        set (codes "Access-Control-Max-Age") (codes "600") (
          if not (is_empty asked)
          then set
              (codes "Access-Control-Allow-Headers")
              asked
              (set (codes "Access-Control-Allow-Methods") methods (allow_origin origin w))
          else set (codes "Access-Control-Allow-Methods") methods (allow_origin origin w)))
      ≡ some (origin ∷ [])
unfolding text_eq
preflight_headers origin methods asked w =
    let named_response =
      set (codes "Access-Control-Allow-Methods") methods (allow_origin origin w) in
    let named =
      set-allowed_origin (codes "Access-Control-Allow-Methods") methods (allow_origin origin w) refl
      ∙ allow_origin-allowed origin w in
    set-allowed_origin (codes "Access-Control-Max-Age") (codes "600")
      (if not (is_empty asked)
        then set (codes "Access-Control-Allow-Headers") asked named_response
        else named_response)
      refl
    ∙ if-all (λ (out : Response). allowed_origin out ≡ some (origin ∷ [])) (not (is_empty asked)) _
        _
        (λ e.
          set-allowed_origin (codes "Access-Control-Allow-Headers") asked named_response refl
          ∙ named)
        (λ e. named)

preflight-policy :
    (origins : List Text) (methods : Text) (r : Request) (w : Response)
    → allowed_origin w ≡ none
    → allowed_origin (preflight origins methods r w)
      ≡ policy origins (header_get r.header (codes "Origin"))
unfolding preflight
preflight-policy origins methods r w fresh =
    let origin = header_get r.header (codes "Origin") in
    if-all (λ (out : Response). allowed_origin out ≡ policy origins origin)
      (is_empty origin || not (origin_allowed origins origin)) _ _
      (λ e. fresh ∙ sym (policy-allowed origins origin false (turned_away _ _ e)))
      (λ e.
        preflight_headers origin methods
          (header_get r.header (codes "Access-Control-Request-Headers")) w
        ∙ sym (policy-allowed origins origin true (let_in _ _ e)))
  where
    turned_away : (a b : Bool) → (a || not b) ≡ true → (not a && b) ≡ false
    turned_away a b h = ground arith

    let_in : (a b : Bool) → (a || not b) ≡ false → (not a && b) ≡ true
    let_in a b h = ground arith

-- Whether CORSWithPreflight answers itself or lets the next handler answer, the origin that the
-- response lets in is the request's own, if that or * is listed, and none otherwise; where no
-- such header was written before and the next handler writes none.
pub cors_with_preflight-policy :
    (origins : List Text) (methods : Text) (next : Handler) (r : Request) (w : Response)
    → LeavesOrigin next
    → allowed_origin w ≡ none
    → allowed_origin (cors_with_preflight origins methods next r w)
      ≡ policy origins (header_get r.header (codes "Origin"))
unfolding cors_with_preflight
cors_with_preflight-policy origins methods next r w leaves fresh =
    if-all
      (λ (out : Response).
        allowed_origin out ≡ policy origins (header_get r.header (codes "Origin")))
      (text_eq r.method (codes "OPTIONS")
        && not (is_empty (header_get r.header (codes "Access-Control-Request-Method"))))
      _ _ (λ e. preflight-policy origins methods r w fresh)
      (λ e. cors-policy origins next r w leaves fresh)
