-- ===== src/Auth.antt =====
-- auth/auth.go: from an HTTP request to verified claims and a database role. The keys come from
-- the child Jwks (auth/jwks.go), the peer addresses from the child Peer.
pub mod Headers
pub mod Jwks
pub mod Peer
pub mod Roles
pub mod Sources
mod Samples
use pdbcore.Prelude.{
  Bool, true, false, not, ◌&&◌, ◌||◌, List, [], ◌∷◌, ◌++◌, Option, none, some, Text, codes, text_eq,
  is_empty, go_quote, cut_prefix, elem, map, lower_rune, replace_byte, if◌then◌else◌,
}
use pdbcore.Prelude.Map.{Map, get, put}
use pdbcore.Prelude.Int.{ℤ}
use pdbcore.Pgexec.Tx.{Claim, string, json}
use Headers.{HeaderMap, header_get, canonical_header_key}
use Jwks.{Cache, Answer, Outside, key}
use Peer.{Addr, Prefix, peer_trusted}

-- authError by its sentinel: ErrInvalidToken or ErrRoleNotAllowed, with the message.
pub data AuthError : Type 0 where
  invalid_token : Text → AuthError
  role_not_allowed : Text → AuthError

pub record Config : Type 0 where
  pub is_enabled : Bool
  pub mode : Text
  pub jwt_secret : Text
  pub jwks_url : Text
  pub jwks_cache_ttl : ℤ
  pub jwt_issuer : Text
  pub jwt_audience : Text
  pub header_prefix : Text
  pub trusted_proxies : Option (List Prefix)
  pub role_claim : Text
  pub default_role : Text
  pub anonymous_role : Text
  pub allowed_roles : List Text

pub record Request : Type 0 where
  pub header : HeaderMap
  pub remote_addr : Text

-- The claims and the role, or an error.
pub data Outcome : Type 0 where
  granted : Map Claim → Text → Outcome
  refused : AuthError → Outcome

-- len(roles) == 0
abbrev pub no_policy : List Text → Bool
no_policy [] = true
no_policy (r ∷ rs) = false

-- roleAllowed
unfoldable pub role_allowed : Config → Text → Bool
role_allowed cfg role =
    no_policy cfg.allowed_roles
    || text_eq role cfg.default_role
    || text_eq role cfg.anonymous_role
    || elem role cfg.allowed_roles

-- The role claim, if it is a non-empty string.
unfoldable pub claimed_role : Option Claim → Option Text
claimed_role none = none
claimed_role (some (json encoded)) = none
claimed_role (some (string s)) = if is_empty s then none else some s

-- resolve
unfoldable pub fallback_role : Config → Text
fallback_role cfg = if is_empty cfg.default_role then cfg.anonymous_role else cfg.default_role

unfoldable pub resolve : Config → Map Claim → Outcome
resolve cfg claims = elim (claimed_role (get cfg.role_claim claims)) [
  | none ↦ granted claims (fallback_role cfg)
  | some role ↦
      if not (role_allowed cfg role)
      then refused (role_not_allowed (codes "role " ++ go_quote role ++ codes " is not allowed"))
      else granted claims role
]

-- The options of jwt.ParseWithClaims; an issuer or an audience is checked if it is there.
pub record ParserOptions : Type 0 where
  pub methods : List Text
  pub expiration_required : Bool
  pub issuer : Option Text
  pub audience : Option Text

-- What the parser may verify a token with.
pub data KeySource : Type 0 where
  secret : Text → KeySource
  jwks : KeySource

-- What the package uses of the outside: the token parser of golang-jwt, which asks the key cache
-- for keys and so may change it, netip.ParseAddrPort, and the outside of the cache. A parse
-- returns the claims or the text of its error.
pub data Parsed : Type 0 where
  claims_of : Map Claim → Parsed
  parse_error : Text → Parsed

pub record Library (W : Type 0) : Type 0 where
  pub outside : Outside W
  pub parse_token :
      ParserOptions
      → Text
      → KeySource
      → (Text → Cache → W → Answer × Cache × W)
      → Cache
      → W
      → Parsed × Cache × W
  pub parse_addr_port : Text → Option Addr

abbrev pub hmac_methods : List Text
hmac_methods = codes "HS256" ∷ codes "HS384" ∷ codes "HS512" ∷ []

abbrev pub asymmetric_methods : List Text
asymmetric_methods =
    codes "RS256"
    ∷ codes "RS384"
    ∷ codes "RS512"
    ∷ codes "ES256"
    ∷ codes "ES384"
    ∷ codes "ES512"
    ∷ []

unfoldable pub nonempty : Text → Option Text
nonempty s = if is_empty s then none else some s

-- a.jwks != nil, as New sets it.
unfoldable pub uses_jwks : Config → Bool
uses_jwks cfg = not (is_empty cfg.jwks_url)

unfoldable pub parser_options : Config → ParserOptions
unfolding uses_jwks nonempty
parser_options cfg = record {
  methods = if uses_jwks cfg then asymmetric_methods else hmac_methods;
  expiration_required = true;
  issuer = nonempty cfg.jwt_issuer;
  audience = nonempty cfg.jwt_audience;
}

unfoldable pub key_source : Config → KeySource
unfolding uses_jwks
key_source cfg = if uses_jwks cfg then jwks else secret cfg.jwt_secret

abbrev pub anonymous : Config → Outcome
anonymous cfg = granted [] cfg.anonymous_role

-- What a parse leads to.
unfoldable pub use_token : Config → Parsed → Outcome
use_token cfg (claims_of claims) = resolve cfg claims
use_token cfg (parse_error text) = refused (invalid_token (codes "invalid token: " ++ text))

-- The claim's key, from the header's name behind the prefix.
unfoldable pub claim_key : Text → Text
claim_key rest = map lower_rune (replace_byte b'-' b'_' rest)

-- The claim that one header contributes.
unfoldable pub add_header : Text → Text → List Text → Map Claim → Map Claim
add_header prefix name [] claims = claims
add_header prefix name (v ∷ vs) claims = elim (cut_prefix name prefix) [
  | none ↦ claims
  | some rest ↦ put (claim_key rest) (string v) claims
]

-- The loop of fromHeaders.
unfoldable pub header_claims : Text → HeaderMap → Map Claim → Map Claim
header_claims prefix [] claims = claims
header_claims prefix ((name, vals) ∷ rest) claims =
    header_claims prefix rest (add_header prefix name vals claims)

module _ {W : Type 0} (lib : Library W) where
  unfoldable pub from_bearer : Config → Text → Cache → W → Outcome × Cache × W
  from_bearer cfg token c w =
      let (parsed, c', w') =
        lib.parse_token (parser_options cfg) token (key_source cfg) (key lib.outside) c w in
      (use_token cfg parsed, c', w')

  -- fromJWT
  unfoldable pub from_jwt : Config → Request → Cache → W → Outcome × Cache × W
  from_jwt cfg r c w =
      let authz = header_get r.header (codes "Authorization") in
      if is_empty authz then (anonymous cfg, c, w) else elim (cut_prefix authz (codes "Bearer ")) [
        | none ↦ (refused (invalid_token (codes "malformed Authorization header")), c, w)
        | some token ↦ from_bearer cfg token c w
      ]

  -- fromHeaders, after the loop.
  unfoldable pub use_headers : Config → Text → Map Claim → Outcome
  use_headers cfg remote [] = anonymous cfg
  use_headers cfg remote (claim ∷ claims) =
      if not (peer_trusted lib.parse_addr_port cfg.trusted_proxies remote)
      then refused (invalid_token (codes "claim headers from untrusted peer"))
      else resolve cfg (claim ∷ claims)

  unfoldable pub from_headers : Config → Request → Outcome
  from_headers cfg r =
      use_headers cfg r.remote_addr
        (header_claims (canonical_header_key cfg.header_prefix) r.header [])

  -- Authenticate
  unfoldable pub authenticate : Config → Request → Cache → W → Outcome × Cache × W
  authenticate cfg r c w =
      if not cfg.is_enabled
      then (granted [] [], c, w)
      else if text_eq cfg.mode (codes "jwt")
      then from_jwt cfg r c w
      else if text_eq cfg.mode (codes "headers")
      then (from_headers cfg r, c, w)
      else (anonymous cfg, c, w)
