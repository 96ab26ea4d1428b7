-- ===== src/Auth/Samples.antt =====
-- Runs of package auth on concrete input, and the theorems about it at such input.
use pdbcore.Prelude.{
  ℕ, ◌*◌, subst, sym, all, any, go_quote, upper_rune, zero, suc, ◌+◌, ◌≡◌, refl, Bool, true, false,
  List, [], ◌∷◌, ◌++◌, Option, none, some, arith, Text, codes, text_eq, is_empty, cut_prefix, elem,
  map, lower_rune, replace_byte, if◌then◌else◌, length,
}
use pdbcore.Prelude.Int.{pos, int64}
use pdbcore.Prelude.Map.{Map, get}
use pdbcore.Pgexec.Tx.{string}
use pdbcore.Auth.Headers.{HeaderMap, header_get, canonical_header_key}
use pdbcore.Auth.Jwks.{
  Jwk, rsa, big_int, Outside, Cache, response, network_error, found, fetch_failed, minute,
  lookup_key, key, read_response, fetch_locked, public_key,
}
use pdbcore.Auth.Jwks.Rate.{IsDown}
use pdbcore.Auth.Peer.{Addr, v4, v6, Prefix, prefix4, peer_trusted}
use pdbcore.Auth.{
  use_headers, add_header, resolve, claimed_role, role_allowed, Config, Request, Outcome, granted,
  refused, Library, Parsed, claims_of, parse_error, KeySource, ParserOptions, uses_jwks,
  asymmetric_methods, hmac_methods, parser_options, claim_key, header_claims, from_headers,
  from_jwt, authenticate, claimed_role, from_bearer, resolve, role_allowed, use_token,
}
use pdbcore.Auth.Roles.{Grants, authenticate-Grants}
use pdbcore.Auth.Sources.{
  HasClaims, HonoursMethods, Verified, IsTrustedPeer, FromHeader, from_headers_trusted,
  from_jwt-Verified,
}

abbrev signing_key : Jwk
signing_key = record {
  kty = codes "RSA";
  kid = codes "k1";
  use_ = codes "sig";
  n = codes "n";
  e = codes "e";
  crv = [];
  x = [];
  y = [];
}

-- The world is the clock in nanoseconds; a request takes one.
abbrev up : Outside ℕ
up = record {
  decode_base64 = some;
  on_curve = λ c p. true;
  now = λ w. w;
  request = λ w. (response 200 (some (signing_key ∷ [])), w + 1);
}

abbrev down : Outside ℕ
down = record {
  decode_base64 = some;
  on_curve = λ c p. true;
  now = λ w. w;
  request = λ w. (network_error (codes "connection refused"), w + 1);
}

abbrev cold : Cache
cold = record { url = codes "u"; ttl = 60 * minute; keys = none; fetched = 0 }

abbrev warm : Cache
warm = record {
  url = codes "u";
  ttl = 60 * minute;
  keys = some ((codes "k1", rsa 110 (pos 101)) ∷ []);
  fetched = 5;
}

first_fetch :
    key up (codes "k1") cold 7 ≡ (found (rsa 110 (pos 101)), record warm { fetched = 8 }, 8)
unfolding int64 big_int key fetch_locked is_empty text_eq public_key lookup_key
first_fetch = refl

down_IsDown : IsDown down
unfolding read_response
down_IsDown w = (fetch_failed (codes "connection refused"), refl)

-- A token is its algorithm, a dot, and the role that it claims.
abbrev toy_alg : Text → Text
toy_alg token = elim (cut_prefix token (codes "RS256")) [
  | none ↦ codes "none"
  | some r ↦ codes "RS256"
]

abbrev toy_parse : ParserOptions → Text → Parsed
toy_parse opts token =
    if elem (toy_alg token) opts.methods
    then claims_of ((codes "role", string (codes "app")) ∷ [])
    else parse_error (codes "signing method is invalid")

abbrev library : Library ℕ
library = record {
  outside = up;
  parse_token = λ opts token source keyfunc c w. (toy_parse opts token, c, w);
  parse_addr_port = λ s. if text_eq s (codes "10.0.0.7:99") then some (v4 0x0a000007) else none;
}

abbrev config : Config
config = record {
  is_enabled = true;
  mode = codes "jwt";
  jwt_secret = [];
  jwks_url = codes "https://issuer/keys";
  jwks_cache_ttl = pos 0;
  jwt_issuer = [];
  jwt_audience = [];
  header_prefix = codes "X-Pdbq-Claim-";
  trusted_proxies = some (prefix4 0x0a000000 8 ∷ []);
  role_claim = codes "role";
  default_role = [];
  anonymous_role = codes "anon";
  allowed_roles = codes "app" ∷ [];
}

abbrev bearer : Request
bearer = record {
  header = (codes "Authorization", codes "Bearer RS256.x" ∷ []) ∷ [];
  remote_addr = codes "10.0.0.7:99";
}

abbrev gateway : Request
gateway = record {
  header = (codes "X-Pdbq-Claim-Role", codes "app" ∷ []) ∷ [];
  remote_addr = codes "10.0.0.7:99";
}

jwt_role :
    (authenticate library config bearer cold 1).0
    ≡ granted ((codes "role", string (codes "app")) ∷ []) (codes "app")
unfolding authenticate text_eq from_jwt is_empty header_get cut_prefix from_bearer use_token elem
    parser_options resolve claimed_role role_allowed
jwt_role = refl

headers_role :
    from_headers library config gateway
    ≡ granted ((codes "role", string (codes "app")) ∷ []) (codes "app")
unfolding from_headers use_headers header_claims add_header cut_prefix canonical_header_key
    pdbcore.Prelude.Map.put peer_trusted text_eq pdbcore.Auth.Peer.contains pdbcore.Auth.Peer.unmap
    resolve claimed_role get claim_key replace_byte is_empty role_allowed
    pdbcore.Auth.Headers.canonical_runes pdbcore.Auth.Headers.is_token_byte all any elem lower_rune
    upper_rune
headers_role = refl

authenticate-Grants_example : Grants config (authenticate library config bearer cold 1).0
authenticate-Grants_example = authenticate-Grants library config bearer cold 1 refl

from_headers_trusted_example :
    IsTrustedPeer library.parse_addr_port config.trusted_proxies gateway.remote_addr
    × FromHeader
        (canonical_header_key config.header_prefix)
        gateway.header
        (codes "role")
        (string (codes "app"))
unfolding get text_eq
from_headers_trusted_example =
    from_headers_trusted library config gateway ((codes "role", string (codes "app")) ∷ [])
      (codes "app") (codes "role") (string (codes "app")) headers_role refl

library-HonoursMethods : HonoursMethods library toy_alg
library-HonoursMethods opts token source keyfunc c w claims h = ground arith

jwt_HasClaims : HasClaims (from_jwt library config bearer cold 1).0
unfolding from_jwt is_empty header_get text_eq cut_prefix from_bearer use_token elem parser_options
    resolve claimed_role role_allowed
jwt_HasClaims = tt

from_jwt-Verified_example :
    Verified library toy_alg
      (if uses_jwks config then asymmetric_methods else hmac_methods)
      config
      bearer
      cold
      1
      (from_jwt library config bearer cold 1).0
    × ((parser_options config).expiration_required ≡ true)
from_jwt-Verified_example =
    from_jwt-Verified library toy_alg library-HonoursMethods config bearer cold 1 jwt_HasClaims

abbrev prefix : Text
prefix = codes "X-"
