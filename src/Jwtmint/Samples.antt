-- ===== src/Jwtmint/Samples.antt =====
-- Minting at small inputs.
use pdbcore.Prelude.{
  ◌≡◌, refl, ap, ℕ, ◌<◌, true, false, ◌&&◌, [], ◌∷◌, ◌++◌, none, some, Text, codes, text_eq,
  text_eq_iff, is_empty, arith, if◌then◌else◌,
}
use pdbcore.Prelude.Int.{pos}
use pdbcore.Prelude.Map.{Map, get, put}
use pdbcore.Pgexec.Tx.{Claim, string, json}
use pdbcore.Auth.{Config, Request, Library, claims_of, resolve, from_jwt, uses_jwks}
use pdbcore.Auth.Headers.{header_get}
use pdbcore.Auth.Jwks.{Cache, network_error}
use pdbcore.Jwtmint.{
  Options, Claims, Reply, ok, failed, Codec, signed_claims, sign, mint, minted, refused, mint_one,
  mint_items, mint_decoded, add_claims, add_configured,
}
use pdbcore.Jwtmint.Signed.{IsMap, token_claim, get-signed_claims}
use pdbcore.Jwtmint.Accepted.{Verifies, from_jwt-sign}
use pdbcore.Jwtmint.Whole.{SetMinted, mint-SetMinted}

abbrev options : Options
options = record {
  schema = codes "public";
  type_name = codes "jwt";
  secret = codes "s3cret";
  issuer = codes "pdb";
  audience = [];
}

abbrev composite : Claims
composite =
    (codes "role", some (string (codes "app")))
    ∷ (codes "iss", some (string (codes "forged")))
    ∷ (codes "note", none)
    ∷ []

composite-IsMap : IsMap composite
composite-IsMap = unfold get text_eq in (refl, (refl, (refl, tt)))

get-signed_claims_example :
    get (codes "iss") (signed_claims options composite)
    ≡ token_claim options composite (codes "iss")
get-signed_claims_example = get-signed_claims options composite (codes "iss") composite-IsMap

-- A token holds the role; it is made only for a role and the issuer pdb.
toy_sign : Map Claim → Text → Reply Text
toy_sign ((k, string r) ∷ (j, string i) ∷ []) s =
    if text_eq k (codes "role") && text_eq j (codes "iss") && text_eq i (codes "pdb")
    then ok r
    else failed []
toy_sign _ s = failed []

abbrev toy_claims : Text → Map Claim
toy_claims role = (codes "role", string role) ∷ (codes "iss", string (codes "pdb")) ∷ []

toy_sign_inv : (m : Map Claim) (s t : Text) → toy_sign m s ≡ ok t → toy_claims t ≡ m
unfolding toy_sign
toy_sign_inv ((k, string r) ∷ (j, string i) ∷ []) s t h =
    ground (
      arith,
      text_eq_iff k (codes "role"),
      text_eq_iff j (codes "iss"),
      text_eq_iff i (codes "pdb"),
    )
toy_sign_inv ((k, string r) ∷ (j, string i) ∷ x ∷ m) s t h = cc
toy_sign_inv ((k, string r) ∷ (j, json i) ∷ m) s t h = cc
toy_sign_inv ((k, string r) ∷ []) s t h = cc
toy_sign_inv ((k, json r) ∷ m) s t h = cc
toy_sign_inv [] s t h = cc

abbrev codec : Codec
codec = record {
  unmarshal_items = λ raw. ok (some (raw ∷ codes "null" ∷ []));
  unmarshal_claims = λ raw.
      if text_eq raw (codes "null")
      then ok none
      else if is_empty raw
      then failed (codes "EOF")
      else ok (some composite);
  marshal_items = λ items. ok (codes "[]");
  marshal_token = λ token. ok token;
  sign_hs256 = toy_sign;
}

set_minted : mint codec options (codes "{}") true ≡ minted (codes "[]")
unfolding mint mint_decoded mint_items mint_one sign signed_claims add_claims add_configured
    toy_sign text_eq is_empty put
set_minted = refl

set_refused : mint codec options [] true ≡ refused [] (codes "mint: claims: EOF")
unfolding mint mint_decoded mint_items mint_one sign signed_claims add_claims add_configured
    toy_sign text_eq is_empty put
set_refused = refl

mint-SetMinted_example : SetMinted codec options (codes "{}") (mint codec options (codes "{}") true)
mint-SetMinted_example = mint-SetMinted codec options (codes "{}")

abbrev library : Library ℕ
library = record {
  outside = record {
    decode_base64 = λ s. none;
    on_curve = λ c p. false;
    now = λ w. w;
    request = λ w. (network_error [], w);
  };
  parse_token = λ opts token source keyfunc c w. (claims_of (toy_claims token), c, w);
  parse_addr_port = λ s. none;
}

abbrev IsCurrent : Map Claim → ℕ → Type 0
IsCurrent claims w = w < 100

codec-Verifies : Verifies codec library IsCurrent
codec-Verifies claims key_text token opts keyfunc c w signed allowed current issuer audience =
    ap claims_of (toy_sign_inv claims key_text token signed)

abbrev config : Config
config = record {
  is_enabled = true;
  mode = codes "jwt";
  jwt_secret = codes "s3cret";
  jwks_url = [];
  jwks_cache_ttl = pos 0;
  jwt_issuer = codes "pdb";
  jwt_audience = [];
  header_prefix = [];
  trusted_proxies = none;
  role_claim = codes "role";
  default_role = [];
  anonymous_role = codes "anon";
  allowed_roles = [];
}

abbrev request : Request
request = record {
  header = (codes "Authorization", codes "Bearer app" ∷ []) ∷ [];
  remote_addr = [];
}

abbrev no_keys : Cache
no_keys = record { url = []; ttl = 0; keys = none; fetched = 0 }

composite_signed : sign codec options composite ≡ ok (codes "app")
unfolding sign signed_claims add_claims add_configured toy_sign text_eq is_empty put
composite_signed = refl

no_endpoint : uses_jwks config ≡ false
unfolding uses_jwks is_empty
no_endpoint = refl

request_brings : header_get request.header (codes "Authorization") ≡ codes "Bearer " ++ codes "app"
unfolding header_get get text_eq
request_brings = refl

from_jwt-sign_example :
    (from_jwt library config request no_keys 7).0 ≡ resolve config (signed_claims options composite)
from_jwt-sign_example =
    from_jwt-sign codec library IsCurrent codec-Verifies options config composite (codes "app")
      request no_keys 7 (refl, refl, refl) no_endpoint composite-IsMap composite_signed
      request_brings (omega arith)
