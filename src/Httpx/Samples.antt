-- ===== src/Httpx/Samples.antt =====
-- Requests at small inputs.
use pdbcore.Prelude.{
  ◌≡◌, ◌⊎◌, refl, Bool, true, false, [], ◌∷◌, some, Text, codes, text_eq, is_empty, elem,
  cut_prefix,
}
use pdbcore.Prelude.Words.{cut_at, is_space, split, trim_space}
use pdbcore.Prelude.Map.{get}
use pdbcore.Auth.Headers.{header_get}
use pdbcore.Httpx.{
  Request, Response, Handler, cors_with_preflight, accepts_gzip, gzip, any_gzip, cut_params,
  is_excluded,
}
use pdbcore.Httpx.Coding.{coding, announced, IsNegotiated, gzip-announced}
use pdbcore.Httpx.Cors.{allowed_origin, policy, cors_with_preflight-policy}

abbrev asks : Request
asks = record {
  method = codes "OPTIONS";
  header =
      (codes "Origin", codes "https://a" ∷ [])
      ∷ (codes "Access-Control-Request-Method", codes "POST" ∷ [])
      ∷ [];
}

abbrev blank : Response
blank = record { status = 200; header = []; is_compressed = false }

abbrev passes : Handler
passes r w = w

abbrev is_zero : Text → Bool
is_zero q = text_eq q (codes "0")

gzip_asked : accepts_gzip is_zero (codes "br, gzip;q=1") ≡ true
unfolding accepts_gzip any_gzip split text_eq trim_space cut_params cut_at is_space is_excluded
    cut_prefix
gzip_asked = refl

gzip_excluded : accepts_gzip is_zero (codes "gzip; q=0") ≡ false
unfolding accepts_gzip any_gzip split text_eq trim_space cut_params cut_at is_space is_excluded
    cut_prefix
gzip_excluded = refl

asks_allowed :
    policy (codes "https://a" ∷ []) (header_get asks.header (codes "Origin"))
    ≡ some (codes "https://a" ∷ [])
unfolding header_get is_empty text_eq elem
asks_allowed = refl

cors_with_preflight-policy_example :
    allowed_origin (cors_with_preflight (codes "https://a" ∷ []) (codes "POST") passes asks blank)
    ≡ policy (codes "https://a" ∷ []) (header_get asks.header (codes "Origin"))
unfolding get
cors_with_preflight-policy_example =
    cors_with_preflight-policy (codes "https://a" ∷ []) (codes "POST") passes asks blank
      (λ r w. refl) refl

abbrev wants_gzip : Request
wants_gzip = record {
  method = codes "GET";
  header = (codes "Accept-Encoding", codes "br, gzip;q=1" ∷ []) ∷ [];
}

gzip-announced_example :
    (IsNegotiated is_zero wants_gzip
      × (coding is_zero (gzip is_zero passes wants_gzip blank) ≡ announced is_zero true))
    ⊎ (¬ IsNegotiated is_zero wants_gzip
        × (coding is_zero (gzip is_zero passes wants_gzip blank) ≡ announced is_zero false))
unfolding get
gzip-announced_example = gzip-announced is_zero passes wants_gzip blank (λ q v. refl) refl

-- A later * is taken although gzip is excluded, and a quality behind another parameter is not seen.
gzip_behind_star : accepts_gzip is_zero (codes "gzip;q=0, *") ≡ true
unfolding accepts_gzip any_gzip split text_eq trim_space cut_params cut_at is_space is_excluded
    cut_prefix
gzip_behind_star = refl

gzip_by_parameter : accepts_gzip is_zero (codes "gzip;x=1;q=0") ≡ true
unfolding accepts_gzip any_gzip split text_eq trim_space cut_params cut_at is_space is_excluded
    cut_prefix
gzip_by_parameter = refl
