-- ===== src/Confx.antt =====
-- confx/sections.go and confx/validate.go: the sections of the configuration, their validation and
-- what becomes of them; ParseTrustedProxy of load.go, whose other parts are in children. netip's
-- parsers are parameters.
pub mod Env
pub mod Fields
pub mod Load
pub mod Sections
pub mod Example
pub mod Variables
pub mod ListVariables
pub mod Policy
pub mod Served
mod Samples
mod LoadSamples
use pdbcore.Prelude.{
  ℕ, ◌+◌, Bool, true, false, not, ◌||◌, ◌&&◌, List, [], ◌∷◌, ◌++◌, Option, none, some, Text, codes,
  text_eq, is_empty, elem, any, go_quote, ◌==◌, if◌then◌else◌,
}
use pdbcore.Prelude.Int.{ℤ, is_negative}
use pdbcore.Prelude.Map.{Map, put}
use pdbcore.Prelude.Words.{begins, join}
use pdbcore.Pgexec.Ident.{simple_rune}
use pdbcore.Auth.{Config}
use pdbcore.Auth.Peer.{Addr, v4, v6, Prefix, prefix4, prefix6}

-- Auth, a section
pub record AuthSection : Type 0 where
  pub mode : Text
  pub jwt_secret : Text
  pub jwks_url : Text
  pub jwks_cache_ttl : ℤ
  pub jwt_issuer : Text
  pub jwt_audience : Text
  pub header_prefix : Text
  pub trusted_proxies : List Text
  pub jwt_type : Text

pub record Rls : Type 0 where
  pub is_enabled : Bool
  pub default_role : Text
  pub anonymous_role : Text
  pub role_claim : Text
  pub allowed_roles : List Text
  pub claims_prefix : Text
  pub auth : AuthSection

pub record TxSection : Type 0 where
  pub mutations : Bool
  pub isolation : Text
  pub max_retries : ℤ

pub record WatchSection : Type 0 where
  pub is_enabled : Bool
  pub poll_interval : ℤ
  pub channel : Text

-- InvalidConfig: the error's text, or none.
unfoldable pub invalid_config : List Text → Option Text
invalid_config [] = none
invalid_config (e ∷ es) = some (codes "invalid config:\n  - " ++ join (codes "\n  - ") (e ∷ es))

-- append(errs, message) where a test fails.
unfoldable pub complain : Bool → Text → List Text
complain bad message = if bad then message ∷ [] else []

-- ValidateErrors, of errors.detail
unfoldable pub validate_errors : Text → List Text
unfolding elem
validate_errors detail =
    if elem detail (codes "dev" ∷ codes "prod" ∷ codes "strict" ∷ [])
    then []
    else (codes "errors.detail: " ++ (go_quote detail ++ codes " is not 'dev', 'prod' or 'strict'"))
      ∷ []

-- ValidateTX
unfoldable pub validate_tx : TxSection → List Text
validate_tx t =
    complain
      (not (
        elem t.isolation
          (codes "read_committed" ∷ codes "repeatable_read" ∷ codes "serializable" ∷ [])))
      (codes "transactions.isolation: " ++ (go_quote t.isolation ++ codes " invalid"))
    ++ complain (is_negative t.max_retries) (codes "transactions.max_retries must be >= 0")

unfoldable pub channel_runes : Text → Bool
channel_runes [] = true
channel_runes (r ∷ s) = let rest = channel_runes s in if not (simple_rune r) then false else rest

-- ValidChannelName
unfoldable pub valid_channel_name : Text → Bool
valid_channel_name s = channel_runes s && not (is_empty s)

-- ValidateWatch
unfoldable pub validate_watch : WatchSection → Text → List Text
validate_watch w cache_path =
    complain (w.is_enabled && not (is_empty cache_path))
      (codes "watch.enabled cannot be combined with schema.cache_path")
    ++ complain (w.is_enabled && not (valid_channel_name w.channel)) (
        codes "watch.channel: "
        ++ (go_quote w.channel
            ++ codes " invalid: only letters, digits and underscores are allowed"))

-- ValidateSchema, of schema.schemas
unfoldable pub validate_schema : List Text → List Text
validate_schema [] = codes "schema.schemas must list at least one schema" ∷ []
validate_schema (s ∷ ss) = []

-- ValidateLog, of log.level
unfoldable pub validate_log : Text → List Text
validate_log level =
    if elem level (codes "debug" ∷ codes "info" ∷ codes "warn" ∷ codes "error" ∷ [])
    then []
    else (codes "log.level: " ++ (go_quote level ++ codes " invalid")) ∷ []

-- DisabledSet
unfoldable pub disabled_set : List Text → Map Bool → Map Bool
disabled_set [] out = out
disabled_set (n ∷ ns) out = disabled_set ns (put n true out)

-- strings.Count of one rune
unfoldable pub count_rune : ℕ → Text → ℕ
count_rune c [] = 0
count_rune c (r ∷ s) = (if r == c then 1 else 0) + count_rune c s

-- strings.HasSuffix of one rune
unfoldable pub ends : ℕ → Text → Bool
ends c [] = false
ends c (r ∷ []) = r == c
ends c (r ∷ q ∷ s) = ends c (q ∷ s)

unfoldable pub mode_errors : AuthSection → List Text
mode_errors a =
    complain (not (elem a.mode (codes "jwt" ∷ codes "headers" ∷ codes "none" ∷ [])))
      (codes "rls.auth.mode: " ++ (go_quote a.mode ++ codes " is not 'jwt', 'headers' or 'none'"))

unfoldable pub secret_errors : Rls → List Text
secret_errors c =
    complain
      (c.is_enabled
        && text_eq c.auth.mode (codes "jwt")
        && is_empty c.auth.jwt_secret
        && is_empty c.auth.jwks_url)
      (codes
        "rls.auth.jwt_secret or rls.auth.jwks_url is required when rls.enabled and auth mode is jwt")

unfoldable pub mint_errors : AuthSection → List Text
mint_errors a = complain (not (is_empty a.jwt_type) && is_empty a.jwt_secret) (
    codes
      "rls.auth.jwt_type requires rls.auth.jwt_secret: minting signs with the HMAC secret (JWKS keys are verify-only)")

unfoldable pub jwt_type_errors : AuthSection → List Text
jwt_type_errors a =
    complain
      (not (is_empty a.jwt_type)
        && (not (count_rune b'.' a.jwt_type == 1)
            || begins b'.' a.jwt_type
            || ends b'.' a.jwt_type))
      (codes "rls.auth.jwt_type: "
        ++ (go_quote a.jwt_type ++ codes " must be schema-qualified, e.g. public.jwt"))

unfoldable pub role_errors : Rls → List Text
role_errors c = complain (c.is_enabled && is_empty c.anonymous_role) (
    codes
      "rls.anonymous_role is required when rls.enabled: an empty role would run unauthenticated requests as the privileged connection role, bypassing RLS")

-- The parsers of netip; none stands for an error.
pub record Netip : Type 0 where
  pub parse_prefix : Text → Option Prefix
  pub parse_addr : Text → Option Addr

-- netip.PrefixFrom(addr, addr.BitLen())
abbrev pub single_address : Addr → Prefix
single_address (v4 a) = prefix4 a 32
single_address (v6 a zone) = prefix6 a 128

module _ (netip : Netip) where
  -- ParseTrustedProxy
  unfoldable pub parse_trusted_proxy : Text → Option Prefix
  parse_trusted_proxy s =
      if any (λ c. c == b'/') s
      then netip.parse_prefix s
      else elim (netip.parse_addr s) [ none ↦ none | some addr ↦ some (single_address addr) ]

  -- The loop of ValidateRLS over the proxies.
  unfoldable pub proxy_errors : List Text → List Text
  proxy_errors [] = []
  proxy_errors (p ∷ ps) =
      elim (parse_trusted_proxy p) [
        | none ↦
            (codes "rls.auth.trusted_proxies: "
              ++ (go_quote p ++ codes " is not a valid IP or CIDR block"))
            ∷ []
        | some pfx ↦ []
      ]
      ++ proxy_errors ps

  -- ValidateRLS
  unfoldable pub validate_rls : Rls → List Text
  validate_rls c =
      mode_errors c.auth
      ++ (proxy_errors c.auth.trusted_proxies
          ++ (secret_errors c ++ (mint_errors c.auth ++ (jwt_type_errors c.auth ++ role_errors c))))

  -- The loop of AuthConfig.
  unfoldable pub proxy_prefixes : List Text → List Prefix
  proxy_prefixes [] = []
  proxy_prefixes (p ∷ ps) = elim (parse_trusted_proxy p) [
    | none ↦ proxy_prefixes ps
    | some pfx ↦ pfx ∷ proxy_prefixes ps
  ]

  unfoldable pub trusted : List Text → Option (List Prefix)
  trusted [] = none
  trusted (p ∷ ps) = some (proxy_prefixes (p ∷ ps))

  -- AuthConfig
  unfoldable pub auth_config : Rls → Config
  auth_config c = record {
    is_enabled = c.is_enabled;
    mode = c.auth.mode;
    jwt_secret = c.auth.jwt_secret;
    jwks_url = c.auth.jwks_url;
    jwks_cache_ttl = c.auth.jwks_cache_ttl;
    jwt_issuer = c.auth.jwt_issuer;
    jwt_audience = c.auth.jwt_audience;
    header_prefix = c.auth.header_prefix;
    trusted_proxies = trusted c.auth.trusted_proxies;
    role_claim = c.role_claim;
    default_role = c.default_role;
    anonymous_role = c.anonymous_role;
    allowed_roles = c.allowed_roles;
  }
