-- ===== src/Confx/Sections/Policies.antt =====
-- confx/sections.go: the sections of row-level security, transactions and watching, as package
-- reflect shows them.
use pdbcore.Prelude.{[], ◌∷◌, codes}
use pdbcore.Confx.{Rls, AuthSection, TxSection, WatchSection}
use pdbcore.Confx.Fields.{string, boolean, integer, duration, struct, Fields}
use pdbcore.Confx.Sections.{tagged, fields_of, string_elements, strings}

unfoldable pub auth_fields : AuthSection → Fields
unfolding fields_of string_elements
auth_fields s = fields_of (
    (
      tagged (codes "mode")
          (codes "Claim source: 'jwt', 'headers' (behind a trusted gateway), or 'none'."),
      string s.mode,
    )
    ∷ (
      tagged (codes "jwt_secret") (
          codes
            "HMAC secret for HS256/384/512 verification (jwt mode; ignored when jwks_url is set)."),
      string s.jwt_secret,
    )
    ∷ (
      tagged (codes "jwks_url") (
          codes
            "JWKS endpoint for asymmetric JWT verification (RS256/384/512, ES256/384/512). Takes precedence over jwt_secret."),
      string s.jwks_url,
    )
    ∷ (
      tagged (codes "jwks_cache_ttl") (
          codes
            "How long fetched JWKS keys are cached; an unknown kid triggers an early refresh (key rotation)."),
      duration s.jwks_cache_ttl,
    )
    ∷ (
      tagged (codes "jwt_issuer") (codes "Expected iss claim; empty skips the check."),
      string s.jwt_issuer,
    )
    ∷ (
      tagged (codes "jwt_audience") (codes "Expected aud claim; empty skips the check."),
      string s.jwt_audience,
    )
    ∷ (
      tagged (codes "header_prefix")
          (codes "Header prefix mapped to claims in headers mode, e.g. X-Pdbq-Claim-."),
      string s.header_prefix,
    )
    ∷ (
      tagged (codes "trusted_proxies") (
          codes
            "CIDR blocks (or single IPs) allowed to supply claim headers in headers mode. Requests from other peers that carry claim headers are rejected. Empty trusts every peer and logs a startup warning."),
      strings s.trusted_proxies,
    )
    ∷ (
      tagged (codes "jwt_type") (
          codes
            "Schema-qualified composite type (e.g. public.jwt) minted into a signed JWT: any function returning it yields an HS256 token string built from the composite's fields (an exp field becomes the token expiry). Requires jwt_secret; jwt_issuer/jwt_audience are embedded when set. Empty disables minting."),
      string s.jwt_type,
    )
    ∷ [])

unfoldable pub rls_fields : Rls → Fields
unfolding fields_of string_elements auth_fields
rls_fields s = fields_of (
    (
      tagged (codes "enabled") (
          codes
            "Run each request as a switched role with claims exposed via set_config (SET LOCAL). Disabling uses the privileged connection directly and logs a loud warning."),
      boolean s.is_enabled,
    )
    ∷ (
      tagged (codes "default_role")
          (codes "Role assumed for authenticated requests without a role claim."),
      string s.default_role,
    )
    ∷ (
      tagged (codes "anonymous_role") (codes "Role assumed for unauthenticated requests."),
      string s.anonymous_role,
    )
    ∷ (
      tagged (codes "role_claim")
          (codes "JWT claim (or header name in header mode) carrying the database role."),
      string s.role_claim,
    )
    ∷ (
      tagged (codes "allowed_roles") (
          codes
            "Roles a request may assume via the role claim. Empty allows any role (subject to database grants); default_role and anonymous_role are always allowed."),
      strings s.allowed_roles,
    )
    ∷ (
      tagged (codes "claims_prefix")
          (codes "set_config namespace for request claims, e.g. pdbq.claims."),
      string s.claims_prefix,
    )
    ∷ (tagged (codes "auth") [], struct (auth_fields s.auth))
    ∷ [])

unfoldable pub tx_fields : TxSection → Fields
unfolding fields_of
tx_fields s = fields_of (
    (
      tagged (codes "mutations") (codes "Wrap every mutation in a transaction."),
      boolean s.mutations,
    )
    ∷ (
      tagged (codes "isolation")
          (codes "Transaction isolation level: read_committed, repeatable_read, serializable."),
      string s.isolation,
    )
    ∷ (
      tagged (codes "max_retries") (
          codes
            "Automatic retries of a transactional operation after a serialization failure or deadlock (SQLSTATE 40001/40P01). 0 disables; the whole operation re-runs, which is safe because the failed attempt rolled back."),
      integer s.max_retries,
    )
    ∷ [])

unfoldable pub watch_fields : WatchSection → Fields
unfolding fields_of
watch_fields s = fields_of (
    (
      tagged (codes "enabled") (
          codes
            "Re-introspect and hot-swap the schema on DDL changes (dev only; refuses to combine with schema.cache_path)."),
      boolean s.is_enabled,
    )
    ∷ (
      tagged (codes "poll_interval")
          (codes "Poll interval used when event triggers cannot be installed."),
      duration s.poll_interval,
    )
    ∷ (
      tagged (codes "channel") (codes "NOTIFY channel used by the DDL event trigger."),
      string s.channel,
    )
    ∷ [])
