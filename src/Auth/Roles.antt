-- ===== src/Auth/Roles.antt =====
-- Which role a request can come out with.
use pdbcore.Prelude.{
  ◌≡◌, refl, ◌⊎◌, inl, inr, true, false, not, [], ◌∷◌, ◌++◌, Option, none, some, arith, Text, codes,
  text_eq, text_eq_iff, is_empty, cut_prefix, elem, if◌then◌else◌, if-all, go_quote, Bool-cases,
}
use pdbcore.Prelude.Map.{Map, get}
use pdbcore.Pgexec.Tx.{Claim, string, json}
use pdbcore.Auth.Jwks.{Cache}
use pdbcore.Auth.{
  Config, Request, Outcome, granted, refused, role_allowed, no_policy, claimed_role, fallback_role,
  resolve, use_token, Library, Parsed, claims_of, from_bearer, from_jwt, use_headers, from_headers,
  authenticate, invalid_token, role_not_allowed,
}
use pdbcore.Auth.Headers.{header_get}
use pdbcore.Auth.Peer.{peer_trusted}

-- The roles that the configuration lets out: its own two, and those that the list admits.
abbrev pub IsPermitted : Config → Text → Type 0
IsPermitted cfg role =
    (role ≡ cfg.anonymous_role)
    ⊎ ((role ≡ cfg.default_role)
        ⊎ ((no_policy cfg.allowed_roles ≡ true) ⊎ (elem role cfg.allowed_roles ≡ true)))

-- What is true of every role that is let out: it is permitted, and it is not empty if the
-- anonymous role is not.
abbrev pub IsSafe : Config → Text → Type 0
IsSafe cfg role =
    IsPermitted cfg role × (is_empty cfg.anonymous_role ≡ false → is_empty role ≡ false)

abbrev pub Grants : Config → Outcome → Type 0
Grants cfg (granted claims role) = IsSafe cfg role
Grants cfg (refused e) = Unit

claimed_role_nonempty :
    (v : Option Claim) (role : Text) → claimed_role v ≡ some role → is_empty role ≡ false
unfolding claimed_role
claimed_role_nonempty none role h = cc
claimed_role_nonempty (some (json x)) role h = cc
claimed_role_nonempty (some (string s)) role h = ground arith

role_allowed-IsPermitted :
    (cfg : Config) (role : Text) → role_allowed cfg role ≡ true → IsPermitted cfg role
unfolding role_allowed
role_allowed-IsPermitted cfg role h =
    ground (arith, text_eq_iff role cfg.default_role, text_eq_iff role cfg.anonymous_role)

fallback_role-IsSafe : (cfg : Config) → IsSafe cfg (fallback_role cfg)
unfolding fallback_role
fallback_role-IsSafe cfg = elim (Bool-cases (is_empty cfg.default_role)) [
  | inl e ↦ rw e (inl refl, λ h. h)
  | inr e ↦ rw e (inr (inl refl), λ h. e)
]

resolve-Grants : (cfg : Config) (claims : Map Claim) → Grants cfg (resolve cfg claims)
unfolding resolve
resolve-Grants cfg claims =
    by_claim (claimed_role (get cfg.role_claim claims))
      (claimed_role_nonempty (get cfg.role_claim claims))
  where
    by_claim :
        (o : Option Text)
        → ((role : Text) → o ≡ some role → is_empty role ≡ false)
        → Grants cfg (elim o [
          | none ↦ granted claims (fallback_role cfg)
          | some role ↦
              if not (role_allowed cfg role)
              then refused
                  (role_not_allowed (codes "role " ++ go_quote role ++ codes " is not allowed"))
              else granted claims role
        ])
    by_claim none h = fallback_role-IsSafe cfg
    by_claim (some role) h = elim (Bool-cases (role_allowed cfg role)) [
      | inl e ↦ rw e (role_allowed-IsPermitted cfg role e, λ x. h role refl)
      | inr e ↦ rw e tt
    ]

use_token-Grants : (cfg : Config) (p : Parsed) → Grants cfg (use_token cfg p)
unfolding use_token
use_token-Grants cfg (claims_of claims) = resolve-Grants cfg claims
use_token-Grants cfg _ = tt

anonymous-IsSafe : (cfg : Config) → IsSafe cfg cfg.anonymous_role
anonymous-IsSafe cfg = (inl refl, λ h. h)

module _ {W : Type 0} (lib : Library W) where
  from_jwt-Grants :
      (cfg : Config) (r : Request) (c : Cache) (w : W) → Grants cfg (from_jwt lib cfg r c w).0
  unfolding from_jwt from_bearer
  from_jwt-Grants cfg r c w =
      if-all (λ (o : Outcome × Cache × W). Grants cfg o.0) (is_empty authz) _ _
        (λ h. anonymous-IsSafe cfg) (λ h. by_token (cut_prefix authz (codes "Bearer ")))
    where
      authz : Text
      authz = header_get r.header (codes "Authorization")

      by_token :
          (o : Option Text)
          → Grants cfg
              (elim o as (λ x. Outcome × Cache × W) [
                | none ↦ (refused (invalid_token (codes "malformed Authorization header")), c, w)
                | some token ↦ from_bearer lib cfg token c w
              ]).0
      by_token none = tt
      by_token (some token) = use_token-Grants cfg _

  use_headers-Grants :
      (cfg : Config) (remote : Text) (claims : Map Claim)
      → Grants cfg (use_headers lib cfg remote claims)
  unfolding use_headers
  use_headers-Grants cfg remote [] = anonymous-IsSafe cfg
  use_headers-Grants cfg remote (claim ∷ claims) =
      if-all (Grants cfg) (not (peer_trusted lib.parse_addr_port cfg.trusted_proxies remote)) _ _
        (λ h. tt) (λ h. resolve-Grants cfg (claim ∷ claims))

  -- Whenever an enabled authenticator grants access, the role is the anonymous role, the default
  -- role, or one that the list of allowed roles admits (an empty list admits all); and it is not
  -- empty if the anonymous role is not.
  pub authenticate-Grants :
      (cfg : Config) (r : Request) (c : Cache) (w : W)
      → cfg.is_enabled ≡ true
      → Grants cfg (authenticate lib cfg r c w).0
  unfolding authenticate from_headers
  authenticate-Grants cfg r c w h =
      if-all (λ (o : Outcome × Cache × W). Grants cfg o.0) (not cfg.is_enabled) _ _
        (λ e. absurd (ground arith))
        (λ e.
          if-all (λ (o : Outcome × Cache × W). Grants cfg o.0) (text_eq cfg.mode (codes "jwt")) _ _
            (λ e'. from_jwt-Grants cfg r c w)
            (λ e'.
              if-all (λ (o : Outcome × Cache × W). Grants cfg o.0)
                (text_eq cfg.mode (codes "headers")) _ _
                (λ e''. use_headers-Grants cfg r.remote_addr _) (λ e''. anonymous-IsSafe cfg)))
