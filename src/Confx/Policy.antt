-- ===== src/Confx/Policy.antt =====
-- What a configuration that passes its validation is worth to the parts that use it.
use pdbcore.Prelude.{
  ◌≡◌, refl, arith, ◌↔◌, Bool, true, false, not, ◌||◌, ◌&&◌, List, [], ◌∷◌, Option, none, some,
  Text, codes, text_eq_iff, is_empty, elem, any,
}
use pdbcore.Prelude.Int.{is_negative}
use pdbcore.Introspect.Diff.Reports.{append-nil_inv, append-nil_of}
use pdbcore.Pgexec.Classify.{Detail, parse_detail}
use pdbcore.Pgexec.Tx.{TxIsoLevel, read_committed, repeatable_read, serializable, parse_isolation}
use pdbcore.Auth.{Config, Outcome, granted, refused, Request, Library, authenticate}
use pdbcore.Auth.Jwks.{Cache}
use pdbcore.Auth.Roles.{Grants, authenticate-Grants}
use pdbcore.Auth.Peer.{Addr, Prefix, contains, unmap, peer_trusted}
use pdbcore.Confx.{
  Rls, TxSection, Netip, complain, mode_errors, secret_errors, mint_errors, jwt_type_errors,
  role_errors, validate_errors, validate_tx, validate_rls, proxy_errors, proxy_prefixes,
  parse_trusted_proxy, trusted, auth_config,
}

complain-nil_inv : (bad : Bool) (message : Text) → complain bad message ≡ [] → bad ≡ false
unfolding complain
complain-nil_inv bad message h = ground arith

complain-nil : (bad : Bool) (message : Text) → bad ≡ false → complain bad message ≡ []
unfolding complain
complain-nil bad message h = rw h

both_false : (a b : Bool) → (a && b) ≡ false → a ≡ true → b ≡ false
both_false a b h on = ground arith

role_errors-nil_inv :
    (c : Rls) → role_errors c ≡ [] → c.is_enabled ≡ true → is_empty c.anonymous_role ≡ false
unfolding role_errors
role_errors-nil_inv c h on =
    both_false c.is_enabled (is_empty c.anonymous_role) (complain-nil_inv _ _ h) on

-- A granted request has a role to run as.
abbrev pub HasRole : Outcome → Type 0
HasRole (granted claims role) = is_empty role ≡ false
HasRole (refused e) = Unit

Grants-HasRole :
    (cfg : Config) (o : Outcome) → is_empty cfg.anonymous_role ≡ false → Grants cfg o → HasRole o
Grants-HasRole cfg (granted claims role) h (permitted, named) = named h
Grants-HasRole cfg (refused e) h g = tt

module _ (netip : Netip) where
  validated_anonymous_role :
      (c : Rls)
      → validate_rls netip c ≡ []
      → c.is_enabled ≡ true
      → is_empty c.anonymous_role ≡ false
  unfolding validate_rls
  validated_anonymous_role c h on =
      let (m, h1) = append-nil_inv (mode_errors c.auth) _ h in
      let (p, h2) = append-nil_inv (proxy_errors netip c.auth.trusted_proxies) _ h1 in
      let (s, h3) = append-nil_inv (secret_errors c) _ h2 in
      let (t, h4) = append-nil_inv (mint_errors c.auth) _ h3 in
      let (q, h5) = append-nil_inv (jwt_type_errors c.auth) (role_errors c) h4 in
      role_errors-nil_inv c h5 on

  -- With a validated and enabled rls section no request that Authenticate grants comes out
  -- without a role, whatever the mode, the token library and the request are: none of them runs
  -- as the connection's own role.
  pub authenticate-HasRole :
      {W : Type 0} (lib : Library W) (c : Rls) (r : Request) (cache : Cache) (w : W)
      → validate_rls netip c ≡ []
      → c.is_enabled ≡ true
      → HasRole (authenticate lib (auth_config netip c) r cache w).0
  authenticate-HasRole lib c r cache w h on =
      Grants-HasRole (auth_config netip c) _ (unfold auth_config in validated_anonymous_role c h on)
        (authenticate-Grants lib (auth_config netip c) r cache w (unfold auth_config in on))

  -- An entry of trusted_proxies covers an address.
  abbrev pub covers : Addr → Text → Bool
  covers addr p = elim (parse_trusted_proxy netip p) [
    | none ↦ false
    | some pfx ↦ contains pfx (unmap addr)
  ]

  any-proxy_prefixes :
      (addr : Addr) (ps : List Text)
      → any (λ pfx. contains pfx (unmap addr)) (proxy_prefixes netip ps) ≡ any (covers addr) ps
  unfolding any proxy_prefixes
  any-proxy_prefixes addr [] = refl
  any-proxy_prefixes addr (p ∷ ps) =
      by_parsed (parse_trusted_proxy netip p) (any-proxy_prefixes addr ps)
    where
      by_parsed :
          (o : Option Prefix)
          → any (λ pfx. contains pfx (unmap addr)) (proxy_prefixes netip ps) ≡ any (covers addr) ps
          → any
              (λ pfx. contains pfx (unmap addr))
              (elim o [ none ↦ proxy_prefixes netip ps | some pfx ↦ pfx ∷ proxy_prefixes netip ps ])
            ≡ (elim o [ none ↦ false | some pfx ↦ contains pfx (unmap addr) ]
                || any (covers addr) ps)
      by_parsed none ih = ih
      by_parsed (some pfx) ih = rw ih

  -- Once any proxy is configured, a peer may supply claim headers exactly if its address is read
  -- and one of the entries that are read covers it, whether or not the section was validated: an
  -- entry that does not parse trusts nobody.
  pub peer_trusted-auth_config :
      (parse_addr_port : Text → Option Addr) (c : Rls) (p : Text) (ps : List Text) (remote : Text)
      → c.auth.trusted_proxies ≡ p ∷ ps
      → peer_trusted parse_addr_port (auth_config netip c).trusted_proxies remote
        ≡ elim (parse_addr_port remote) [ none ↦ false | some addr ↦ any (covers addr) (p ∷ ps) ]
  unfolding auth_config trusted peer_trusted
  peer_trusted-auth_config parse_addr_port c p ps remote h =
      rw (h, trusted, peer_trusted) (by_addr (parse_addr_port remote))
    where
      by_addr :
          (o : Option Addr)
          → elim o as (λ x. Bool) [
            | none ↦ false
            | some addr ↦ any (λ q. contains q (unmap addr)) (proxy_prefixes netip (p ∷ ps))
          ]
            ≡ elim o as (λ x. Bool) [ none ↦ false | some addr ↦ any (covers addr) (p ∷ ps) ]
      by_addr none = refl
      by_addr (some addr) = any-proxy_prefixes addr (p ∷ ps)

-- The spelling of a level and of a detail.
abbrev pub isolation_text : TxIsoLevel → Text
isolation_text read_committed = codes "read_committed"
isolation_text repeatable_read = codes "repeatable_read"
isolation_text serializable = codes "serializable"

abbrev pub detail_text : Detail → Text
detail_text Detail.prod = codes "prod"
detail_text Detail.dev = codes "dev"
detail_text Detail.strict = codes "strict"

isolation_known :
    (s : Text)
    → (not (elem s (codes "read_committed" ∷ codes "repeatable_read" ∷ codes "serializable" ∷ []))
        ≡ false)
      ↔ (isolation_text (parse_isolation s) ≡ s)
unfolding parse_isolation elem
isolation_known s = (
  ground (
    arith,
    text_eq_iff s (codes "read_committed"),
    text_eq_iff s (codes "repeatable_read"),
    text_eq_iff s (codes "serializable"),
  ),
  ground (
    arith,
    text_eq_iff s (codes "read_committed"),
    text_eq_iff s (codes "repeatable_read"),
    text_eq_iff s (codes "serializable"),
  ),
)

-- ValidateTX accepts exactly the sections whose isolation ParseIsolation reads as what is written
-- there, not as its default for unknown texts, and whose number of retries is not negative.
pub validate_tx-parse_isolation :
    (t : TxSection)
    → (validate_tx t ≡ []) ↔ (
        (isolation_text (parse_isolation t.isolation) ≡ t.isolation)
        × (is_negative t.max_retries ≡ false))
unfolding validate_tx
validate_tx-parse_isolation t = (
  λ h.
      let (known, retries) = append-nil_inv _ _ h in
      ((isolation_known t.isolation).0 (complain-nil_inv _ _ known), complain-nil_inv _ _ retries),
  λ (known, retries).
      append-nil_of _ _ (complain-nil _ _ ((isolation_known t.isolation).1 known))
        (complain-nil _ _ retries),
)

-- ValidateErrors accepts exactly the details that ParseDetail reads as what is written there.
pub validate_errors-parse_detail :
    (detail : Text) → (validate_errors detail ≡ []) ↔ (detail_text (parse_detail detail) ≡ detail)
unfolding validate_errors parse_detail elem
validate_errors-parse_detail detail = (
  ground (
    arith,
    text_eq_iff detail (codes "dev"),
    text_eq_iff detail (codes "strict"),
    text_eq_iff detail (codes "prod"),
  ),
  ground (
    arith,
    text_eq_iff detail (codes "dev"),
    text_eq_iff detail (codes "strict"),
    text_eq_iff detail (codes "prod"),
  ),
)
