-- ===== src/Auth/Sources.antt =====
-- Where granted claims come from: a verified token, or headers of a trusted peer.
use pdbcore.Prelude.{
  ◌≡◌, refl, sym, subst, ◌∙◌, ◌⊎◌, inl, inr, Bool, true, false, not, any, map, lower_rune,
  replace_byte, text_eq, text_eq_iff, go_quote, List, [], ◌∷◌, ◌++◌, Option, none, some, Text,
  codes, text_eq_refl, text_eq_complete, is_empty, cut_prefix, cut_prefix_sound, elem,
  if◌then◌else◌, if-all, Bool-cases,
}
use pdbcore.Prelude.Map.{Map, get, put, get-put}
use pdbcore.Pgexec.Tx.{Claim, string}
use pdbcore.Auth.Headers.{HeaderMap, header_get, canonical_header_key}
use pdbcore.Auth.Jwks.{Cache, Answer, key}
use pdbcore.Auth.Peer.{Addr, Prefix, unmap, contains, peer_trusted}
use pdbcore.Auth.{
  Config, Request, Outcome, granted, refused, invalid_token, Library, Parsed, claims_of,
  parse_error, ParserOptions, KeySource, parser_options, key_source, uses_jwks, asymmetric_methods,
  hmac_methods, resolve, use_token, from_bearer, from_jwt, add_header, header_claims, claim_key,
  role_not_allowed, claimed_role, fallback_role, role_allowed, use_headers, from_headers,
}

abbrev pub HasClaims : Outcome → Type 0
HasClaims (granted [] role) = ⊥
HasClaims (granted (c ∷ cs) role) = Unit
HasClaims (refused e) = ⊥

-- Some header of the map has a name behind the prefix that gives the key, in lower case and with
-- underscores for hyphens, and the value in front.
abbrev pub FromHeader : Text → HeaderMap → Text → Claim → Type 0
FromHeader prefix [] k claim = ⊥
FromHeader prefix ((name, vals) ∷ h) k claim =
    ((rest : Text) × (v : Text) × (vs : List Text) × (name ≡ prefix ++ rest)
      × (vals ≡ v ∷ vs)
      × (k ≡ map lower_rune (replace_byte b'-' b'_' rest))
      × (claim ≡ string v))
    ⊎ FromHeader prefix h k claim

add_header-FromHeader :
    (prefix name : Text) (vals : List Text) (h : HeaderMap) (m : Map Claim) (k : Text)
    (claim : Claim)
    → get k (add_header prefix name vals m) ≡ some claim
    → FromHeader prefix ((name, vals) ∷ h) k claim ⊎ (get k m ≡ some claim)
unfolding add_header claim_key
add_header-FromHeader prefix name [] h m k claim e = inr e
add_header-FromHeader prefix name (v ∷ vs) h m k claim e = by_cut (cut_prefix name prefix) refl e
  where
    by_cut :
        (o : Option Text)
        → cut_prefix name prefix ≡ o
        → get k (elim o as (λ x. Map Claim) [
          | none ↦ m
          | some rest ↦ put (claim_key rest) (string v) m
        ])
          ≡ some claim
        → FromHeader prefix ((name, v ∷ vs) ∷ h) k claim ⊎ (get k m ≡ some claim)
    by_cut none q d = inr d
    by_cut (some rest) q d =
        let put_claim : text_eq (claim_key rest) k ≡ true → claim ≡ string v = λ same.
          let u = sym (get-put (claim_key rest) k (string v) m) ∙ d in
          (let w = rw same at u in cc) in
        let put_rest : text_eq (claim_key rest) k ≡ false → get k m ≡ some claim =
          λ other. let u = sym (get-put (claim_key rest) k (string v) m) ∙ d in rw other at u in
        elim (Bool-cases (text_eq (claim_key rest) k)) [
          | inl same ↦ inl (
              inl (
                rest,
                v,
                vs,
                cut_prefix_sound name prefix rest q,
                refl,
                sym ((text_eq_iff (claim_key rest) k).0 same),
                put_claim same,
              ))
          | inr other ↦ inr (put_rest other)
        ]

header_claims-FromHeader :
    (prefix : Text) (h : HeaderMap) (m : Map Claim) (k : Text) (claim : Claim)
    → get k (header_claims prefix h m) ≡ some claim
    → FromHeader prefix h k claim ⊎ (get k m ≡ some claim)
unfolding header_claims
header_claims-FromHeader prefix [] m k claim e = inr e
header_claims-FromHeader prefix ((name, vals) ∷ h) m k claim e =
    elim (header_claims-FromHeader prefix h (add_header prefix name vals m) k claim e) [
      | inl found ↦ inl (inr found)
      | inr d ↦ add_header-FromHeader prefix name vals h m k claim d
    ]

-- What is granted are these claims.
abbrev GrantsClaims : Map Claim → Outcome → Type 0
GrantsClaims claims (granted cs role) = cs ≡ claims
GrantsClaims claims (refused e) = Unit

resolve-GrantsClaims :
    (cfg : Config) (claims : Map Claim) → GrantsClaims claims (resolve cfg claims)
unfolding resolve
resolve-GrantsClaims cfg claims = by_role (claimed_role (get cfg.role_claim claims))
  where
    by_role :
        (o : Option Text)
        → GrantsClaims claims (elim o as (λ x. Outcome) [
          | none ↦ granted claims (fallback_role cfg)
          | some role ↦
              if not (role_allowed cfg role)
              then refused
                  (role_not_allowed (codes "role " ++ go_quote role ++ codes " is not allowed"))
              else granted claims role
        ])
    by_role none = refl
    by_role (some role) =
        if-all (GrantsClaims claims) (not (role_allowed cfg role)) _ _ (λ e. tt) (λ e. refl)

-- No list of proxies is configured, or the peer's address is read and a proxy of the list contains
-- it.
abbrev pub IsTrustedPeer : (Text → Option Addr) → Option (List Prefix) → Text → Type 0
IsTrustedPeer parse_addr_port proxies remote =
    (proxies ≡ none)
    ⊎ ((list : List Prefix) × (addr : Addr) × (proxies ≡ some list)
        × (parse_addr_port remote ≡ some addr)
        × (any (λ p. contains p (unmap addr)) list ≡ true))

peer_trusted-IsTrustedPeer :
    (parse_addr_port : Text → Option Addr) (proxies : Option (List Prefix)) (remote : Text)
    → peer_trusted parse_addr_port proxies remote ≡ true
    → IsTrustedPeer parse_addr_port proxies remote
unfolding peer_trusted
peer_trusted-IsTrustedPeer parse_addr_port none remote h = inl refl
peer_trusted-IsTrustedPeer parse_addr_port (some list) remote h =
    by_addr (parse_addr_port remote) refl h
  where
    by_addr :
        (o : Option Addr)
        → parse_addr_port remote ≡ o
        → (elim o as (λ x. Bool) [
          | none ↦ false
          | some addr ↦ any (λ p. contains p (unmap addr)) list
        ])
          ≡ true
        → IsTrustedPeer parse_addr_port (some list) remote
    by_addr none q k = absurd (cc)
    by_addr (some addr) q k = inr (list, addr, refl, q, k)

module _ {W : Type 0} (lib : Library W) where
  use_headers-trusted :
      (cfg : Config) (remote : Text) (claims cs : Map Claim) (role k : Text) (claim : Claim)
      → use_headers lib cfg remote claims ≡ granted cs role
      → get k cs ≡ some claim
      → (peer_trusted lib.parse_addr_port cfg.trusted_proxies remote ≡ true)
        × (get k claims ≡ some claim)
  unfolding use_headers get
  use_headers-trusted cfg remote [] cs role k claim e h =
      absurd (empty_granted (subst (GrantsClaims []) e refl))
    where
      empty_granted : cs ≡ [] → ⊥
      empty_granted same = let w = rw same at h in cc
  use_headers-trusted cfg remote (c ∷ claims) cs role k claim e h =
      elim (Bool-cases (peer_trusted lib.parse_addr_port cfg.trusted_proxies remote)) [
        | inl t ↦ (
          t,
          subst (λ m. get k m ≡ some claim)
              (subst (GrantsClaims (c ∷ claims)) (rw t at e)
                (resolve-GrantsClaims cfg (c ∷ claims)))
              h,
        )
        | inr f ↦ absurd (let w = rw f at e in cc)
      ]

  -- Every claim that headers mode grants was sent in a header whose name, behind the prefix, gives
  -- its key, with that header's first value; and the peer that sent the request is trusted: no
  -- list of proxies is configured, or the peer's address is read and a proxy of the list contains
  -- it. So a peer whose address does not parse, or any peer with an empty list, gets no claim.
  pub from_headers_trusted :
      (cfg : Config) (r : Request) (claims : Map Claim) (role k : Text) (claim : Claim)
      → from_headers lib cfg r ≡ granted claims role
      → get k claims ≡ some claim
      → IsTrustedPeer lib.parse_addr_port cfg.trusted_proxies r.remote_addr
        × FromHeader (canonical_header_key cfg.header_prefix) r.header k claim
  unfolding from_headers get
  from_headers_trusted cfg r claims role k claim e h =
      let prefix = canonical_header_key cfg.header_prefix in
      let (t, sent) =
        use_headers-trusted cfg r.remote_addr (header_claims prefix r.header []) claims role k claim
          e h in
      (
        peer_trusted-IsTrustedPeer lib.parse_addr_port cfg.trusted_proxies r.remote_addr t,
        elim (header_claims-FromHeader prefix r.header [] k claim sent) [
          | inl found ↦ found
          | inr d ↦ absurd (cc)
        ],
      )

  -- golang-jwt's WithValidMethods: a token that parses has one of the listed algorithms.
  abbrev pub HonoursMethods : (Text → Text) → Type 0
  HonoursMethods alg =
      (opts : ParserOptions) (token : Text) (source : KeySource)
      (keyfunc : Text → Cache → W → Answer × Cache × W) (c : Cache) (w : W) (claims : Map Claim)
      → (lib.parse_token opts token source keyfunc c w).0 ≡ claims_of claims
      → elem (alg token) opts.methods ≡ true

  -- The outcome rests on a bearer token that was verified under the options of the configuration,
  -- with an algorithm of the given list.
  abbrev pub Verified : (Text → Text) → List Text → Config → Request → Cache → W → Outcome → Type 0
  Verified alg methods cfg r c w o =
      (token : Text) × (claims : Map Claim) × (header_get r.header (codes "Authorization")
        ≡ codes "Bearer " ++ token)
      × ((lib.parse_token (parser_options cfg) token (key_source cfg) (key lib.outside) c w).0
          ≡ claims_of claims)
      × (elem (alg token) methods ≡ true)
      × (o ≡ resolve cfg claims)

  from_bearer-Verified :
      (alg : Text → Text)
      → HonoursMethods alg
      → (cfg : Config) (r : Request) (token : Text) (c : Cache) (w : W)
      → header_get r.header (codes "Authorization") ≡ codes "Bearer " ++ token
      → HasClaims (from_bearer lib cfg token c w).0
      → Verified alg (parser_options cfg).methods cfg r c w (from_bearer lib cfg token c w).0
  unfolding from_bearer use_token
  from_bearer-Verified alg honours cfg r token c w e h =
      by_parsed
        (lib.parse_token (parser_options cfg) token (key_source cfg) (key lib.outside) c w).0 refl h
    where
      by_parsed :
          (p : Parsed)
          → (lib.parse_token (parser_options cfg) token (key_source cfg) (key lib.outside) c w).0
            ≡ p
          → HasClaims (use_token cfg p)
          → Verified alg (parser_options cfg).methods cfg r c w (use_token cfg p)
      by_parsed (claims_of claims) q k =
          (token, claims, e, q, honours _ token _ _ c w claims q, refl)
      by_parsed (parse_error text) q k = absurd k

  -- In jwt mode claims are granted only for a bearer token that the library verified under the
  -- configured options, expiry required, and they are those of the token; with a JWKS endpoint
  -- the token's algorithm is an asymmetric one, so that no public key serves as an HMAC secret.
  pub from_jwt-Verified :
      (alg : Text → Text)
      → HonoursMethods alg
      → (cfg : Config) (r : Request) (c : Cache) (w : W) → HasClaims (from_jwt lib cfg r c w).0
      → Verified alg
          (if uses_jwks cfg then asymmetric_methods else hmac_methods)
          cfg
          r
          c
          w
          (from_jwt lib cfg r c w).0
        × ((parser_options cfg).expiration_required ≡ true)
  unfolding from_jwt parser_options
  from_jwt-Verified alg honours cfg r c w h = (
    if-all
        (λ (o : Outcome × Cache × W).
          HasClaims o.0 → Verified alg (parser_options cfg).methods cfg r c w o.0)
        (is_empty authz) _ _ (λ e k. absurd k)
        (λ e. by_token (cut_prefix authz (codes "Bearer ")) refl) h,
    refl,
  )
    where
      authz : Text
      authz = header_get r.header (codes "Authorization")

      by_token :
          (o : Option Text)
          → cut_prefix authz (codes "Bearer ") ≡ o
          → HasClaims
              (elim o as (λ x. Outcome × Cache × W) [
                | none ↦ (refused (invalid_token (codes "malformed Authorization header")), c, w)
                | some token ↦ from_bearer lib cfg token c w
              ]).0
          → Verified alg
              (parser_options cfg).methods
              cfg
              r
              c
              w
              (elim o as (λ x. Outcome × Cache × W) [
                | none ↦ (refused (invalid_token (codes "malformed Authorization header")), c, w)
                | some token ↦ from_bearer lib cfg token c w
              ]).0
      by_token none e k = absurd k
      by_token (some token) e k =
          from_bearer-Verified alg honours cfg r token c w
            (cut_prefix_sound authz (codes "Bearer ") token e) k

-- Two headers whose names give one claim key, such as X-Claim-A-B and X-Claim-A_b: whichever the
-- range over the header map meets last decides the claim.
pub header_claims-last :
    (prefix m n a b v w : Text)
    → cut_prefix m prefix ≡ some a
    → cut_prefix n prefix ≡ some b
    → claim_key a ≡ claim_key b
    → (get (claim_key a) (header_claims prefix ((m, v ∷ []) ∷ (n, w ∷ []) ∷ []) [])
        ≡ some (string w))
      × (get (claim_key a) (header_claims prefix ((n, w ∷ []) ∷ (m, v ∷ []) ∷ []) [])
          ≡ some (string v))
unfolding header_claims add_header
header_claims-last prefix m n a b v w p q e = (
  rw (q, add_header, get-put, text_eq_complete _ _ (sym e)),
  rw (p, add_header, get-put, text_eq_refl),
)
