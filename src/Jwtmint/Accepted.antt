-- ===== src/Jwtmint/Accepted.antt =====
-- A token that was minted is accepted by package auth under the same configuration.
use pdbcore.Prelude.{
  ◌≡◌, refl, ap, ◌∙◌, sym, subst, true, false, List, ◌++◌, Option, none, some, Text, codes, text_eq,
  is_empty, elem, cut_prefix-append, if-all,
}
use pdbcore.Prelude.Map.{Map, get}
use pdbcore.Pgexec.Tx.{Claim, string}
use pdbcore.Auth.Headers.{header_get}
use pdbcore.Auth.Jwks.{Cache, Answer, key}
use pdbcore.Auth.{
  Config, Request, Library, claims_of, ParserOptions, secret, parser_options, key_source, uses_jwks,
  hmac_methods, nonempty, resolve, use_token, from_bearer, from_jwt,
}
use pdbcore.Jwtmint.{Options, ok, Codec, Claims, signed_claims, sign}
use pdbcore.Jwtmint.Signed.{IsMap, get-signed_claims}

-- A claim that an option asks for.
abbrev pub Meets : Option Text → Text → Map Claim → Type 0
Meets none k claims = Unit
Meets (some expected) k claims = get k claims ≡ some (string expected)

-- golang-jwt: a token of HS256 parses to its claims with the same secret, if the algorithm is
-- allowed, the claims are current (exp is there and lies ahead, nbf and iat do not), and the issuer
-- and the audience are those that the options ask for.
abbrev pub Verifies : {W : Type 0} → Codec → Library W → (Map Claim → W → Type 0) → Type 0
Verifies {W} codec lib IsCurrent =
    (claims : Map Claim) (key_text token : Text) (opts : ParserOptions)
    (keyfunc : Text → Cache → W → Answer × Cache × W) (c : Cache) (w : W)
    → codec.sign_hs256 claims key_text ≡ ok token
    → elem (codes "HS256") opts.methods ≡ true
    → IsCurrent claims w
    → Meets opts.issuer (codes "iss") claims
    → Meets opts.audience (codes "aud") claims
    → (lib.parse_token opts token (secret key_text) keyfunc c w).0 ≡ claims_of claims

-- The signing parameters of a configuration.
abbrev pub SignsFor : Options → Config → Type 0
SignsFor o cfg =
    (o.secret ≡ cfg.jwt_secret) × (o.issuer ≡ cfg.jwt_issuer) × (o.audience ≡ cfg.jwt_audience)

Meets-issuer :
    (o : Options) (claims : Claims)
    → IsMap claims
    → Meets (nonempty o.issuer) (codes "iss") (signed_claims o claims)
unfolding nonempty
Meets-issuer o claims h =
    if-all (λ (m : Option Text). Meets m (codes "iss") (signed_claims o claims)) (is_empty o.issuer)
      _ _ (λ e. tt)
      (λ e. get-signed_claims o claims (codes "iss") h ∙ (unfold text_eq in rw e refl))

Meets-audience :
    (o : Options) (claims : Claims)
    → IsMap claims
    → Meets (nonempty o.audience) (codes "aud") (signed_claims o claims)
unfolding nonempty
Meets-audience o claims h =
    if-all (λ (m : Option Text). Meets m (codes "aud") (signed_claims o claims))
      (is_empty o.audience) _ _ (λ e. tt)
      (λ e. get-signed_claims o claims (codes "aud") h ∙ (unfold text_eq in rw e refl))

hmac_allowed : (cfg : Config) → uses_jwks cfg ≡ false → (parser_options cfg).methods ≡ hmac_methods
unfolding parser_options
hmac_allowed cfg h = rw h refl

secret_source : (cfg : Config) → uses_jwks cfg ≡ false → key_source cfg ≡ secret cfg.jwt_secret
unfolding key_source
secret_source cfg h = rw h refl

module _ {W : Type 0} (codec : Codec) (lib : Library W) (IsCurrent : Map Claim → W → Type 0) where
  minted-verified :
      Verifies codec lib IsCurrent
      → (o : Options) (cfg : Config) (claims : Claims) (token : Text) (c : Cache) (w : W)
      → SignsFor o cfg
      → uses_jwks cfg ≡ false
      → IsMap claims
      → sign codec o claims ≡ ok token
      → IsCurrent (signed_claims o claims) w
      → (lib.parse_token (parser_options cfg) token (key_source cfg) (key lib.outside) c w).0
        ≡ claims_of (signed_claims o claims)
  unfolding sign
  minted-verified verifies o cfg claims token c w (same_secret, same_issuer, same_audience) no_jwks
        is_map signed current =
      subst
        (λ source.
          (lib.parse_token (parser_options cfg) token source (key lib.outside) c w).0
          ≡ claims_of (signed_claims o claims))
        (sym (secret_source cfg no_jwks))
        (verifies (signed_claims o claims) cfg.jwt_secret token (parser_options cfg)
          (key lib.outside) c w
          (subst (λ s. codec.sign_hs256 (signed_claims o claims) s ≡ ok token) same_secret signed)
          (subst (λ (ms : List Text). elem (codes "HS256") ms ≡ true)
            (sym (hmac_allowed cfg no_jwks)) (unfold elem text_eq in refl))
          current
          (unfold parser_options in
            subst (λ i. Meets (nonempty i) (codes "iss") (signed_claims o claims)) same_issuer
              (Meets-issuer o claims is_map))
          (unfold parser_options in
            subst (λ i. Meets (nonempty i) (codes "aud") (signed_claims o claims)) same_audience
              (Meets-audience o claims is_map)))

  -- Where golang-jwt verifies what it signed: a request that brings a token minted of a map is
  -- granted what the token's claims resolve to, by jwt mode with the same secret, issuer and
  -- audience and without a JWKS endpoint, while the claims are current, whatever the composite has
  -- for iss and aud.
  pub from_jwt-sign :
      Verifies codec lib IsCurrent
      → (o : Options) (cfg : Config) (claims : Claims) (token : Text) (r : Request) (c : Cache)
        (w : W)
      → SignsFor o cfg
      → uses_jwks cfg ≡ false
      → IsMap claims
      → sign codec o claims ≡ ok token
      → header_get r.header (codes "Authorization") ≡ codes "Bearer " ++ token
      → IsCurrent (signed_claims o claims) w
      → (from_jwt lib cfg r c w).0 ≡ resolve cfg (signed_claims o claims)
  unfolding from_jwt
  from_jwt-sign verifies o cfg claims token r c w same no_jwks is_map signed brought current =
      rw (brought, cut_prefix-append (codes "Bearer ") token)
        (unfold is_empty from_bearer use_token in
          ap (use_token cfg)
            (minted-verified verifies o cfg claims token c w same no_jwks is_map signed current))
