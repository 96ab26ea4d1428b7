-- ===== src/Jwtmint/Signed.antt =====
-- Which claims a minted token carries.
use pdbcore.Prelude.{
  ◌≡◌, refl, ◌∙◌, subst, inl, inr, true, false, not, ◌&&◌, [], ◌∷◌, Option, none, some, Text, codes,
  text_eq, text_eq_sound, is_empty, arith, if◌then◌else◌, Bool-cases,
}
use pdbcore.Prelude.Map.{Map, get, put, get-put}
use pdbcore.Pgexec.Tx.{Claim, string}
use pdbcore.Jwtmint.{Options, Claims, add_claims, add_configured, signed_claims}

-- The keys of a map differ.
abbrev pub IsMap : Claims → Type 0
IsMap [] = Unit
IsMap ((k, v) ∷ claims) = (get k claims ≡ none) × IsMap claims

-- What a key holds; a key that holds null holds nothing.
abbrev pub held : Option (Option Claim) → Option Claim
held none = none
held (some v) = v

abbrev pub or_else : Option Claim → Option Claim → Option Claim
or_else none d = d
or_else (some v) d = some v

module _ {V : Type 0} where
  get-cons_same :
      (j k : Text) (v : V) (m : Map V) → text_eq j k ≡ true → get k ((j, v) ∷ m) ≡ some v
  unfolding get
  get-cons_same j k v m e = rw e refl

  get-cons_other :
      (j k : Text) (v : V) (m : Map V) → text_eq j k ≡ false → get k ((j, v) ∷ m) ≡ get k m
  unfolding get
  get-cons_other j k v m e = rw e refl

get-add_claims :
    (k : Text) (claims : Claims) (mc : Map Claim)
    → IsMap claims
    → get k (add_claims claims mc) ≡ or_else (held (get k claims)) (get k mc)
unfolding add_claims
get-add_claims k [] mc h = unfold get in refl
get-add_claims k ((j, none) ∷ claims) mc (fresh, h) = elim (Bool-cases (text_eq j k)) [
  | inl e ↦
      let absent : get k claims ≡ none =
        subst (λ t. get t claims ≡ none) (text_eq_sound j k e) fresh in
      get-add_claims k claims mc h ∙ (rw (absent, get-cons_same j k none claims e) refl)
  | inr e ↦ get-add_claims k claims mc h ∙ (rw (get-cons_other j k none claims e) refl)
]
get-add_claims k ((j, some v) ∷ claims) mc (fresh, h) = elim (Bool-cases (text_eq j k)) [
  | inl e ↦
      let absent : get k claims ≡ none =
        subst (λ t. get t claims ≡ none) (text_eq_sound j k e) fresh in
      get-add_claims k claims (put j v mc) h
      ∙ (rw (absent, get-cons_same j k (some v) claims e, get-put j k v mc, e) refl)
  | inr e ↦
      get-add_claims k claims (put j v mc) h
      ∙ (rw (get-cons_other j k (some v) claims e, get-put j k v mc, e) refl)
]

-- What a token says under a key: the configured audience and issuer under their own, if there is
-- one, whatever the composite has there, and the composite's field under any other.
abbrev pub token_claim : Options → Claims → Text → Option Claim
token_claim o claims k =
    if text_eq (codes "aud") k && not (is_empty o.audience)
    then some (string o.audience)
    else if text_eq (codes "iss") k && not (is_empty o.issuer)
    then some (string o.issuer)
    else held (get k claims)

get_nil : (k : Text) → get {V = Claim} k [] ≡ none
unfolding get
get_nil k = refl

get-add_configured :
    (j k v : Text) (mc : Map Claim)
    → get k (add_configured j v mc)
      ≡ (if text_eq j k && not (is_empty v) then some (string v) else get k mc)
unfolding add_configured
get-add_configured j k v mc = ground (arith, get-put j k (string v) mc)

or_else-none : (o : Option Claim) → or_else o none ≡ o
or_else-none none = refl
or_else-none (some v) = refl

-- Under every key a token says what the configuration and the composite's fields, of different
-- names, say: the configured audience and issuer, if they are not empty, win over fields of those
-- names, every other field is there with its value, and a field that is null is left out.
pub get-signed_claims :
    (o : Options) (claims : Claims) (k : Text)
    → IsMap claims
    → get k (signed_claims o claims) ≡ token_claim o claims k
unfolding signed_claims
get-signed_claims o claims k h =
    rw
      (
        get-add_configured (codes "aud") k o.audience
            (add_configured (codes "iss") o.issuer (add_claims claims [])),
        get-add_configured (codes "iss") k o.issuer (add_claims claims []),
        get-add_claims k claims [] h,
      )
      (rw (get_nil k, or_else-none (held (get k claims))) refl)
