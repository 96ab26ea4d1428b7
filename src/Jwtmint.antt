-- ===== src/Jwtmint.antt =====
-- jwtmint/mint.go: from the JSON of a function's result to signed tokens. encoding/json and the
-- signature of golang-jwt are parameters.
pub mod Signed
pub mod Accepted
pub mod Whole
mod Samples
use pdbcore.Prelude.{
  Bool, false, not, ◌&&◌, List, [], ◌∷◌, ◌++◌, Option, none, some, Text, codes, text_eq, is_empty,
  if◌then◌else◌,
}
use pdbcore.Prelude.Map.{Map, put}
use pdbcore.Pgexec.Tx.{Claim, string}
use pdbcore.Introspect.Catalog.{Function}

pub record Options : Type 0 where
  pub schema : Text
  pub type_name : Text
  pub secret : Text
  pub issuer : Text
  pub audience : Text

-- Options.Enabled
unfoldable pub is_enabled : Options → Bool
is_enabled o = not (is_empty o.type_name)

-- Options.MintsFunction; none is nil.
unfoldable pub mints_function : Options → Option Function → Bool
mints_function o none = false
mints_function o (some f) =
    is_enabled o && text_eq f.return_type_schema o.schema && text_eq f.return_type o.type_name

-- What a call of a library gives, or the text of its error.
pub data Reply {ℓ} (A : Type ℓ) : Type ℓ where
  ok : A → Reply A
  failed : Text → Reply A

-- The claims of a JSON object; none is null.
abbrev pub Claims : Type 0
Claims = Map (Option Claim)

-- json.Unmarshal into a slice and into a map, both of which are nil for the text null; json.Marshal
-- of these and of a string; and the token of HS256 for claims and a secret.
pub record Codec : Type 0 where
  pub unmarshal_items : Text → Reply (Option (List Text))
  pub unmarshal_claims : Text → Reply (Option Claims)
  pub marshal_items : Option (List Text) → Reply Text
  pub marshal_token : Text → Reply Text
  pub sign_hs256 : Map Claim → Text → Reply Text

-- What Mint returns: JSON, or an error's text beside the JSON that comes with it.
pub data Minted : Type 0 where
  minted : Text → Minted
  refused : Text → Text → Minted

-- The loop of Sign.
unfoldable pub add_claims : Claims → Map Claim → Map Claim
add_claims [] mc = mc
add_claims ((k, none) ∷ claims) mc = add_claims claims mc
add_claims ((k, some v) ∷ claims) mc = add_claims claims (put k v mc)

unfoldable pub add_configured : Text → Text → Map Claim → Map Claim
add_configured k v mc = if not (is_empty v) then put k (string v) mc else mc

-- The claims that Sign signs.
unfoldable pub signed_claims : Options → Claims → Map Claim
signed_claims o claims =
    add_configured (codes "aud") o.audience
      (add_configured (codes "iss") o.issuer (add_claims claims []))

-- json.Marshal returns nil beside its error.
abbrev pub marshalled : Reply Text → Minted
marshalled (ok text) = minted text
marshalled (failed e) = refused [] e

module _ (codec : Codec) where
  -- Sign
  unfoldable pub sign : Options → Claims → Reply Text
  sign o claims = codec.sign_hs256 (signed_claims o claims) o.secret

  -- Mint without set.
  unfoldable pub mint_one : Options → Text → Minted
  mint_one o raw = elim (codec.unmarshal_claims raw) [
    | failed e ↦ refused raw (codes "mint: claims: " ++ e)
    | ok none ↦ minted (codes "null")
    | ok (some claims) ↦ elim (sign o claims) [
      | failed e ↦ refused raw (codes "mint: sign: " ++ e)
      | ok token ↦ marshalled (codec.marshal_token token)
    ]
  ]

  -- The loop of Mint over the items: the new items, or the first error.
  unfoldable pub mint_items : Options → List Text → Reply (List Text)
  mint_items o [] = ok []
  mint_items o (item ∷ items) = elim (mint_one o item) [
    | refused raw e ↦ failed e
    | minted text ↦ elim (mint_items o items) [ failed e ↦ failed e | ok texts ↦ ok (text ∷ texts) ]
  ]

  -- Mint with set, behind the decoding.
  unfoldable pub mint_decoded : Options → Text → Option (List Text) → Minted
  mint_decoded o raw none = marshalled (codec.marshal_items none)
  mint_decoded o raw (some items) = elim (mint_items o items) [
    | failed e ↦ refused raw e
    | ok texts ↦ marshalled (codec.marshal_items (some texts))
  ]

  -- Mint
  unfoldable pub mint : Options → Text → Bool → Minted
  mint o raw set =
      if set
      then elim (codec.unmarshal_items raw) [
        | failed e ↦ refused raw (codes "mint: set: " ++ e)
        | ok items ↦ mint_decoded o raw items
      ]
      else mint_one o raw
