-- ===== src/Auth/Jwks.antt =====
-- auth/jwks.go: the cache of a JWKS endpoint's signing keys.
pub mod Rate
use pdbcore.Prelude.{
  ℕ, ◌+◌, ◌-◌, ◌*◌, Bool, true, not, ◌&&◌, ◌||◌, List, [], ◌∷◌, ◌++◌, Option, none, some, Text,
  codes, text_eq, is_empty, ltb, ◌==◌, if◌then◌else◌,
}
use pdbcore.Prelude.Int.{ℤ, pos, pos_part, ltz, int64}
use pdbcore.Prelude.Map.{Map, get, put}

pub record Jwk : Type 0 where
  pub kty : Text
  pub kid : Text
  pub use_ : Text
  pub n : Text
  pub e : Text
  pub crv : Text
  pub x : Text
  pub y : Text

pub data Curve : Type 0 where
  p256 p384 p521 : Curve

-- A public key: modulus and exponent, or a curve and the bytes of an uncompressed point.
pub data Key : Type 0 where
  rsa : ℕ → ℤ → Key
  ec : Curve → Text → Key

-- big.Int.SetBytes, behind the number of the bytes in front.
unfoldable pub big_int : ℕ → Text → ℕ
big_int n [] = n
big_int n (b ∷ bytes) = big_int (n * 256 + b) bytes

unfoldable pub curve_of : Text → Option Curve
curve_of crv =
    if text_eq crv (codes "P-256")
    then some p256
    else if text_eq crv (codes "P-384")
    then some p384
    else if text_eq crv (codes "P-521")
    then some p521
    else none

infixl 5 ◌>>=◌
abbrev pub ◌>>=◌ : {A B : Type 0} → Option A → (A → Option B) → Option B
none >>= f = none
some a >>= f = f a

-- Why no key was returned.
pub data JwksError : Type 0 where
  fetch_failed : Text → JwksError
  bad_status : ℕ → JwksError
  undecodable : JwksError
  no_usable_keys : JwksError
  no_key : Text → JwksError

-- What `key` returns.
pub data Answer : Type 0 where
  found : Key → Answer
  failed : JwksError → Answer

-- client.Get: an error, or a status with the decoded keys (none: the body does not decode).
pub data Response : Type 0 where
  network_error : Text → Response
  response : ℕ → Option (List Jwk) → Response

-- What the cache uses of the outside: base64url and the check of a point (Go's library), the
-- clock in nanoseconds, and one request to the endpoint.
pub record Outside (W : Type 0) : Type 0 where
  pub decode_base64 : Text → Option Text
  pub on_curve : Curve → Text → Bool
  pub now : W → ℕ
  pub request : W → Response × W

pub record Cache : Type 0 where
  pub url : Text
  pub ttl : ℕ
  pub keys : Option (Map Key)
  pub fetched : ℕ

abbrev pub second : ℕ
second = 1_000_000_000

abbrev pub minute : ℕ
minute = 60 * second

unfoldable pub new_jwks_cache : Text → ℤ → Cache
new_jwks_cache url ttl = record {
  url = url;
  ttl = if ltz (pos 0) ttl then pos_part ttl else 60 * minute;
  keys = none;
  fetched = 0;
}

-- lookupLocked
unfoldable pub only_key : Map Key → Option Key
only_key ((k, key) ∷ []) = some key
only_key _ = none

unfoldable pub lookup_key : Text → Option (Map Key) → Option Key
unfolding only_key get
lookup_key kid none = none
lookup_key kid (some keys) = if not (is_empty kid) then get kid keys else only_key keys

module _ {W : Type 0} (out : Outside W) where
  -- jwk.publicKey; none stands for each of its errors, which all make the entry be skipped. Of an
  -- exponent of more than 64 bits Int64 keeps the low bits.
  unfoldable pub rsa_key : Jwk → Option Key
  unfolding big_int int64
  rsa_key k = do
    n ← out.decode_base64 k.n
    e ← out.decode_base64 k.e
    some (rsa (big_int 0 n) (int64 (big_int 0 e)))

  unfoldable pub ec_point : Curve → Text → Text → Option Key
  ec_point curve x y =
      let point = 4 ∷ (x ++ y) in if out.on_curve curve point then some (ec curve point) else none

  unfoldable pub ec_key : Jwk → Option Key
  unfolding curve_of ec_point
  ec_key k = do
    curve ← curve_of k.crv
    x ← out.decode_base64 k.x
    y ← out.decode_base64 k.y
    ec_point curve x y

  unfoldable pub public_key : Jwk → Option Key
  unfolding rsa_key ec_key
  public_key k =
      if text_eq k.kty (codes "RSA")
      then rsa_key k
      else if text_eq k.kty (codes "EC")
      then ec_key k
      else none

  -- The keys that one entry adds.
  unfoldable pub add_key : Jwk → Map Key → Map Key
  unfolding put
  add_key k keys =
      if not (is_empty k.use_) && not (text_eq k.use_ (codes "sig"))
      then keys
      else elim (public_key k) [ none ↦ keys | some key ↦ put k.kid key keys ]

  unfoldable pub usable_keys : List Jwk → Map Key → Map Key
  unfolding add_key
  usable_keys [] keys = keys
  usable_keys (k ∷ ks) keys = usable_keys ks (add_key k keys)

  unfoldable pub nonempty_keys : Map Key → Option JwksError × Map Key
  nonempty_keys [] = (some no_usable_keys, [])
  nonempty_keys (k ∷ ks) = (none, k ∷ ks)

  unfoldable pub read_body : Option (List Jwk) → Option JwksError × Map Key
  unfolding usable_keys nonempty_keys
  read_body none = (some undecodable, [])
  read_body (some doc) = nonempty_keys (usable_keys doc [])

  -- What fetchLocked makes of a response: the new keys or an error.
  unfoldable pub read_response : Response → Option JwksError × Map Key
  unfolding read_body
  read_response (network_error text) = (some (fetch_failed text), [])
  read_response (response status body) =
      if not (status == 200) then (some (bad_status status), []) else read_body body

  -- fetchLocked
  unfoldable pub fetch_locked : Cache → W → Option JwksError × Cache × W
  unfolding read_response
  fetch_locked c w =
      let (resp, w') = out.request w in
      let (err, keys) = read_response resp in
      elim err [
        | some e ↦ (some e, c, w')
        | none ↦ (none, record c { keys = some keys; fetched = out.now w' }, w')
      ]

  -- time.Since(c.fetched)
  abbrev pub since : Cache → W → ℕ
  since c w = out.now w - c.fetched

  unfoldable pub is_stale : Cache → W → Bool
  is_stale c w = elim c.keys [ none ↦ true | some keys ↦ ltb c.ttl (since c w) ]

  -- The second part of `key`, after the set is known to be fresh.
  unfoldable pub key_or_refetch : Text → Cache → W → Answer × Cache × W
  key_or_refetch kid c w = elim (lookup_key kid c.keys) [
    | some k ↦ (found k, c, w)
    | none ↦
        if ltb minute (since c w)
        then (let (err, c', w') = fetch_locked c w in
            elim err [
              | some e ↦ (failed e, c', w')
              | none ↦ elim (lookup_key kid c'.keys) [
                | some k ↦ (found k, c', w')
                | none ↦ (failed (no_key kid), c', w')
              ]
            ])
        else (failed (no_key kid), c, w)
  ]

  unfoldable pub key : Text → Cache → W → Answer × Cache × W
  unfolding key_or_refetch is_stale
  key kid c w =
      if is_stale c w
      then (let (err, c', w') = fetch_locked c w in
          elim err [ some e ↦ (failed e, c', w') | none ↦ key_or_refetch kid c' w' ])
      else key_or_refetch kid c w
