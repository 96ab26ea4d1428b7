-- ===== src/Auth/Jwks/Rate.antt =====
-- When the key cache asks its endpoint, and what it answers from.
use pdbcore.Prelude.{
  ℕ, zero, suc, ◌≡◌, refl, ◌⊎◌, false, List, [], ◌∷◌, none, some, arith, Text, ltb, length,
}
use pdbcore.Auth.Jwks.{
  Key, Cache, Outside, Answer, found, failed, JwksError, minute, lookup_key, fetch_locked, since,
  is_stale, key_or_refetch, key, read_response,
}

module _ {W : Type 0} (out : Outside W) where
  key_or_refetch_found :
      (kid : Text) (c : Cache) (w : W) (k : Key)
      → (key_or_refetch out kid c w).0 ≡ found k
      → lookup_key kid (key_or_refetch out kid c w).1.keys ≡ some k
  unfolding key_or_refetch
  key_or_refetch_found kid c w k h = ground arith

  -- A key that is returned is the one that the cache, after the call, holds for the kid.
  pub key_found :
      (kid : Text) (c : Cache) (w : W) (k : Key)
      → (key out kid c w).0 ≡ found k
      → lookup_key kid (key out kid c w).1.keys ≡ some k
  unfolding key
  key_found kid c w k h = ground (
    arith,
    key_or_refetch_found kid c w k,
    key_or_refetch_found kid (fetch_locked out c w).1 (fetch_locked out c w).2 k,
  )

  -- The request of `fetchLocked`, and nothing else, moves the world.
  fetch_locked-world : (c : Cache) (w : W) → (fetch_locked out c w).2 ≡ (out.request w).1
  unfolding fetch_locked
  fetch_locked-world c w = ground arith

  fetch_locked-failed :
      (c : Cache) (w : W) (e : JwksError)
      → (fetch_locked out c w).0 ≡ some e
      → (fetch_locked out c w).1 ≡ c
  unfolding fetch_locked
  fetch_locked-failed c w e h = ground arith

  -- One request was made, or two, or none.
  abbrev pub Requests : W → W → Type 0
  Requests w v = (v ≡ w) ⊎ ((v ≡ (out.request w).1) ⊎ (v ≡ (out.request (out.request w).1).1))

  -- A call makes at most two requests.
  pub key-Requests : (kid : Text) (c : Cache) (w : W) → Requests w (key out kid c w).2
  unfolding key key_or_refetch
  key-Requests kid c w = ground (
    arith,
    fetch_locked-world c w,
    fetch_locked-world (fetch_locked out c w).1 (fetch_locked out c w).2,
  )

  -- A run of calls, as tokens with these kids arrive.
  unfoldable pub calls : List Text → Cache → W → List Answer × Cache × W
  calls [] c w = ([], c, w)
  calls (kid ∷ kids) c w =
      let (a, c', w') = key out kid c w in
      let (as', c'', w'') = calls kids c' w' in (a ∷ as', c'', w'')

  key-quiet :
      (kid : Text) (c : Cache) (w : W)
      → is_stale out c w ≡ false
      → ltb minute (since out c w) ≡ false
      → ((key out kid c w).1 ≡ c) × ((key out kid c w).2 ≡ w)
  unfolding key key_or_refetch
  key-quiet kid c w fresh recent = ground arith

  -- While the keys are within their ttl and were fetched at most a minute ago, no run of calls,
  -- whatever kids the tokens carry, makes a request or changes the cache.
  pub calls_quiet :
      (kids : List Text) (c : Cache) (w : W)
      → is_stale out c w ≡ false
      → ltb minute (since out c w) ≡ false
      → ((calls kids c w).1 ≡ c) × ((calls kids c w).2 ≡ w)
  unfolding calls
  calls_quiet [] c w fresh recent = (refl, refl)
  calls_quiet (kid ∷ kids) c w fresh recent =
      let (same, still) = key-quiet kid c w fresh recent in
      rw (same, still) (calls_quiet kids c w fresh recent)

  -- After n requests.
  unfoldable pub after : ℕ → W → W
  after zero w = w
  after (suc n) w = after n (out.request w).1

  -- An endpoint that is down: no response can be used.
  abbrev pub IsDown : Type 0
  IsDown = (w : W) → (e : JwksError) × ((read_response out (out.request w).0).0 ≡ some e)

  fetch_locked-down :
      IsDown
      → (c : Cache) (w : W)
      → (e : JwksError) × (fetch_locked out c w ≡ (some e, c, (out.request w).1))
  unfolding fetch_locked
  fetch_locked-down down c w = let (e, h) = down w in (e, rw (h, fetch_locked))

  key-down :
      IsDown
      → (kid : Text) (c : Cache) (w : W) → c.keys ≡ none
      → (e : JwksError) × (key out kid c w ≡ (failed e, c, (out.request w).1))
  unfolding key is_stale
  key-down down kid c w empty = let (e, h) = fetch_locked-down down c w in (e, ground arith)

  -- While the endpoint is down and no keys have been fetched, every call makes a request: n calls
  -- make n of them, however fast they come, and the cache stays as it is.
  pub calls_down :
      IsDown
      → (kids : List Text) (c : Cache) (w : W) → c.keys ≡ none
      → ((calls kids c w).1 ≡ c) × ((calls kids c w).2 ≡ after (length kids) w)
  unfolding calls after
  calls_down down [] c w empty = (refl, refl)
  calls_down down (kid ∷ kids) c w empty =
      let (e, h) = key-down down kid c w empty in
      rw h (calls_down down kids c (out.request w).1 empty)
