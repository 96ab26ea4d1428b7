-- ===== src/Watch/Polls.antt =====
-- Which catalogs poll passes on.
use pdbcore.Prelude.{
  ◌≡◌, refl, arith, Bool, false, not, List, [], ◌∷◌, Text, text_eq, is_empty, map, keep, All,
}
use pdbcore.Watch.{Tick, no_catalog, no_hash, hashed, poll}

-- Each with the one behind it.
unfoldable pub neighbours : {A : Type 0} → List A → List (A × A)
neighbours [] = []
neighbours (x ∷ []) = []
neighbours (x ∷ y ∷ zs) = (x, y) ∷ neighbours (y ∷ zs)

module _ {C : Type 0} where
  -- The catalogs with their hashes, without the failures between them.
  pub seen : List (Tick C) → List (C × Text)
  seen [] = []
  seen (no_catalog ∷ ticks) = seen ticks
  seen (no_hash cat ∷ ticks) = seen ticks
  seen (hashed cat hash ∷ ticks) = (cat, hash) ∷ seen ticks

  abbrev pub is_drift : (C × Text) × (C × Text) → Bool
  is_drift p = not (text_eq p.1.1 p.0.1)

  abbrev pub second_catalog : (C × Text) × (C × Text) → C
  second_catalog p = p.1.0

  -- The second of any two neighbours whose hashes differ.
  abbrev pub drifts : List (C × Text) → List C
  drifts xs = map second_catalog (keep is_drift (neighbours xs))

  abbrev pub HasHash : Tick C → Type 0
  HasHash no_catalog = Unit
  HasHash (no_hash cat) = Unit
  HasHash (hashed cat hash) = is_empty hash ≡ false

  poll-drifts_from :
      (ticks : List (Tick C)) (cat : C) (last : Text)
      → is_empty last ≡ false
      → All HasHash ticks
      → poll ticks last ≡ drifts ((cat, last) ∷ seen ticks)
  unfolding poll seen neighbours keep
  poll-drifts_from [] cat last h hs = refl
  poll-drifts_from (no_catalog ∷ ticks) cat last h (hx, hs) = poll-drifts_from ticks cat last h hs
  poll-drifts_from (no_hash c ∷ ticks) cat last h (hx, hs) = poll-drifts_from ticks cat last h hs
  poll-drifts_from (hashed c hash ∷ ticks) cat last h (hx, hs) =
      ground (arith, poll-drifts_from ticks c hash hx hs)

  -- From its start on, poll passes on every catalog whose hash differs from that of the catalog
  -- seen before it, in order and no other, whatever failures lie between the two; where no hash is
  -- empty.
  pub poll-drifts :
      (ticks : List (Tick C)) → All HasHash ticks → poll ticks [] ≡ drifts (seen ticks)
  unfolding poll seen neighbours keep is_empty
  poll-drifts [] hs = refl
  poll-drifts (no_catalog ∷ ticks) (hx, hs) = poll-drifts ticks hs
  poll-drifts (no_hash c ∷ ticks) (hx, hs) = poll-drifts ticks hs
  poll-drifts (hashed c hash ∷ ticks) (hx, hs) = poll-drifts_from ticks c hash hx hs
