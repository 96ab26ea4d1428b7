-- ===== src/Jwtmint/Whole.antt =====
-- A set of results is minted whole or not at all.
use pdbcore.Prelude.{
  ◌≡◌, refl, ap, ◌⊎◌, inl, inr, true, List, [], ◌∷◌, ◌++◌, Option, none, some, Text, codes,
}
use pdbcore.Jwtmint.{
  Options, Reply, ok, failed, Codec, Minted, minted, refused, marshalled, mint_one, mint_items,
  mint_decoded, mint,
}

module _ (codec : Codec) (o : Options) where
  -- Each item is minted to the text at its place.
  abbrev pub AreMinted : List Text → List Text → Type 0
  AreMinted [] [] = Unit
  AreMinted (x ∷ xs) (t ∷ ts) = (mint_one codec o x ≡ minted t) × AreMinted xs ts
  AreMinted _ _ = ⊥

  -- The first item that cannot be minted, with the error.
  abbrev pub FirstRefused : List Text → Text → Type 0
  FirstRefused items e =
      (before : List Text) × (tokens : List Text) × (x : Text) × (behind : List Text) × (raw : Text)
      × (items ≡ before ++ x ∷ behind)
      × AreMinted before tokens
      × (mint_one codec o x ≡ refused raw e)

  abbrev Looped : List Text → Reply (List Text) → Type 0
  Looped items (ok texts) = AreMinted items texts
  Looped items (failed e) = FirstRefused items e

  after_first :
      (x : Text) (xs : List Text) (first : Minted) (rest : Reply (List Text))
      → mint_one codec o x ≡ first
      → Looped xs rest
      → Looped (x ∷ xs) (elim first as (λ m. Reply (List Text)) [
        | refused raw e ↦ failed e
        | minted text ↦ elim rest as (λ r. Reply (List Text)) [
          | failed e ↦ failed e
          | ok texts ↦ ok (text ∷ texts)
        ]
      ])
  after_first x xs (refused raw e) rest first_is h = ([], [], x, xs, raw, refl, tt, first_is)
  after_first x xs (minted text) (ok texts) first_is h = (first_is, h)
  after_first x xs (minted text) (failed e) first_is
        (before, tokens, y, behind, raw, split_at, are_minted, last) =
      (x ∷ before, text ∷ tokens, y, behind, raw, ap (◌∷◌ x) split_at, (first_is, are_minted), last)

  mint_items-Looped : (items : List Text) → Looped items (mint_items codec o items)
  unfolding mint_items
  mint_items-Looped [] = tt
  mint_items-Looped (x ∷ xs) =
      after_first x xs (mint_one codec o x) (mint_items codec o xs) refl (mint_items-Looped xs)

  -- What minting a set comes to.
  abbrev pub SetMinted : Text → Minted → Type 0
  SetMinted raw r =
      ((e : Text) × (codec.unmarshal_items raw ≡ failed e)
        × (r ≡ refused raw (codes "mint: set: " ++ e)))
      ⊎ ((codec.unmarshal_items raw ≡ ok none) × (r ≡ marshalled (codec.marshal_items none)))
      ⊎ ((items : List Text) × (codec.unmarshal_items raw ≡ ok (some items))
          × (((e : Text) × FirstRefused items e × (r ≡ refused raw e))
              ⊎ ((texts : List Text) × AreMinted items texts
                  × (r ≡ marshalled (codec.marshal_items (some texts))))))

  from_loop :
      (raw : Text) (items : List Text) (looped : Reply (List Text))
      → Looped items looped
      → let r : Minted = elim looped as (λ l. Minted) [
        | failed e ↦ refused raw e
        | ok texts ↦ marshalled (codec.marshal_items (some texts))
      ] in
        ((e : Text) × FirstRefused items e × (r ≡ refused raw e))
        ⊎ ((texts : List Text) × AreMinted items texts
            × (r ≡ marshalled (codec.marshal_items (some texts))))
  from_loop raw items (failed e) h = inl (e, h, refl)
  from_loop raw items (ok texts) h = inr (texts, h, refl)

  from_items :
      (raw : Text) (items : Reply (Option (List Text)))
      → codec.unmarshal_items raw ≡ items
      → SetMinted raw (elim items as (λ i. Minted) [
        | failed e ↦ refused raw (codes "mint: set: " ++ e)
        | ok decoded ↦ mint_decoded codec o raw decoded
      ])
  unfolding mint_decoded
  from_items raw (failed e) h = inl (e, h, refl)
  from_items raw (ok none) h = inr (inl (h, refl))
  from_items raw (ok (some items)) h =
      inr (inr (items, h, from_loop raw items (mint_items codec o items) (mint_items-Looped items)))

  -- A set is minted whole or not at all: if its JSON is no list, or some item cannot be minted, the
  -- JSON comes back as it was, with the error of the decoding or of the first such item; otherwise
  -- each item is minted, in its place, and the result is what json.Marshal gives for the new list,
  -- or nothing beside its error. A null set is marshalled as it is.
  pub mint-SetMinted : (raw : Text) → SetMinted raw (mint codec o raw true)
  unfolding mint
  mint-SetMinted raw = from_items raw (codec.unmarshal_items raw) refl
