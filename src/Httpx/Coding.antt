-- ===== src/Httpx/Coding.antt =====
-- When a response is compressed, and what is said of it.
use pdbcore.Prelude.{
  ℕ, ◌≢◌, ◌==◌, ◌⊎◌, inl, inr, ◌++◌, text_eq_iff, Bool-cases, cut_prefix, cut_prefix-append,
  cut_prefix_sound, ◌≡◌, refl, sym, ap, ◌∙◌, arith, Bool, true, false, not, ◌||◌, ◌&&◌, List, [],
  ◌∷◌, Option, none, some, Text, codes, text_eq, any, if◌then◌else◌, if-all,
}
use pdbcore.Prelude.Map.{Map, get, put, get-put}
use pdbcore.Prelude.Words.{trim_space, split, cut_at, cut_at-found, cut_at_everywhere, Lacks}
use pdbcore.Auth.Headers.{header_get}
use pdbcore.Httpx.{
  Request, Response, Handler, cut_params, is_excluded, any_gzip, accepts_gzip, gzip,
}

coding_behind :
    (vs : List Text) (m : Map (List Text))
    → get
        (codes "Content-Encoding")
        (put (codes "Vary") vs (put (codes "Content-Encoding") (codes "gzip" ∷ []) m))
      ≡ some (codes "gzip" ∷ [])
unfolding text_eq
coding_behind vs m =
    get-put (codes "Vary") (codes "Content-Encoding") vs
      (put (codes "Content-Encoding") (codes "gzip" ∷ []) m)
    ∙ get-put (codes "Content-Encoding") (codes "Content-Encoding") (codes "gzip" ∷ []) m

-- An entry of Accept-Encoding: a token, and what stands behind a semicolon, if there is one.
abbrev pub IsEntry : Text → Text → Text → Type 0
IsEntry s token params =
    Lacks b';' token × (((s ≡ token) × (params ≡ [])) ⊎ (s ≡ token ++ b';' ∷ params))

abbrev IsCut : Text → Text × Option Text → Type 0
IsCut s (token, none) = Lacks b';' token × (s ≡ token)
IsCut s (token, some rest) = Lacks b';' token × (s ≡ token ++ b';' ∷ rest)

IsCut-further :
    (c : ℕ) (s : Text) (cut : Text × Option Text)
    → (c == b';') ≡ false
    → IsCut s cut
    → IsCut (c ∷ s) (c ∷ cut.0, cut.1)
IsCut-further c s (token, none) e (lacks, same) = ((e, lacks), ap (◌∷◌ c) same)
IsCut-further c s (token, some rest) e (lacks, same) = ((e, lacks), ap (◌∷◌ c) same)

semicolon : (c : ℕ) → (c == b';') ≡ true → c ≡ b';'
semicolon c e = ground arith

cut_at-IsCut : (s : Text) → IsCut s (cut_at (λ c. c == b';') s)
unfolding cut_at
cut_at-IsCut [] = (tt, refl)
cut_at-IsCut (c ∷ s) =
    if-all (IsCut (c ∷ s)) (c == b';') _ _ (λ e. (tt, ap (λ (d : ℕ). d ∷ s) (semicolon c e)))
      (λ e. IsCut-further c s (cut_at (λ c. c == b';') s) e (cut_at-IsCut s))

cut_params-IsEntry : (s : Text) → IsEntry s (cut_params s).0 (cut_params s).1
unfolding cut_params
cut_params-IsEntry s = by_cut (cut_at (λ c. c == b';') s) (cut_at-IsCut s)
  where
    by_cut :
        (cut : Text × Option Text)
        → IsCut s cut
        → IsEntry s cut.0 (elim cut.1 as (λ o. Text) [ none ↦ [] | some rest ↦ rest ])
    by_cut (token, none) (lacks, same) = (lacks, inl (same, refl))
    by_cut (token, some rest) (lacks, same) = (lacks, inr same)

entry-cut_params : (s token params : Text) → IsEntry s token params → cut_params s ≡ (token, params)
unfolding cut_params
entry-cut_params s token params (lacks, inl (e, none_behind)) =
    rw (e, cut_at_everywhere (λ c. c == b';') token lacks)
      (ap (λ (v : Text). (token, v)) (sym none_behind))
entry-cut_params s token params (lacks, inr e) =
    rw (e, cut_at-found (λ c. c == b';') token b';' params lacks refl) refl

module _ (parses_to_zero : Text → Bool) where
  -- One entry asks for gzip: it names gzip or everything, and its parameters, the spaces around
  -- them aside, are not q= and a 0.
  abbrev pub AsksForGzip : Text → Type 0
  AsksForGzip part =
      (token : Text) × (params : Text) × IsEntry (trim_space part) token params
      × ((trim_space token ≡ codes "gzip") ⊎ (trim_space token ≡ codes "*"))
      × ((q : Text) → trim_space params ≡ codes "q=" ++ q → parses_to_zero (trim_space q) ≡ false)

  -- Some entry asks for gzip.
  abbrev pub SomeAsks : List Text → Type 0
  SomeAsks [] = ⊥
  SomeAsks (part ∷ parts) = AsksForGzip part ⊎ SomeAsks parts

  -- The request is no OPTIONS and one of the entries of its header asks for gzip.
  abbrev pub IsNegotiated : Request → Type 0
  IsNegotiated r =
      (r.method ≢ codes "OPTIONS")
      × SomeAsks (split b',' (header_get r.header (codes "Accept-Encoding")))

  is_excluded-no :
      (params : Text)
      → is_excluded parses_to_zero params ≡ false
      → (q : Text) → trim_space params ≡ codes "q=" ++ q
      → parses_to_zero (trim_space q) ≡ false
  unfolding is_excluded
  is_excluded-no params h q e = rw (e, cut_prefix-append (codes "q=") q, is_excluded) at h

  no_zero :
      (params : Text)
      → ((q : Text) → trim_space params ≡ codes "q=" ++ q → parses_to_zero (trim_space q) ≡ false)
      → is_excluded parses_to_zero params ≡ false
  unfolding is_excluded
  no_zero params h = by_cut (cut_prefix (trim_space params) (codes "q=")) refl
    where
      by_cut :
          (o : Option Text)
          → cut_prefix (trim_space params) (codes "q=") ≡ o
          → (elim o as (λ x. Bool) [ none ↦ false | some q ↦ parses_to_zero (trim_space q) ])
            ≡ false
      by_cut none e = refl
      by_cut (some q) e = h q (cut_prefix_sound (trim_space params) (codes "q=") q e)

  -- What the loop asks of an entry.
  abbrev asks_for_gzip : Text → Bool
  asks_for_gzip part =
      let entry = cut_params (trim_space part) in
      (text_eq (trim_space entry.0) (codes "gzip") || text_eq (trim_space entry.0) (codes "*"))
      && not (is_excluded parses_to_zero entry.1)

  named :
      (s t u : Text) (x : Bool)
      → ((text_eq s t || text_eq s u) && not x) ≡ true
      → ((s ≡ t) ⊎ (s ≡ u)) × (x ≡ false)
  named s t u x h = (
    elim (Bool-cases (text_eq s t)) [
      | inl e ↦ inl ((text_eq_iff s t).0 e)
      | inr e ↦ inr ((text_eq_iff s u).0 (ground arith))
    ],
    ground arith,
  )

  named_of :
      (s t u : Text) (x : Bool)
      → (s ≡ t) ⊎ (s ≡ u)
      → x ≡ false
      → ((text_eq s t || text_eq s u) && not x) ≡ true
  named_of s t u x (inl e) f = let h = (text_eq_iff s t).1 e in ground arith
  named_of s t u x (inr e) f = let h = (text_eq_iff s u).1 e in ground arith

  asks_for_gzip_sound : (part : Text) → asks_for_gzip part ≡ true → AsksForGzip part
  asks_for_gzip_sound part h =
      let entry = cut_params (trim_space part) in
      let (is_named, kept) =
        named (trim_space entry.0) _ _ (is_excluded parses_to_zero entry.1) h in
      (
        entry.0,
        entry.1,
        cut_params-IsEntry (trim_space part),
        is_named,
        is_excluded-no entry.1 kept,
      )

  asks_for_gzip_complete : (part : Text) → AsksForGzip part → asks_for_gzip part ≡ true
  asks_for_gzip_complete part (token, params, is_entry, is_named, kept) =
      rw (entry-cut_params (trim_space part) token params is_entry) (
        named_of (trim_space token) _ _ (is_excluded parses_to_zero params) is_named
          (no_zero params kept))

  any_gzip-any : (parts : List Text) → any_gzip parses_to_zero parts ≡ any asks_for_gzip parts
  unfolding any_gzip any
  any_gzip-any [] = refl
  any_gzip-any (part ∷ parts) = ground (arith, any_gzip-any parts)

  some_of : (parts : List Text) → any asks_for_gzip parts ≡ true → SomeAsks parts
  unfolding any
  some_of [] h = absurd (cc)
  some_of (part ∷ parts) h = elim (Bool-cases (asks_for_gzip part)) [
    | inl e ↦ inl (asks_for_gzip_sound part e)
    | inr e ↦ inr (some_of parts (rw e at h))
  ]

  any_of : (parts : List Text) → SomeAsks parts → any asks_for_gzip parts ≡ true
  unfolding any
  any_of [] h = absurd h
  any_of (part ∷ parts) (inl h) = rw (asks_for_gzip_complete part h) refl
  any_of (part ∷ parts) (inr h) = let k = any_of parts h in ground arith

  abbrev is_negotiated : Request → Bool
  is_negotiated r =
      not (text_eq r.method (codes "OPTIONS"))
      && any asks_for_gzip (split b',' (header_get r.header (codes "Accept-Encoding")))

  -- What tells the coding of a response.
  abbrev pub coding : Response → Bool × Option (List Text)
  coding w = (w.is_compressed, get (codes "Content-Encoding") w.header)

  -- The response is compressed and says so, or neither.
  abbrev pub announced : Bool → Bool × Option (List Text)
  announced zipped = (zipped, if zipped then some (codes "gzip" ∷ []) else none)

  gzip-coding :
      (next : Handler) (r : Request) (w : Response)
      → ((q : Request) (v : Response) → coding (next q v) ≡ coding v)
      → coding w ≡ announced false
      → coding (gzip parses_to_zero next r w) ≡ announced (is_negotiated r)
  unfolding gzip accepts_gzip
  gzip-coding next r w leaves plain =
      let header = header_get r.header (codes "Accept-Encoding") in
      let same = any_gzip-any (split b',' header) in
      if-all (λ (out : Response). coding out ≡ announced (is_negotiated r))
        (text_eq r.method (codes "OPTIONS") || not (any_gzip parses_to_zero (split b',' header))) _
        _ (λ e. leaves r w ∙ plain ∙ ap announced (sym (turned_away _ _ _ same e)))
        (λ e.
          leaves r _
          ∙ ap (λ (o : Option (List Text)). (true, o)) (coding_behind _ w.header)
          ∙ ap announced (sym (let_in _ _ _ same e)))
    where
      turned_away : (a b c : Bool) → b ≡ c → (a || not b) ≡ true → (not a && c) ≡ false
      turned_away a b c h e = ground arith

      let_in : (a b c : Bool) → b ≡ c → (a || not b) ≡ false → (not a && c) ≡ true
      let_in a b c h e = ground arith

  negotiated : (r : Request) → is_negotiated r ≡ true → IsNegotiated r
  negotiated r h =
      let parts = split b',' (header_get r.header (codes "Accept-Encoding")) in
      (
        λ e. let k = (text_eq_iff r.method (codes "OPTIONS")).1 e in absurd (ground arith),
        some_of parts (ground arith),
      )

  negotiates : (r : Request) → IsNegotiated r → is_negotiated r ≡ true
  negotiates r (no_options, asks) =
      let k = any_of (split b',' (header_get r.header (codes "Accept-Encoding"))) asks in
      elim (Bool-cases (text_eq r.method (codes "OPTIONS"))) [
        | inl e ↦ absurd (no_options ((text_eq_iff r.method (codes "OPTIONS")).0 e))
        | inr e ↦ rw (e, k) refl
      ]

  -- Gzip compresses a response and announces it as compressed if the request is no OPTIONS and
  -- some entry of its Accept-Encoding asks for gzip: its token is gzip or *, and what stands behind
  -- its first semicolon is not q= and a text that ParseFloat reads as 0. It does neither for any
  -- other request; where the response was plain before and the next handler leaves its coding
  -- alone.
  pub gzip-announced :
      (next : Handler) (r : Request) (w : Response)
      → ((q : Request) (v : Response) → coding (next q v) ≡ coding v)
      → coding w ≡ announced false
      → (IsNegotiated r × (coding (gzip parses_to_zero next r w) ≡ announced true))
        ⊎ (¬ IsNegotiated r × (coding (gzip parses_to_zero next r w) ≡ announced false))
  gzip-announced next r w leaves plain =
      let same = gzip-coding next r w leaves plain in
      elim (Bool-cases (is_negotiated r)) [
        | inl e ↦ inl (negotiated r e, same ∙ ap announced e)
        | inr e ↦ inr (λ n. absurd (let k = negotiates r n in cc), same ∙ ap announced e)
      ]
