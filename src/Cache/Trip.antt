-- ===== src/Cache/Trip.antt =====
-- Loading what was saved.
use pdbcore.Prelude.{
  ◌≡◌, refl, sym, ap, ◌∙◌, ℕ, zero, suc, ◌+◌, ◌≤◌, Bool, true, false, List, [], ◌∷◌, Option, none,
  some, Text, text_eq_refl, length, ltb, arith,
}
use pdbcore.Prelude.Sorting.{IsSort}
use pdbcore.Introspect.Catalog.{Catalog, catalog_format_version}
use pdbcore.Introspect.Diff.{Json}
use pdbcore.Introspect.Hash.{
  hash, sort_stable, HasOwnNames, IsRearranged, hash-perm, sort_stable-IsRearranged,
}
use pdbcore.Cache.{
  Bytes, take, max_cache_bytes, Envelope, CacheError, unzipped, Disk, Codec, Saved, save,
  save_hashed, load, check, got, encode_to, step, encode_failed, create_failed, gzip_failed,
  close_failed,
}

-- What is documented of the gzip and JSON packages, for the values that they are used with.
pub record CodecLaws (codec : Codec) (zip : Bytes → Bytes) : Type 0 where
  pub decode-encode : (e : Envelope) (b : Bytes) → codec.encode e ≡ some b → codec.decode b ≡ some e
  pub gunzip-zip : (limit : ℕ) (b : Bytes) → codec.gunzip limit (zip b) ≡ unzipped (take limit b)

-- What a file system keeps: a file that was created, written in one piece and closed without an
-- error has the zipped bytes.
pub record DiskLaws {W : Type 0} (disk : Disk W) (zip : Bytes → Bytes) : Type 0 where
  pub content-written :
      (path : Text) (b : Bytes) (w w1 w2 w3 w4 : W)
      → disk.create path w ≡ (w1, true)
      → disk.write_zipped path b w1 ≡ (w2, true)
      → disk.finish path w2 ≡ (w3, true)
      → disk.close path w3 ≡ (w4, true)
      → disk.content path w4 ≡ some (zip b)

small : (n : ℕ) → n ≤ max_cache_bytes → ltb max_cache_bytes n ≡ false
small n h = ground arith

pub take_all : (n : ℕ) (b : Bytes) → length b ≤ n → take n b ≡ b
unfolding take
take_all zero [] h = refl
take_all zero (x ∷ b) h = absurd (omega arith)
take_all (suc n) [] h = refl
take_all (suc n) (x ∷ b) h = ap (◌∷◌ x) (take_all n b (omega arith))

module _ (hash_of : Catalog → Catalog × Option Text) (codec : Codec) {W : Type 0}
    (disk : Disk W) where
  abbrev pub envelope_of : Catalog → Text → Envelope
  envelope_of cat h = record {
    format_version = catalog_format_version;
    hash_text = h;
    catalog = some cat;
  }

  -- What holds after every step that worked holds of the function's result without an error.
  step-all :
      (P : Saved W → Type 0) (cat : Catalog) (r : W × Bool) (err : CacheError) (next : W → Saved W)
      → ((w : W) → r ≡ (w, true) → (next w).error ≡ none → P (next w))
      → (step hash_of codec disk cat r err next).error ≡ none
      → P (step hash_of codec disk cat r err next)
  step-all P cat (w, true) err next h e = h w refl e
  step-all P cat (w, false) err next h e = absurd (cc)

  encode_to-all :
      (P : Saved W → Type 0) (path : Text) (cat : Catalog) (o : Option Bytes) (w : W)
      (next : W → Saved W)
      → ((b : Bytes) (v : W)
          → o ≡ some b
          → disk.write_zipped path b w ≡ (v, true)
          → (next v).error ≡ none
          → P (next v))
      → (encode_to hash_of codec disk path cat o w next).error ≡ none
      → P (encode_to hash_of codec disk path cat o w next)
  encode_to-all P path cat none w next h e = absurd (cc)
  encode_to-all P path cat (some b) w next h e =
      step-all P cat (disk.write_zipped path b w) encode_failed next (λ v. h b v refl) e

  -- A save that worked: the catalog was hashed and encoded, and the file holds the encoding.
  abbrev Written : (Bytes → Bytes) → Text → Catalog × Option Text → Saved W → Type 0
  Written zip path r s =
      (h : Text) × (b : Bytes) × (r.1 ≡ some h)
      × (codec.encode (envelope_of r.0 h) ≡ some b)
      × (disk.content path s.world ≡ some (zip b))

  save_hashed-Written :
      (zip : Bytes → Bytes)
      → DiskLaws disk zip
      → (path : Text) (r : Catalog × Option Text) (w : W)
      → (save_hashed hash_of codec disk path r w).error ≡ none
      → Written zip path r (save_hashed hash_of codec disk path r w)
  save_hashed-Written zip laws path (cat, none) w = λ e. absurd (cc)
  save_hashed-Written zip laws path (cat, some h) w =
      step-all P cat (disk.create path w) create_failed _ λ w1 p1.
        encode_to-all P path cat (codec.encode (envelope_of cat h)) w1 _ λ b w2 coded p2.
          step-all P cat (disk.finish path w2) gzip_failed _ λ w3 p3.
            step-all P cat (disk.close path w3) close_failed _
              λ w4 p4 e. (h, b, refl, coded, laws.content-written path b w w1 w2 w3 w4 p1 p2 p3 p4)
    where
      P : Saved W → Type 0
      P = Written zip path (cat, some h)

  load_stored :
      (zip : Bytes → Bytes)
      → CodecLaws codec zip
      → (path : Text) (cat : Catalog) (h : Text) (b : Bytes) (w : W)
      → disk.content path w ≡ some (zip b)
      → codec.encode (envelope_of cat h) ≡ some b
      → length b ≤ max_cache_bytes
      → hash_of cat ≡ (cat, some h)
      → load hash_of codec disk path w ≡ got cat
  unfolding load
  load_stored zip laws path cat h b w stored coded fits same =
      rw
        (
          stored,
          laws.gunzip-zip (max_cache_bytes + 1) b,
          take_all (max_cache_bytes + 1) b (omega arith),
          laws.decode-encode (envelope_of cat h) b coded,
          small (length b) fits,
          same,
          text_eq_refl h,
        )
        refl

  -- A catalog whose envelope does not go beyond the limit of Load.
  abbrev pub Fits : Catalog → Type 0
  Fits cat =
      (h : Text) (b : Bytes)
      → (hash_of cat).1 ≡ some h
      → codec.encode (envelope_of (hash_of cat).0 h) ≡ some b
      → length b ≤ max_cache_bytes

  saved-Written :
      (zip : Bytes → Bytes)
      → DiskLaws disk zip
      → (path : Text) (cat : Catalog) (w : W) → (save hash_of codec disk path cat w).error ≡ none
      → Written zip path (hash_of cat) (save hash_of codec disk path cat w)
  unfolding save
  saved-Written zip laws path cat w e = save_hashed-Written zip laws path (hash_of cat) w e

  -- After a save that worked, a load gives the catalog as Save left it, if the encoding is within
  -- the limit and the hash of that catalog is its hash still.
  load_saved :
      (zip : Bytes → Bytes)
      → CodecLaws codec zip
      → DiskLaws disk zip
      → (path : Text) (cat : Catalog) (w : W) → hash_of (hash_of cat).0 ≡ hash_of cat
      → Fits cat
      → (save hash_of codec disk path cat w).error ≡ none
      → load hash_of codec disk path (save hash_of codec disk path cat w).world
        ≡ got (hash_of cat).0
  load_saved zip codec_laws disk_laws path cat w again fits e =
      let (h, b, hashed, coded, stored) = saved-Written zip disk_laws path cat w e in
      load_stored zip codec_laws path (hash_of cat).0 h b _ stored coded (fits h b hashed coded)
        (again ∙ ap (λ (o : Option Text). ((hash_of cat).0, o)) hashed)

  check_same :
      (json : Json) (path : Text) (cat live : Catalog) (w : W) (h : Text)
      → load hash_of codec disk path w ≡ got cat
      → (hash_of cat).1 ≡ some h
      → (hash_of live).1 ≡ some h
      → check hash_of codec disk json path live w ≡ got []
  unfolding check
  check_same json path cat live w h loaded hc hl = rw (loaded, hc, hl, text_eq_refl h) refl

module _ (sort_slice : (A : Type 0) → (A → A → Bool) → List A → List A)
    (marshal : Catalog → Option Text) (digest : Text → Text) (codec : Codec) (zip : Bytes → Bytes)
    {W : Type 0} (disk : Disk W) (is_sort : IsSort sort_slice) (codec_laws : CodecLaws codec zip)
    (disk_laws : DiskLaws disk zip) where
  abbrev pub hash_of : Catalog → Catalog × Option Text
  hash_of = hash sort_slice marshal digest

  hash_again : (c : Catalog) → HasOwnNames c → hash_of (hash_of c).0 ≡ hash_of c
  unfolding hash
  hash_again c own = sym (
      hash-perm sort_slice is_sort marshal digest c (sort_stable sort_slice c) own
        (sort_stable-IsRearranged sort_slice is_sort c))

  -- After a Save without an error, a Load of that path gives the catalog in the order that Save
  -- left it in, if objects of a kind differ in schema or name and the encoding is at most
  -- maxCacheBytes long.
  pub load-save :
      (path : Text) (cat : Catalog) (w : W)
      → HasOwnNames cat
      → Fits hash_of codec disk cat
      → (save hash_of codec disk path cat w).error ≡ none
      → load hash_of codec disk path (save hash_of codec disk path cat w).world
        ≡ got (sort_stable sort_slice cat)
  unfolding hash
  load-save path cat w own fits e =
      load_saved hash_of codec disk zip codec_laws disk_laws path cat w (hash_again cat own) fits e

  -- After a Save without an error, Check reports no drift for any catalog of the same objects, in
  -- whatever order, under the conditions on the names and the length.
  pub check-save :
      (json : Json) (path : Text) (cat live : Catalog) (w : W)
      → HasOwnNames cat
      → IsRearranged cat live
      → Fits hash_of codec disk cat
      → (save hash_of codec disk path cat w).error ≡ none
      → check hash_of codec disk json path live (save hash_of codec disk path cat w).world ≡ got []
  unfolding hash
  check-save json path cat live w own same fits e =
      let (h, b, hashed, coded, stored) =
        saved-Written hash_of codec disk zip disk_laws path cat w e in
      check_same hash_of codec disk json path (sort_stable sort_slice cat) live _ h
        (load-save path cat w own fits e)
        (ap (λ (r : Catalog × Option Text). r.1) (hash_again cat own) ∙ hashed)
        (ap (λ (r : Catalog × Option Text). r.1)
            (sym (hash-perm sort_slice is_sort marshal digest cat live own same))
          ∙ hashed)
