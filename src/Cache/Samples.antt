-- ===== src/Cache/Samples.antt =====
-- A file of bytes, a format that knows one envelope, and its catalog on the way through both.
use pdbcore.Prelude.{
  ◌≡◌, refl, sym, subst, ap, ◌∙◌, ℕ, ◌*◌, ◌≤◌, Bool, true, false, ◌&&◌, List, [], ◌∷◌, Option, none,
  some, Text, codes, length, text_eq, text_eq_sound, arith, ◌==◌, if◌then◌else◌, length,
}
use Prim.Native.Nat.{◌^◌}
use mathlib.Core.List.{not-mem-nil}
use mathlib.Core.List.Perm
use pdbcore.Prelude.Insertion.{insertion_sort, insertion_sort-IsSort}
use pdbcore.Introspect.Catalog.{Catalog}
use pdbcore.Introspect.Diff.{Json}
use pdbcore.Introspect.Hash.{hash, sort_stable, HasOwnNames, IsRearranged, digest_of}
use pdbcore.Cache.{Bytes, take, Envelope, Disk, Codec, unzipped, save, load, check, got}
use pdbcore.Cache.Trip.{CodecLaws, DiskLaws, load-save, check-save}
use pdbcore.Prelude.Map.{sort_strings, text_lt}

abbrev schemas_only : List Text → Catalog
schemas_only names = record {
  format_version = 3;
  server_version = [];
  schemas = names;
  tables = [];
  enums = [];
  composites = [];
  functions = [];
}

abbrev given : Catalog
given = schemas_only (codes "public" ∷ codes "app" ∷ [])

abbrev sorted : Catalog
sorted = schemas_only (codes "app" ∷ codes "public" ∷ [])

abbrev known : Envelope
known = record { format_version = 3; hash_text = codes "0123456789abcdef"; catalog = some sorted }

abbrev texts_eq : List Text → List Text → Bool
texts_eq [] [] = true
texts_eq (s ∷ ss) (t ∷ ts) = text_eq s t && texts_eq ss ts
texts_eq _ _ = false

texts_eq_sound : (ss ts : List Text) → texts_eq ss ts ≡ true → ss ≡ ts
texts_eq_sound [] [] h = refl
texts_eq_sound (s ∷ ss) (t ∷ ts) h = ground (arith, text_eq_sound s t, texts_eq_sound ss ts)
texts_eq_sound [] (t ∷ ts) h = cc
texts_eq_sound (s ∷ ss) [] h = cc

module _ {A : Type 0} where
  abbrev null : List A → Bool
  null [] = true
  null (x ∷ xs) = false

  null_sound : (l : List A) → null l ≡ true → l ≡ []
  null_sound [] h = refl
  null_sound (x ∷ xs) h = cc

abbrev is_sorted : Catalog → Bool
is_sorted c =
    c.format_version == 3
    && text_eq c.server_version []
    && texts_eq c.schemas sorted.schemas
    && null c.tables
    && null c.enums
    && null c.composites
    && null c.functions

is_sorted_sound : (c : Catalog) → is_sorted c ≡ true → c ≡ sorted
is_sorted_sound c h =
    let format : c.format_version ≡ 3 = ground arith in
    let server : c.server_version ≡ [] = ground (arith, text_eq_sound c.server_version []) in
    let schemas : c.schemas ≡ sorted.schemas =
      ground (arith, texts_eq_sound c.schemas sorted.schemas) in
    let tables : c.tables ≡ [] = ground (arith, null_sound c.tables) in
    let enums : c.enums ≡ [] = ground (arith, null_sound c.enums) in
    let composites : c.composites ≡ [] = ground (arith, null_sound c.composites) in
    let functions : c.functions ≡ [] = ground (arith, null_sound c.functions) in
    λ i. record {
      format_version = format i;
      server_version = server i;
      schemas = schemas i;
      tables = tables i;
      enums = enums i;
      composites = composites i;
      functions = functions i;
    }

abbrev is_known : ℕ → Text → Option Catalog → Bool
is_known n h none = false
is_known n h (some c) = n == 3 && text_eq h known.hash_text && is_sorted c

is_known_sound :
    (n : ℕ) (h : Text) (o : Option Catalog)
    → is_known n h o ≡ true
    → record { format_version = n; hash_text = h; catalog = o } ≡ known
is_known_sound n h none e = absurd (cc)
is_known_sound n h (some c) e =
    let format : n ≡ 3 = ground arith in
    let same : h ≡ known.hash_text = ground (arith, text_eq_sound h known.hash_text) in
    let catalog : c ≡ sorted = ground (arith, is_sorted_sound c) in
    λ i. record { format_version = format i; hash_text = same i; catalog = some (catalog i) }

abbrev codec : Codec
codec = record {
  encode = λ e. if is_known e.format_version e.hash_text e.catalog then some (7 ∷ 8 ∷ []) else none;
  decode = λ b. some known;
  gunzip = λ limit b. unzipped (take limit b);
}

decode-encode :
    (b : Bool) (e : Envelope) (bytes : Bytes)
    → (b ≡ true → e ≡ known)
    → (if b then some (7 ∷ 8 ∷ []) else none) ≡ some bytes
    → some known ≡ some e
decode-encode true e bytes h k = ap some (sym (h refl))
decode-encode false e bytes h k = absurd (cc)

codec-CodecLaws : CodecLaws codec (λ b. b)
codec-CodecLaws = record {
  decode-encode = λ e b.
      decode-encode (is_known e.format_version e.hash_text e.catalog) e b
        (is_known_sound e.format_version e.hash_text e.catalog);
  gunzip-zip = λ limit b. refl;
}

-- The content of the one file.
abbrev disk : Disk (Option Bytes)
disk = record {
  create = λ path w. (some [], true);
  write_zipped = λ path b w. (some b, true);
  finish = λ path w. (w, true);
  close = λ path w. (w, true);
  content = λ path w. w;
}

some_eq : {A : Type 0} (a b : A) → some a ≡ some b → a ≡ b
some_eq a b h = cc

disk-DiskLaws : DiskLaws disk (λ b. b)
disk-DiskLaws = record {
  content-written = λ path b w w1 w2 w3 w4 p1 p2 p3 p4. sym (
      ap (λ (r : Option Bytes × Bool). r.0) p2
      ∙ ap (λ (r : Option Bytes × Bool). r.0) p3
      ∙ ap (λ (r : Option Bytes × Bool). r.0) p4);
}

given-HasOwnNames : HasOwnNames given
given-HasOwnNames = record {
  tables_keyed = λ a b m. absurd (not-mem-nil m);
  enums_keyed = λ a b m. absurd (not-mem-nil m);
  composites_keyed = λ a b m. absurd (not-mem-nil m);
  functions_keyed = λ a b m. absurd (not-mem-nil m);
}

given-IsRearranged : IsRearranged given sorted
given-IsRearranged = record {
  same_format = refl;
  same_server = refl;
  schemas_perm = Perm.swap (codes "app") (codes "public") [];
  tables_perm = Perm.rfl;
  enums_perm = Perm.rfl;
  composites_perm = Perm.rfl;
  functions_perm = Perm.rfl;
}

-- An encoder of a catalog, and a hash, that tell no catalogs apart.
abbrev marshal : Catalog → Option Text
marshal c = some []

abbrev digest : Text → Text
digest t = known.hash_text

short :
    (known : Bool) (b : Bytes)
    → (if known then some (7 ∷ 8 ∷ []) else none) ≡ some b
    → length b ≤ 256 * 2 ^ 20
short true b h = subst (λ c. length c ≤ 256 * 2 ^ 20) (some_eq (7 ∷ 8 ∷ []) b h) (omega arith)
short false b h = absurd (cc)

given-Fits :
    (h : Text) (b : Bytes)
    → (hash insertion_sort marshal digest given).1 ≡ some h
    → codec.encode (record { format_version = 3; hash_text = h; catalog = some sorted }) ≡ some b
    → length b ≤ 256 * 2 ^ 20
given-Fits h b e k = short (is_known 3 h (some sorted)) b k

save_test :
    (save (hash insertion_sort marshal digest) codec disk (codes "f") given none).error ≡ none
unfolding save hash digest_of text_eq sort_stable sort_strings text_lt insertion_sort
save_test = refl

load-save_example :
    load
      (hash insertion_sort marshal digest)
      codec
      disk
      (codes "f")
      (save (hash insertion_sort marshal digest) codec disk (codes "f") given none).world
    ≡ got (sort_stable insertion_sort given)
unfolding hash text_eq sort_stable sort_strings text_lt insertion_sort
load-save_example =
    load-save insertion_sort marshal digest codec (λ b. b) disk insertion_sort-IsSort
      codec-CodecLaws disk-DiskLaws (codes "f") given none given-HasOwnNames given-Fits save_test

abbrev json : Json
json = record {
  column = λ c. c.name;
  table = λ t. t.name;
  enum = λ e. e.name;
  composite = λ t. t.name;
  function = λ f. f.name;
  text = λ t. t;
  kind = λ k. [];
  bool = λ b. [];
  constraint = λ c. [];
  constraints = λ cs. [];
  foreign_keys = λ fks. [];
  indexes = λ ixs. [];
  privileges = λ p. [];
}

check-save_example :
    check
      (hash insertion_sort marshal digest)
      codec
      disk
      json
      (codes "f")
      sorted
      (save (hash insertion_sort marshal digest) codec disk (codes "f") given none).world
    ≡ got []
unfolding hash text_eq sort_stable sort_strings text_lt insertion_sort
check-save_example =
    check-save insertion_sort marshal digest codec (λ b. b) disk insertion_sort-IsSort
      codec-CodecLaws disk-DiskLaws json (codes "f") given sorted none given-HasOwnNames
      given-IsRearranged given-Fits save_test
