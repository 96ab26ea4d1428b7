-- ===== src/Cache.antt =====
-- cache/cache.go: a catalog in a file, with a version and a hash. The file system with the gzip
-- writer on a file, the gzip reader, encoding/json and the hash's parts are parameters.
pub mod Trip
mod Samples
use pdbcore.Prelude.{
  ℕ, zero, suc, ◌+◌, ◌*◌, Bool, true, false, not, List, [], ◌∷◌, ◌++◌, Option, none, some, Text,
  codes, text_eq, map, length, ltb, ◌==◌, if◌then◌else◌,
}
use Prim.Native.Nat.{◌^◌}
use pdbcore.Prelude.Words.{join}
use pdbcore.Introspect.Catalog.{Catalog, catalog_format_version}
use pdbcore.Introspect.Diff.{Json, diff}

abbrev pub Bytes : Type 0
Bytes = List ℕ

-- The first elements.
unfoldable pub take : {A : Type 0} → ℕ → List A → List A
take zero xs = []
take (suc n) [] = []
take (suc n) (x ∷ xs) = x ∷ take n xs

-- maxCacheBytes, 256 << 20
abbrev pub max_cache_bytes : ℕ
max_cache_bytes = 256 * 2 ^ 20

pub record Envelope : Type 0 where
  pub format_version : ℕ
  pub hash_text : Text
  pub catalog : Option Catalog

pub data CacheError : Type 0 where
  hash_failed create_failed encode_failed gzip_failed close_failed : CacheError
  open_failed not_gzip read_failed too_large decode_failed : CacheError
  empty_catalog hash_mismatch : CacheError
  wrong_version : ℕ → CacheError

pub data Result (A : Type 0) : Type 0 where
  failed : CacheError → Result A
  got : A → Result A

infixl 5 ◌>>=◌
abbrev pub ◌>>=◌ : {A B : Type 0} → Result A → (A → Result B) → Result B
failed err >>= k = failed err
got a >>= k = k a

abbrev pub expect : {A : Type 0} → CacheError → Option A → Result A
expect err none = failed err
expect err (some a) = got a

-- if !ok { return err }
abbrev pub require : Bool → CacheError → Result (Unit {0})
require true err = got tt
require false err = failed err

-- What gzip.NewReader and io.ReadAll give.
pub data Unzipped : Type 0 where
  bad_header : Unzipped
  broken : Unzipped
  unzipped : Bytes → Unzipped

-- A file system: os.Create, a write through a gzip writer on the file, the writer's and the
-- file's Close, each with the state it leaves and whether it worked, and what os.Open finds.
pub record Disk (W : Type 0) : Type 0 where
  pub create : Text → W → W × Bool
  pub write_zipped : Text → Bytes → W → W × Bool
  pub finish : Text → W → W × Bool
  pub close : Text → W → W × Bool
  pub content : Text → W → Option Bytes

pub record Codec : Type 0 where
  pub encode : Envelope → Option Bytes
  pub decode : Bytes → Option Envelope
  pub gunzip : ℕ → Bytes → Unzipped

-- A Save: the state of the files, the catalog as it is left, and the error.
pub record Saved (W : Type 0) : Type 0 where
  pub world : W
  pub cat : Catalog
  pub error : Option CacheError

abbrev pub saved : {W : Type 0} → W → Catalog → Option CacheError → Saved W
saved w cat error = record { world = w; cat = cat; error = error }

module _ (hash_of : Catalog → Catalog × Option Text) (codec : Codec) where
  module _ {W : Type 0} (disk : Disk W) where
    -- One step that ends the function with an error if it fails.
    abbrev pub step : Catalog → W × Bool → CacheError → (W → Saved W) → Saved W
    step cat (w, true) err next = next w
    step cat (w, false) err next = saved w cat (some err)

    -- json.Encoder.Encode writes only what was encoded as a whole.
    abbrev pub encode_to : Text → Catalog → Option Bytes → W → (W → Saved W) → Saved W
    encode_to path cat none w next = saved w cat (some encode_failed)
    encode_to path cat (some b) w next = step cat (disk.write_zipped path b w) encode_failed next

    abbrev pub save_hashed : Text → Catalog × Option Text → W → Saved W
    save_hashed path (cat, none) w = saved w cat (some hash_failed)
    save_hashed path (cat, some h) w = step cat (disk.create path w) create_failed (λ w.
        encode_to path cat
          (codec.encode
            (record { format_version = catalog_format_version; hash_text = h; catalog = some cat }))
          w
          (λ w.
            step cat (disk.finish path w) gzip_failed
              (λ w. step cat (disk.close path w) close_failed (λ w. saved w cat none))))

    -- Save
    unfoldable pub save : Text → Catalog → W → Saved W
    save path cat w = save_hashed path (hash_of cat) w

    abbrev pub read_all : Unzipped → Result Bytes
    read_all bad_header = failed not_gzip
    read_all broken = failed read_failed
    read_all (unzipped b) = got b

    abbrev pub checked_hash : Catalog × Option Text → Text → Result Catalog
    checked_hash (cat, none) h = failed hash_failed
    checked_hash (cat, some new) h = if not (text_eq new h) then failed hash_mismatch else got cat

    -- Load
    unfoldable pub load : Text → W → Result Catalog
    load path w = do
      file ← expect open_failed (disk.content path w)
      raw ← read_all (codec.gunzip (max_cache_bytes + 1) file)
      _ ← require (not (ltb max_cache_bytes (length raw))) too_large
      env ← expect decode_failed (codec.decode raw)
      _ ← require (env.format_version == catalog_format_version) (wrong_version env.format_version)
      cat ← expect empty_catalog env.catalog
      checked_hash (hash_of cat) env.hash_text

    -- The lines that Check joins; a hash has 64 digits, so its first 12 are there.
    unfoldable pub drift : Json → Catalog → Catalog → Text → Text → Text
    drift json cached live ch lh = join (10 ∷ []) (
        (codes "schema drift detected: cache " ++ (take 12 ch ++ (codes " != live " ++ take 12 lh)))
        ∷ map (λ (d : Text). codes "  " ++ d) (diff json cached live))

    -- Check: nothing, or the description of the drift.
    unfoldable pub check : Json → Text → Catalog → W → Result Text
    check json path live w = do
      cat ← load path w
      ch ← expect hash_failed (hash_of cat).1
      lh ← expect hash_failed (hash_of live).1
      got (if not (text_eq ch lh) then drift json (hash_of cat).0 (hash_of live).0 ch lh else [])
