-- ===== src/Confx/ListVariables.antt =====
-- The variables that set the lists of a configuration.
use pdbcore.Prelude.{
  ◌≡◌, refl, ap, subst, sym, ◌⊎◌, inl, inr, Bool, true, false, not, ◌&&◌, ◌||◌, List, [], ◌∷◌, ◌++◌,
  Text, codes, text_eq, text_eq_sound, is_empty, elem, keep, map, All, All-append, arith, ◌==◌,
  if◌then◌else◌, if-all, Bool-cases,
}
use pdbcore.Prelude.Words.{join, trim_space, Lacks, split-join}
use pdbcore.Confx.Env.{env_value, items}
use pdbcore.Confx.Fields.{
  Tags, Elements, Value, is_struct, string, boolean, integer, duration, slice, map_of, struct,
  other, Fields, end, field, is_inlined, is_left_out, path_of, inner_prefix, collect_slice_paths,
  slice_paths,
}
use pdbcore.Confx.Variables.{env_name, is_path, is_path-IsStep, env_key-env_name}

is_path-append :
    (fresh : Bool) (p k : Text)
    → is_path fresh p ≡ true
    → is_path true k ≡ true
    → is_path fresh (p ++ b'.' ∷ k) ≡ true
unfolding is_path
is_path-append fresh [] k h hk = rw (not_fresh fresh h) hk
  where
    not_fresh : (b : Bool) → not b ≡ true → b ≡ false
    not_fresh true e = sym e
    not_fresh false e = refl
is_path-append fresh (c ∷ p) k h hk =
    ground (arith, is_path-append (c == b'.') p k (is_path-IsStep fresh c p h).rest hk)

-- A prefix in front of a path: none, or a path.
abbrev IsPrefix : Text → Type 0
IsPrefix prefix = (is_empty prefix ≡ false) → is_path true prefix ≡ true

path_of-is_path :
    (prefix k : Text)
    → IsPrefix prefix
    → is_path true k ≡ true
    → is_path true (path_of prefix k) ≡ true
unfolding path_of
path_of-is_path prefix k h hk =
    if-all (λ (t : Text). is_path true t ≡ true) (not (is_empty prefix)) _ _
      (λ e. is_path-append true prefix k (h (ground arith)) hk) (λ e. hk)

-- The keys of a struct that make paths.
unfoldable pub is_named : Tags → Value → Bool
is_named t v = is_inlined t v || is_left_out t || is_path true t.key

unfoldable pub has_paths : Fields → Bool
unfolding is_named
has_paths end = true
has_paths (field t (struct fs) rest) =
    is_named t (struct fs)
    && (is_left_out t && not (is_inlined t (struct fs)) || has_paths fs)
    && has_paths rest
has_paths (field t v rest) = is_named t v && has_paths rest

abbrev ArePaths : List Text → Type 0
ArePaths = All (λ p. is_path true p ≡ true)

slice_path :
    (t : Tags) (vs : Elements) (prefix : Text)
    → IsPrefix prefix
    → is_named t (slice vs) ≡ true
    → ArePaths (if is_left_out t then [] else path_of prefix t.key ∷ [])
unfolding is_named is_inlined is_struct
slice_path t vs prefix h k =
    if-all ArePaths (is_left_out t) _ _ (λ e. tt)
      (λ e. (path_of-is_path prefix t.key h (ground arith), tt))

inner_prefix-IsPrefix :
    (t : Tags) (fs : Fields) (prefix : Text)
    → IsPrefix prefix
    → is_named t (struct fs) ≡ true
    → (is_inlined t (struct fs) ≡ true) ⊎ (is_left_out t ≡ false)
    → IsPrefix (inner_prefix prefix t (struct fs))
unfolding is_named inner_prefix
inner_prefix-IsPrefix t fs prefix h k keeps =
    if-all IsPrefix (is_inlined t (struct fs)) _ _ (λ e. h)
      (λ e ne. path_of-is_path prefix t.key h (ground arith))

-- What the test of a struct says where its fields are walked.
pub struct-has_paths :
    (t : Tags) (fs rest : Fields)
    → has_paths (field t (struct fs) rest) ≡ true
    → (is_inlined t (struct fs) ≡ true) ⊎ (is_left_out t ≡ false)
    → has_paths fs ≡ true
unfolding has_paths
struct-has_paths t fs rest k (inl e) = ground arith
struct-has_paths t fs rest k (inr e) = ground arith

first_of : (a b : Bool) → (a && b) ≡ true → a ≡ true
first_of true b h = refl
first_of false b h = cc

pub head-has_paths :
    (t : Tags) (fs rest : Fields)
    → has_paths (field t (struct fs) rest) ≡ true
    → is_named t (struct fs) ≡ true
unfolding has_paths
head-has_paths t fs rest k =
    first_of (is_named t (struct fs))
      (is_left_out t && not (is_inlined t (struct fs)) || has_paths fs)
      (first_of _ (has_paths rest) k)

third : (a b c : Bool) → (a && b && c) ≡ true → c ≡ true
third true true c h = h
third true false c h = cc
third false b c h = cc

pub rest-has_paths :
    (t : Tags) (fs rest : Fields)
    → has_paths (field t (struct fs) rest) ≡ true
    → has_paths rest ≡ true
unfolding has_paths
rest-has_paths t fs rest k =
    third (is_named t (struct fs)) (is_left_out t && not (is_inlined t (struct fs)) || has_paths fs)
      (has_paths rest) k

struct_slice_paths :
    (t : Tags) (fs rest : Fields) (prefix : Text)
    → IsPrefix prefix
    → has_paths (field t (struct fs) rest) ≡ true
    → (IsPrefix (inner_prefix prefix t (struct fs))
        → has_paths fs ≡ true
        → ArePaths (collect_slice_paths fs (inner_prefix prefix t (struct fs))))
    → let inner = collect_slice_paths fs (inner_prefix prefix t (struct fs)) in
      ArePaths (if is_inlined t (struct fs) then inner else if is_left_out t then [] else inner)
struct_slice_paths t fs rest prefix h k inner_ArePaths =
    if-all ArePaths (is_inlined t (struct fs)) _ _ (λ e. walked (inl e))
      (λ e. if-all ArePaths (is_left_out t) _ _ (λ l. tt) (λ l. walked (inr l)))
  where
    walked :
        (is_inlined t (struct fs) ≡ true) ⊎ (is_left_out t ≡ false)
        → ArePaths (collect_slice_paths fs (inner_prefix prefix t (struct fs)))
    walked keeps =
        inner_ArePaths
          (inner_prefix-IsPrefix t fs prefix h (unfold has_paths in ground arith) keeps)
          (struct-has_paths t fs rest k keeps)

collect_slice_paths-ArePaths :
    (fs : Fields) (prefix : Text)
    → IsPrefix prefix
    → has_paths fs ≡ true
    → ArePaths (collect_slice_paths fs prefix)
unfolding collect_slice_paths has_paths
collect_slice_paths-ArePaths end prefix h k = tt
collect_slice_paths-ArePaths (field t (struct fs) rest) prefix h k =
    All-append _ _ (collect_slice_paths rest prefix)
      (struct_slice_paths t fs rest prefix h k
        (collect_slice_paths-ArePaths fs (inner_prefix prefix t (struct fs))))
      (collect_slice_paths-ArePaths rest prefix h (rest-has_paths t fs rest k))
collect_slice_paths-ArePaths (field t (slice vs) rest) prefix h k =
    All-append _ _ (collect_slice_paths rest prefix) (slice_path t vs prefix h (ground arith))
      (collect_slice_paths-ArePaths rest prefix h (ground arith))
collect_slice_paths-ArePaths (field t (string s) rest) prefix h k =
    collect_slice_paths-ArePaths rest prefix h (ground arith)
collect_slice_paths-ArePaths (field t (boolean s) rest) prefix h k =
    collect_slice_paths-ArePaths rest prefix h (ground arith)
collect_slice_paths-ArePaths (field t (integer s) rest) prefix h k =
    collect_slice_paths-ArePaths rest prefix h (ground arith)
collect_slice_paths-ArePaths (field t (duration s) rest) prefix h k =
    collect_slice_paths-ArePaths rest prefix h (ground arith)
collect_slice_paths-ArePaths (field t (map_of s) rest) prefix h k =
    collect_slice_paths-ArePaths rest prefix h (ground arith)
collect_slice_paths-ArePaths (field t (other s) rest) prefix h k =
    collect_slice_paths-ArePaths rest prefix h (ground arith)

elem-All : (P : Text → Type 0) (p : Text) (ts : List Text) → All P ts → elem p ts ≡ true → P p
unfolding elem
elem-All P p [] h e = absurd (cc)
elem-All P p (t ∷ ts) (ht, h) e = elim (Bool-cases (text_eq p t)) [
  | inl q ↦ subst P (sym (text_eq_sound p t q)) ht
  | inr q ↦ elem-All P p ts h (rw q at e)
]

-- A configuration whose keys make paths.
abbrev pub AllPaths : Value → Type 0
AllPaths (struct fs) = has_paths fs ≡ true
AllPaths _ = Unit

slice_paths-ArePaths : (v : Value) → AllPaths v → ArePaths (slice_paths v)
unfolding slice_paths
slice_paths-ArePaths (struct fs) h =
    collect_slice_paths-ArePaths fs [] (λ e. absurd (unfold is_empty in cc)) h
slice_paths-ArePaths (string s) h = tt
slice_paths-ArePaths (boolean s) h = tt
slice_paths-ArePaths (integer s) h = tt
slice_paths-ArePaths (duration s) h = tt
slice_paths-ArePaths (slice s) h = tt
slice_paths-ArePaths (map_of s) h = tt
slice_paths-ArePaths (other s) h = tt

-- An item of a list that a variable can give: not empty, without a comma and without spaces round it.
abbrev pub IsItem : Text → Type 0
IsItem s = (is_empty s ≡ false) × (trim_space s ≡ s) × Lacks b',' s

trimmed_items :
    (ws : List Text) → All IsItem ws → keep (λ p. not (is_empty p)) (map trim_space ws) ≡ ws
unfolding keep
trimmed_items [] h = refl
trimmed_items (w ∷ ws) ((ne, trimmed, lacks), h) =
    rw (trimmed, ne) (ap (◌∷◌ w) (trimmed_items ws h))

lacking : (ws : List Text) → All IsItem ws → All (Lacks b',') ws
lacking [] h = tt
lacking (w ∷ ws) ((ne, trimmed, lacks), h) = (lacks, lacking ws h)

-- Every path of a slice in a configuration, whose keys make paths, can be set by a variable: the
-- one that env_name names after the path, behind the prefix, with the items joined by commas, sets
-- the path to these items, at least one, if none is empty, holds a comma or has spaces round it.
pub env_value-env_name :
    (v : Value) (prefix p : Text) (w : Text) (ws : List Text)
    → AllPaths v
    → elem p (slice_paths v) ≡ true
    → All IsItem (w ∷ ws)
    → env_value prefix (slice_paths v) (prefix ++ env_name p) (join (codes ",") (w ∷ ws))
      ≡ (p, items (w ∷ ws))
unfolding env_value
env_value-env_name v prefix p w ws paths listed h =
    rw
      (
        env_key-env_name prefix p
            (elem-All _ p (slice_paths v) (slice_paths-ArePaths v paths) listed),
        listed,
        split-join b',' w ws (lacking (w ∷ ws) h),
        trimmed_items (w ∷ ws) h,
      )
      refl
