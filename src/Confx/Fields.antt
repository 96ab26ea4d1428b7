-- ===== src/Confx/Fields.antt =====
-- confx/load.go: slicePaths. A configuration is what package reflect shows of it: a struct's fields
-- in order, each with its tags and its value; a value stands for its type too.
use pdbcore.Prelude.{
  Bool, true, false, not, ◌||◌, ◌&&◌, List, [], ◌∷◌, ◌++◌, Text, codes, text_eq, is_empty,
  if◌then◌else◌,
}
use pdbcore.Prelude.Int.{ℤ}
use pdbcore.Prelude.Words.{begins}

-- reflect.StructField: Anonymous and the tags.
pub record Tags : Type 0 where
  pub is_anonymous : Bool
  pub key : Text
  pub doc : Text

-- reflect.Value by its kind. A duration is of kind Int64 and of type time.Duration; the keys of a
-- map are what %v prints of them; of a value of any other kind there is only what %v prints.
mutual
  pub data Value : Type 0 where
    string : Text → Value
    boolean : Bool → Value
    integer : ℤ → Value
    duration : ℤ → Value
    slice : Elements → Value
    map_of : Entries → Value
    struct : Fields → Value
    other : Text → Value

  pub data Elements : Type 0 where
    nil : Elements
    cons : Value → Elements → Elements

  pub data Entries : Type 0 where
    done : Entries
    entry : Text → Value → Entries → Entries

  pub data Fields : Type 0 where
    end : Fields
    field : Tags → Value → Fields → Fields

unfoldable pub is_struct : Value → Bool
is_struct (struct fs) = true
is_struct _ = false

-- The test for an embedded struct, whose fields are inlined.
unfoldable pub is_inlined : Tags → Value → Bool
unfolding is_empty begins is_struct
is_inlined t v = t.is_anonymous && is_struct v && (is_empty t.key || begins b',' t.key)

unfoldable pub is_left_out : Tags → Bool
unfolding is_empty text_eq
is_left_out t = is_empty t.key || text_eq t.key (codes "-")

unfoldable pub path_of : Text → Text → Text
unfolding is_empty
path_of prefix key = if not (is_empty prefix) then prefix ++ b'.' ∷ key else key

-- The prefix for the fields of a struct that is a field.
unfoldable pub inner_prefix : Text → Tags → Value → Text
unfolding is_inlined path_of
inner_prefix prefix t v = if is_inlined t v then prefix else path_of prefix t.key

-- collectSlicePaths: the keys of the map, in the order of the walk.
unfoldable pub collect_slice_paths : Fields → Text → List Text
unfolding is_inlined is_left_out path_of inner_prefix
collect_slice_paths end prefix = []
collect_slice_paths (field t (struct fs) rest) prefix =
    let inner = collect_slice_paths fs (inner_prefix prefix t (struct fs)) in
    (if is_inlined t (struct fs) then inner else if is_left_out t then [] else inner)
    ++ collect_slice_paths rest prefix
collect_slice_paths (field t (slice vs) rest) prefix =
    (if is_left_out t then [] else path_of prefix t.key ∷ []) ++ collect_slice_paths rest prefix
collect_slice_paths (field t _ rest) prefix = collect_slice_paths rest prefix

-- slicePaths; nothing but a struct has any.
unfoldable pub slice_paths : Value → List Text
unfolding collect_slice_paths
slice_paths (struct fs) = collect_slice_paths fs []
slice_paths _ = []
