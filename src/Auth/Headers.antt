-- ===== src/Auth/Headers.antt =====
-- The part of net/http headers that the program uses. A header map has canonical names, as Go's
-- server builds it; names are ASCII.
use pdbcore.Prelude.{
  ℕ, Bool, true, ◌&&◌, ◌||◌, List, [], ◌∷◌, Option, none, some, Text, codes, leb, ◌==◌, all, any,
  if◌then◌else◌, lower_rune, upper_rune,
}
use pdbcore.Prelude.Map.{Map, get}

abbrev pub HeaderMap : Type 0
HeaderMap = Map (List Text)

abbrev pub first_value : Option (List Text) → Text
first_value none = []
first_value (some []) = []
first_value (some (v ∷ vs)) = v

-- Header.Get for a canonical name.
unfoldable pub header_get : HeaderMap → Text → Text
unfolding get
header_get h name = first_value (get name h)

-- The bytes of a token of RFC 7230.
unfoldable pub is_token_byte : ℕ → Bool
unfolding any
is_token_byte c =
    (leb b'a' c && leb c b'z')
    || (leb b'A' c && leb c b'Z')
    || (leb b'0' c && leb c b'9')
    || any (λ d. d == c) (codes "!#$%&'*+-.^_`|~")

-- Upper case at the start and behind a hyphen, lower case elsewhere.
unfoldable pub canonical_runes : Bool → Text → Text
unfolding lower_rune upper_rune
canonical_runes upper [] = []
canonical_runes upper (c ∷ s) =
    (if upper then upper_rune c else lower_rune c) ∷ canonical_runes (c == b'-') s

-- http.CanonicalHeaderKey: a name with another byte stays as it is.
unfoldable pub canonical_header_key : Text → Text
unfolding all is_token_byte canonical_runes
canonical_header_key s = if all is_token_byte s then canonical_runes true s else s
