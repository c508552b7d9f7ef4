-- ===== src/Query.antt =====
-- The functions of Go's package net/url that the client of syncthing calls to build a query.
pub mod RoundTrip
use correlation.Base.{
  ℕ, Text, List, [], ◌∷◌, ◌++◌, map, Bool, true, false, ◌==◌, ◌&&◌, ◌||◌, ltb, leb, if◌then◌else◌,
  ◌+◌, ◌-◌, ◌*◌, ◌/◌, ◌%◌, Option, none, some, Map, lookup, insert, keys, sort_strings,
}
use correlation.Strings.{join}

-- the bytes that stand for themselves
abbrev pub is_unreserved : ℕ → Bool
is_unreserved c =
    (leb b'a' c && leb c b'z')
    || (leb b'A' c && leb c b'Z')
    || (leb b'0' c && leb c b'9')
    || c == b'-'
    || c == b'_'
    || c == b'.'
    || c == b'~'

abbrev pub hex : ℕ → ℕ
hex n = if ltb n 10 then b'0' + n else b'A' + (n - 10)

unfoldable pub escape_byte : ℕ → Text
escape_byte c =
    if is_unreserved c
    then c ∷ []
    else if c == 32
    then b'+' ∷ []
    else b'%' ∷ hex (c / 16) ∷ hex (c % 16) ∷ []

-- url.QueryEscape
unfoldable pub query_escape : Text → Text
unfolding escape_byte
query_escape [] = []
query_escape (c ∷ s) = escape_byte c ++ query_escape s

-- url.Values
abbrev pub Values : Type 0
Values = Map (List Text)

abbrev pub or_nil : Option (List Text) → List Text
or_nil none = []
or_nil (some l) = l

-- Values.Set
unfoldable pub values_set : Text → Text → Values → Values
values_set key value m = insert key (value ∷ []) m

-- Values.Add
unfoldable pub values_add : Text → Text → Values → Values
values_add key value m = insert key (or_nil (lookup key m) ++ value ∷ []) m

-- every key with each of its values
unfoldable pub pairs : Values → List Text → List (Text × Text)
pairs m [] = []
pairs m (k ∷ ks) = map (λ v. (k, v)) (or_nil (lookup k m)) ++ pairs m ks

unfoldable pub pair_text : Text × Text → Text
unfolding query_escape
pair_text (k, v) = query_escape k ++ b'=' ∷ query_escape v

unfoldable pub spell : List (Text × Text) → Text
unfolding pair_text
spell ps = join b'&' (map pair_text ps)

-- Values.Encode, which sorts the keys
unfoldable pub encode : Values → Text
unfolding pairs spell
encode m = spell (pairs m (sort_strings (keys m)))
