-- ===== src/Sources/Query.antt =====
-- What the sources use of `net/url`: `url.Values` with one value for a key, and its `Encode`.
use pricefeeder.Base.{
  ℕ, ◌+◌, ◌-◌, ◌/◌, ◌%◌, Bool, true, false, ◌&&◌, ◌||◌, [], ◌∷◌, ◌++◌, Text, Dict, ltb, leb, ◌==◌,
  if◌then◌else◌,
}

-- A byte that `QueryEscape` leaves alone.
is_unreserved : ℕ → Bool
is_unreserved b =
    (leb b'a' b && leb b b'z')
    || ((leb b'A' b && leb b b'Z')
        || ((leb b'0' b && leb b b'9')
            || ((b == b'-') || ((b == b'_') || ((b == b'.') || (b == b'~'))))))

hex_digit : ℕ → ℕ
hex_digit n = if ltb n 10 then b'0' + n else b'A' + (n - 10)

pub query_escape : Text → Text
unfolding is_unreserved hex_digit
query_escape [] = []
query_escape (b ∷ s) =
    let rest = query_escape s in
    if is_unreserved b
    then b ∷ rest
    else (if b == b' ' then b'+' ∷ rest else b'%' ∷ hex_digit (b / 16) ∷ hex_digit (b % 16) ∷ rest)

text_leb : Text → Text → Bool
text_leb [] t = true
text_leb (a ∷ s) [] = false
text_leb (a ∷ s) (b ∷ t) = let rest = text_leb s t in if a == b then rest else ltb a b

insert_key : Text × Text → Dict Text → Dict Text
unfolding text_leb
insert_key (k, v) [] = (k, v) ∷ []
insert_key (k, v) ((j, w) ∷ m) =
    let rest = insert_key (k, v) m in if text_leb k j then (k, v) ∷ (j, w) ∷ m else (j, w) ∷ rest

sort_keys : Dict Text → Dict Text
unfolding insert_key
sort_keys [] = []
sort_keys ((k, v) ∷ m) = insert_key (k, v) (sort_keys m)

joined_values : Dict Text → Text
unfolding query_escape
joined_values [] = []
joined_values ((k, v) ∷ []) = query_escape k ++ (b'=' ∷ query_escape v)
joined_values ((k, v) ∷ next ∷ m) =
    query_escape k ++ (b'=' ∷ (query_escape v ++ (b'&' ∷ joined_values (next ∷ m))))

-- `Encode`, in the order of the keys.
unfoldable pub encode_values : Dict Text → Text
unfolding sort_keys joined_values
encode_values m = joined_values (sort_keys m)
