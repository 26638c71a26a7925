-- ===== src/Utf8.antt =====
-- src/ledger.ts: the size of a string in UTF-8 and its truncation at a code point
-- (`utf8Bytes`, `truncateUtf8`, `boundedSource`, `utf8PrefixEnd`, `codePointCount`,
-- `codePointPrefixEnd`, `hasSurrogatePair`). A loop over an index is a recursion on the code units
-- that are left; a Boolean tells that the index skips the next one, the second half of a pair.
pub mod Prefix
pub mod Truncate
mod Tests
use opencode_better_compact.Base.{
  ℕ, ◌+◌, ◌-◌, Bool, true, false, ◌&&◌, [], ◌∷◌, ◌++◌, leb, ltb, if◌then◌else◌, length, take, Text,
  codes,
}

abbrev pub is_high : ℕ → Bool
is_high c = leb 0xd800 c && leb c 0xdbff

abbrev pub is_low : ℕ → Bool
is_low c = leb 0xdc00 c && leb c 0xdfff

-- At the first of the code units that are left.
unfoldable pub has_surrogate_pair : Text → Bool
has_surrogate_pair (high ∷ low ∷ rest) = is_high high && is_low low
has_surrogate_pair _ = false

-- The bytes of the code point at the head, `size` in `utf8PrefixEnd`.
unfoldable pub unit_bytes : ℕ → Bool → ℕ
unit_bytes code pair =
    if leb code 0x7f then 1 else if leb code 0x7ff then 2 else if pair then 4 else 3

unfoldable pub bytes_from : Bool → Text → ℕ
bytes_from skip [] = 0
bytes_from true (code ∷ rest) = bytes_from false rest
bytes_from false (code ∷ rest) =
    let pair = has_surrogate_pair (code ∷ rest) in unit_bytes code pair + bytes_from pair rest

unfoldable pub utf8_bytes : Text → ℕ
unfolding bytes_from unit_bytes has_surrogate_pair
utf8_bytes value = bytes_from false value

-- The loop of `utf8PrefixEnd`, which leaves at the first code point that does not fit.
unfoldable pub prefix_end_from : ℕ → ℕ → ℕ → Bool → Text → ℕ
prefix_end_from max_bytes bytes index skip [] = index
prefix_end_from max_bytes bytes index true (code ∷ rest) =
    prefix_end_from max_bytes bytes index false rest
prefix_end_from max_bytes bytes index false (code ∷ rest) =
    let pair = has_surrogate_pair (code ∷ rest) in
    let size = unit_bytes code pair in
    let onward =
      prefix_end_from max_bytes (bytes + size) (if pair then index + 2 else index + 1) pair rest in
    if ltb max_bytes (bytes + size) then index else onward

unfoldable pub utf8_prefix_end : Text → ℕ → ℕ
unfolding prefix_end_from unit_bytes has_surrogate_pair
utf8_prefix_end value max_bytes = prefix_end_from max_bytes 0 0 false value

abbrev pub truncation_marker : Text
truncation_marker = codes "…[truncated]"

-- `Math.max(0, maxBytes)` is `maxBytes` on ℕ.
unfoldable pub truncate_utf8 : Text → ℕ → Text
truncate_utf8 value max_bytes =
    if leb (utf8_bytes value) max_bytes
    then value
    else if leb max_bytes (utf8_bytes truncation_marker)
    then take (utf8_prefix_end truncation_marker max_bytes) truncation_marker
    else let budget = max_bytes - utf8_bytes truncation_marker in
      take (utf8_prefix_end value budget) value ++ truncation_marker

unfoldable pub bounded_source : Text → ℕ → Text
bounded_source value max_bytes =
    if leb max_bytes 0
    then []
    else if leb (length value) max_bytes && leb (utf8_bytes value) max_bytes
    then value
    else take (utf8_prefix_end value max_bytes) value

unfoldable pub count_from : Bool → Text → ℕ
unfolding has_surrogate_pair
count_from skip [] = 0
count_from true (code ∷ rest) = count_from false rest
count_from false (code ∷ rest) = 1 + count_from (has_surrogate_pair (code ∷ rest)) rest

unfoldable pub code_point_count : Text → ℕ
unfolding count_from
code_point_count value = count_from false value

unfoldable pub point_end_from : ℕ → ℕ → ℕ → Bool → Text → ℕ
unfolding has_surrogate_pair
point_end_from limit count index skip [] = index
point_end_from limit count index true (code ∷ rest) = point_end_from limit count index false rest
point_end_from limit count index false (code ∷ rest) =
    let pair = has_surrogate_pair (code ∷ rest) in
    let onward =
      point_end_from limit (count + 1) (if pair then index + 2 else index + 1) pair rest in
    if ltb count limit then onward else index

unfoldable pub code_point_prefix_end : Text → ℕ → ℕ
unfolding point_end_from
code_point_prefix_end value limit = point_end_from limit 0 0 false value
