-- ===== src/Vcc/Serialize.antt =====
-- src/vcc.ts: canonical JSON (`canonicalSerialize`, `serializeValue`).
pub mod Laws
use Prim.Native.Nat.{Ordering}
use opencode_better_compact.Base.{
  ℕ, zero, suc, ◌+◌, ◌-◌, ◌*◌, ◌/◌, ◌%◌, ◌^◌, Bool, true, false, ◌&&◌, ◌||◌, List, [], ◌∷◌, ◌++◌,
  map, Text, codes, ltb, leb, ◌==◌, Result, ok, throw, type_error, ◌>>=◌, if◌then◌else◌,
}
use opencode_better_compact.Base.Sort.{sort}
use opencode_better_compact.Base.Value.{
  Value, null, bool, num, str, arr, obj, Items, nil, cons, Fields, end, field, Number, int, other,
  join,
}
use opencode_better_compact.Utf8.{is_high, is_low}
use opencode_better_compact.Vcc.Order.{compare_code_points}

abbrev pub hex_digit : ℕ → ℕ
hex_digit n = if ltb n 10 then b'0' + n else b'a' + (n - 10)

abbrev pub unicode_escape : ℕ → Text
unicode_escape c =
    b'\\'
    ∷ b'u'
    ∷ hex_digit (c / 4096)
    ∷ hex_digit (c / 256 % 16)
    ∷ hex_digit (c / 16 % 16)
    ∷ hex_digit (c % 16)
    ∷ []

-- `JSON.stringify` of one code unit that is not half of a pair.
unfoldable pub escape_unit : ℕ → Text
escape_unit c =
    if c == b'"' || c == b'\\'
    then b'\\' ∷ c ∷ []
    else if c == 8
    then b'\\' ∷ b'b' ∷ []
    else if c == 9
    then b'\\' ∷ b't' ∷ []
    else if c == 10
    then b'\\' ∷ b'n' ∷ []
    else if c == 12
    then b'\\' ∷ b'f' ∷ []
    else if c == 13
    then b'\\' ∷ b'r' ∷ []
    else if ltb c 32 || leb 0xd800 c && leb c 0xdfff
    then unicode_escape c
    else c ∷ []

unfoldable pub escape : Text → Text
escape [] = []
escape (c ∷ []) = escape_unit c
escape (c ∷ d ∷ rest) =
    let pair = c ∷ d ∷ escape rest in
    let single = escape_unit c ++ escape (d ∷ rest) in
    if is_high c && is_low d then pair else single

-- `JSON.stringify(text)`
unfoldable pub quote : Text → Text
unfolding escape escape_unit
quote t = b'"' ∷ (escape t ++ b'"' ∷ [])

-- The decimal digits of a number below ten to the power of the fuel.
unfoldable pub digits_from : ℕ → ℕ → Text → Text
digits_from zero n behind = behind
digits_from (suc fuel) n behind =
    let more = digits_from fuel (n / 10) ((b'0' + n % 10) ∷ behind) in
    if ltb n 10 then (b'0' + n) ∷ behind else more

-- Below this every integer is a double of its own, and is printed by its digits.
abbrev pub digits_limit : ℕ
digits_limit = 2 ^ 53

-- An exponent of ones in the bits: infinite, or not a number.
abbrev pub is_finite : ℕ → Bool
is_finite bits = ltb (bits / 2 ^ 52 % 2048) 2047

abbrev pub compare_entries : Text × Text → Text × Text → Ordering
compare_entries (left, a) (right, b) = compare_code_points left right

abbrev pub entry_text : Text × Text → Text
entry_text (key, text) = quote key ++ (b':' ∷ text)

abbrev pub ends_in_newline : Text → Bool
ends_in_newline [] = false
ends_in_newline (c ∷ []) = c == 10
ends_in_newline (c ∷ d ∷ t) = ends_in_newline (d ∷ t)

-- The shortest decimal form of a double that is no small integer is a parameter.
module _ (print_double : Number → Text) where
  unfoldable pub serialize_number : Number → Result Text
  unfolding digits_from
  serialize_number (int negative n) =
      if n == 0
      then ok (codes "0")
      else if ltb n digits_limit
      then ok (if negative then b'-' ∷ digits_from 21 n [] else digits_from 21 n [])
      else ok (print_double (int negative n))
  serialize_number (other bits) =
      if is_finite bits then ok (print_double (other bits)) else throw type_error

  unfoldable mutual
    unfolding serialize_number quote compare_code_points

    pub serialize_value : Value → Result Text
    serialize_value null = ok (codes "null")
    serialize_value (bool true) = ok (codes "true")
    serialize_value (bool false) = ok (codes "false")
    serialize_value (num n) = serialize_number n
    serialize_value (str t) = ok (quote t)
    serialize_value (arr vs) = do
      texts ← serialize_items vs
      ok (b'[' ∷ (join (b',' ∷ []) texts ++ b']' ∷ []))
    serialize_value (obj fs) = do
      entries ← serialize_entries fs
      ok (b'{' ∷ (join (b',' ∷ []) (map entry_text (sort compare_entries entries)) ++ b'}' ∷ []))

    pub serialize_items : Items → Result (List Text)
    serialize_items nil = ok []
    serialize_items (cons v vs) = do
      text ← serialize_value v
      texts ← serialize_items vs
      ok (text ∷ texts)

    -- The text of each property's value with its key; the entries are sorted by the caller.
    pub serialize_entries : Fields → Result (List (Text × Text))
    serialize_entries end = ok []
    serialize_entries (field k v fs) = do
      text ← serialize_value v
      entries ← serialize_entries fs
      ok ((k, text) ∷ entries)

  unfoldable pub canonical_serialize : Value → Result Text
  unfolding serialize_value
  canonical_serialize value = do
    serialized ← serialize_value value
    ok (if ends_in_newline serialized then serialized else serialized ++ 10 ∷ [])
