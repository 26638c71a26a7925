-- ===== src/Vcc/Json.antt =====
-- src/vcc.ts: the reader of patches and candidates (`StrictJsonReader`, `parseVccPatch`). An
-- exception, which `parse` catches, is `none`.
pub mod Tokens
pub mod Rests
pub mod Shorter
pub mod Fuel
pub mod Sizes
pub mod Limits
mod Tests
use opencode_better_compact.Base.{
  ℕ, zero, suc, ◌+◌, ◌*◌, Bool, true, false, not, ◌&&◌, Option, none, some, List, [], ◌∷◌, ◌++◌,
  drop, length, Text, codes, eq_text, starts_with, member, is_empty, ltb, leb, ◌==◌, if◌then◌else◌,
}
use opencode_better_compact.Base.Value.{
  Value, null, bool, num, str, arr, obj, Items, nil, cons, Fields, end, field, Number, ◌>>=◌, ◌>>◌,
}
use opencode_better_compact.Utf8.{utf8_bytes}
use opencode_better_compact.Vcc.Json.Tokens.{skip_space, read_string, read_number}

abbrev pub max_depth : ℕ
max_depth = 8

abbrev pub max_array_length : ℕ
max_array_length = 128

abbrev pub patch_max_bytes : ℕ
patch_max_bytes = 32768

-- `this.text[this.index++] !== c`
abbrev pub expect : ℕ → Text → Option Text
expect c [] = none
expect c (d ∷ s) = if d == c then some s else none

-- `result[key] = value`: this key sets the prototype, and adds no property.
abbrev pub put_field : Text → Value → Fields → Fields
put_field key value rest = if eq_text key (codes "__proto__") then rest else field key value rest

abbrev pub is_next : ℕ → Text → Bool
is_next c [] = false
is_next c (d ∷ s) = d == c

abbrev pub rest_of : Text → Text
rest_of [] = []
rest_of (c ∷ s) = s

-- The first key of an object's rest, up to its value.
unfoldable pub read_key : List Text → Text → Option (Text × Text)
unfolding skip_space read_string
read_key seen s = do
  s ← expect b'"' (skip_space s)
  (key, s) ← read_string s
  not (member key seen)
  s ← expect b':' (skip_space s)
  some (key, s)

-- After an opening bracket: nothing, at most `max_depth` deep, up to the closing one.
abbrev pub open_block : ℕ → Value → ℕ → Text → Option (Value × Text) → Option (Value × Text)
open_block close empty depth s content =
    if ltb max_depth depth
    then none
    else if is_next close (skip_space s)
    then some (empty, rest_of (skip_space s))
    else content

abbrev pub as_object : Option (Fields × Text) → Option (Value × Text)
as_object none = none
as_object (some (fs, rest)) = some (obj fs, rest)

abbrev pub as_array : Option (Items × Text) → Option (Value × Text)
as_array none = none
as_array (some (vs, rest)) = some (arr vs, rest)

abbrev pub as_string : Option (Text × Text) → Option (Value × Text)
as_string none = none
as_string (some (t, rest)) = some (str t, rest)

-- After an element: the end, or a comma and more.
abbrev pub delimited {ℓ} : {A : Type ℓ} → ℕ → Text → A → Option (A × Text) → Option (A × Text)
delimited close s last more =
    if is_next close s then some (last, rest_of s) else if is_next b',' s then more else none

abbrev pub add_field : Text → Value → Option (Fields × Text) → Option (Fields × Text)
add_field key value none = none
add_field key value (some (fs, rest)) = some (put_field key value fs, rest)

abbrev pub add_item : Value → Option (Items × Text) → Option (Items × Text)
add_item value none = none
add_item value (some (vs, rest)) = some (cons value vs, rest)

-- Enough for any text, for each call but the one of a loop's first value has read something.
abbrev pub enough : Text → ℕ
enough s = 2 * length s + 1

abbrev pub is_record : Value → Option Fields
is_record (obj fs) = some fs
is_record _ = none

module _ (read_double : Text → Number) where
  -- The literals and numbers, where no object, array or string stands.
  unfoldable pub read_scalar : Text → Option (Value × Text)
  unfolding codes starts_with read_number
  read_scalar s =
      if starts_with s (codes "true")
      then some (bool true, drop 4 s)
      else if starts_with s (codes "false")
      then some (bool false, drop 5 s)
      else if starts_with s (codes "null")
      then some (null, drop 4 s)
      else do (n, rest) ← read_number read_double s; some (num n, rest)

  -- What a value begins with decides; its members or elements are read only where it has any.
  unfoldable pub value_at :
      ℕ → Text → Option (Fields × Text) → Option (Items × Text) → Option (Value × Text)
  unfolding skip_space read_string read_scalar
  value_at depth s members elements =
      let after = rest_of s in
      let scalar = read_scalar s in
      if is_next b'{' s
      then open_block b'}' (obj end) (suc depth) after (as_object members)
      else if is_next b'[' s
      then open_block b']' (arr nil) (suc depth) after (as_array elements)
      else if is_next b'"' s
      then as_string (read_string after)
      else scalar

  unfoldable mutual
    unfolding codes skip_space read_key value_at

    -- `value`, within this many objects and arrays.
    pub read_value : ℕ → ℕ → Text → Option (Value × Text)
    read_value zero depth s = none
    read_value (suc fuel) depth s =
        let after = rest_of (skip_space s) in
        value_at depth (skip_space s) (read_members fuel (suc depth) [] after)
          (read_items fuel (suc depth) 0 after)

    -- The loop of `object`, with the keys so far.
    pub read_members : ℕ → ℕ → List Text → Text → Option (Fields × Text)
    read_members zero depth seen s = none
    read_members (suc fuel) depth seen s = do
      (key, s) ← read_key seen s
      (value, s) ← read_value fuel depth s
      let more = read_members fuel depth (key ∷ seen) (rest_of (skip_space s))
      delimited b'}' (skip_space s) (put_field key value end) (add_field key value more)

    -- The loop of `array`, with the number of elements so far.
    pub read_items : ℕ → ℕ → ℕ → Text → Option (Items × Text)
    read_items zero depth count s = none
    read_items (suc fuel) depth count s = do
      ltb count max_array_length
      (value, s) ← read_value fuel depth s
      let more = read_items fuel depth (suc count) (rest_of (skip_space s))
      delimited b']' (skip_space s) (cons value nil) (add_item value more)

  -- `new StrictJsonReader(text).parse()`
  unfoldable pub parse : Text → Option Value
  unfolding read_value
  parse text = do
    (value, rest) ← read_value (enough text) 0 text
    if is_empty (skip_space rest) then some value else none

  -- `parseVccPatch`, the object of at most so many bytes.
  unfoldable pub parse_vcc_patch : Text → Option Fields
  unfolding parse
  parse_vcc_patch text = do
    leb (utf8_bytes text) patch_max_bytes
    value ← parse text
    is_record value
