-- ===== src/Ledger/Parts.antt =====
-- src/ledger.ts: messages and their parts (`boundedPart`, `compactUserTurn`, `toolEvidence`,
-- `addBoundedPath`, `pushReverseUnique`).
use opencode_better_compact.Base.{
  ℕ, zero, suc, ◌+◌, ◌-◌, ◌/◌, Bool, true, false, not, ◌&&◌, ◌||◌, Option, none, some, List, [],
  ◌∷◌, ◌++◌, reverse, length, get_elem?, take, drop, keep, any, min, leb, ltb, ◌==◌, Text, codes,
  eq_text, member, includes, is_empty, if◌then◌else◌,
}
use opencode_better_compact.Base.Value.{
  Value, bool, str, obj, Fields, get_field, as_text, join, ◌>>◌,
}
use opencode_better_compact.Base.Sort.{is_gt}
use opencode_better_compact.Utf8.{
  utf8_bytes, bounded_source, code_point_count, code_point_prefix_end,
}
use opencode_better_compact.Vcc.Order.{compare_points}
use opencode_better_compact.Vcc.Serialize.{digits_from}
use opencode_better_compact.Ledger.Wording.{compact, compact_source_bytes}

abbrev pub parts_per_message : ℕ
parts_per_message = 256

abbrev pub max_touched_paths : ℕ
max_touched_paths = 64

abbrev pub tool_output_source_bytes : ℕ
tool_output_source_bytes = 65536

pub data Role : Type 0 where
  user assistant : Role

-- The fields of `info` that are read, and the parts.
pub record MessageRecord : Type 0 where
  pub id : Text
  pub role : Role
  pub is_summary : Bool
  pub failure : Option Value
  pub parent_id : Option Text
  pub parts : List Value

-- `record(value)`
abbrev pub fields_of : Option Value → Option Fields
fields_of (some (obj fs)) = some fs
fields_of _ = none

abbrev pub is_type : Text → Fields → Bool
is_type name fs = is_name (get_field (codes "type") fs)
  where
    is_name : Option Value → Bool
    is_name (some (str t)) = eq_text t name
    is_name _ = false

abbrev pub bounded_part_count : List Value → ℕ
bounded_part_count parts = min (length parts) parts_per_message

-- Of too many parts the first and the last ones count.
unfoldable pub bounded_part : List Value → ℕ → Option Value
bounded_part parts index =
    if leb (length parts) parts_per_message
    then get_elem? parts index
    else if ltb index (parts_per_message / 2)
    then get_elem? parts index
    else get_elem? parts (length parts - (parts_per_message - index))

-- The records among the parts of so many indices from one on, in their order.
unfoldable pub records_from : List Value → ℕ → ℕ → List Fields
unfolding bounded_part
records_from parts first zero = []
records_from parts first (suc count) =
    let rest = records_from parts (suc first) count in
    elim (fields_of (bounded_part parts first)) [ none ↦ rest | some fs ↦ fs ∷ rest ]

abbrev pub is_set : Text → Fields → Bool
is_set key fs = is_true (get_field key fs)
  where
    is_true : Option Value → Bool
    is_true (some (bool true)) = true
    is_true _ = false

-- The text of a part that the user wrote.
unfoldable pub user_text : Fields → Option Text
unfolding get_field as_text codes
user_text fs = do
  is_type (codes "text") fs
  not (is_set (codes "synthetic") fs)
  not (is_set (codes "ignored") fs)
  as_text (get_field (codes "text") fs)

-- The texts of a turn until they are long enough, after so many bytes of them.
unfoldable pub turn_texts : ℕ → List Fields → List Text
unfolding user_text
turn_texts bytes [] = []
turn_texts bytes (fs ∷ rest) = elim (user_text fs) [
  | none ↦ turn_texts bytes rest
  | some t ↦
      let source = bounded_source t (compact_source_bytes - bytes) in
      let total = bytes + utf8_bytes source in
      elim (is_empty source) [
        | true ↦ turn_texts bytes rest
        | false ↦ elim (leb compact_source_bytes total) [
          | true ↦ source ∷ []
          | false ↦ source ∷ turn_texts total rest
        ]
      ]
]

unfoldable pub compact_user_turn : (Text → Text) → List Value → ℕ → ℕ → ℕ → Text
unfolding records_from turn_texts
compact_user_turn redact parts first count max_bytes =
    compact redact (join (10 ∷ []) (turn_texts 0 (records_from parts first count))) max_bytes

-- `${n}` of a count
abbrev pub decimal : ℕ → Text
decimal n = digits_from 21 n []

unfoldable pub tool_evidence : (Text → Text) → (Text → Text) → Text → Text
unfolding codes digits_from
tool_evidence redact sha256 value =
    let source = bounded_source value tool_output_source_bytes in
    let limit = if leb (length source) 240 then min 120 (code_point_count source / 2) else 120 in
    let excerpt = compact redact (take (code_point_prefix_end source limit) source) 160 in
    let prefix = take 16 (sha256 source) in
    let detail =
      if ltb (length source) (length value)
      then codes "at least "
        ++ (decimal (utf8_bytes source) ++ (codes " source bytes; prefix sha256 " ++ prefix))
      else decimal (utf8_bytes source) ++ (codes " bytes; sha256 " ++ prefix) in
    if is_empty value
    then codes "completed with empty output"
    else excerpt ++ (codes "… [partial output; " ++ (detail ++ codes "]"))

-- `pushReverseUnique`; the set holds the values of the list.
unfoldable pub push_unique : ℕ → Text → List Text → List Text
push_unique limit value values =
    if is_empty value || member value values || leb limit (length values)
    then values
    else values ++ value ∷ []

-- What follows the last slash
unfoldable pub last_segment : Text → Text → Text
last_segment segment [] = segment
last_segment segment (c ∷ s) =
    let after = last_segment s s in
    let longer = last_segment segment s in if c == b'/' then after else longer

unfoldable pub is_real_path : Text → Bool
unfolding last_segment
is_real_path path =
    not (ltb (length path) 4)
    && (includes (last_segment path path) (b'.' ∷ [])
        || any (λ c. c == b'/') (drop 1 path)
        || leb 16 (length path))

-- The greatest text, where two that are equal count once.
unfoldable pub largest : Text → List Text → Text
largest best [] = best
largest best (t ∷ ts) = largest (if is_gt (compare_points t best) then t else best) ts

abbrev pub drop_slashes : Text → Text
drop_slashes [] = []
drop_slashes (c ∷ s) = if c == b'/' then drop_slashes s else c ∷ s

-- `value.replace(/\/+$/, "") || value`
abbrev pub without_trailing_slashes : Text → Text
without_trailing_slashes value =
    let shorter = reverse (drop_slashes (reverse value)) in
    if is_empty shorter then value else shorter

-- The paths without the greatest, where they are too many.
unfoldable pub drop_largest : List Text → List Text
unfolding largest
drop_largest [] = []
drop_largest (t ∷ ts) =
    if leb (length (t ∷ ts)) max_touched_paths
    then t ∷ ts
    else keep (λ p. not (eq_text p (largest t ts))) (t ∷ ts)

unfoldable pub add_bounded_path : (Text → Text) → Text → List Text → List Text
unfolding is_real_path drop_largest
add_bounded_path redact value paths =
    let path = compact redact (without_trailing_slashes value) 300 in
    if not (is_real_path path) || member path paths
    then paths
    else drop_largest (paths ++ path ∷ [])
