-- ===== src/Vcc/Event/Ids.antt =====
-- src/vcc.ts: the tests on identities (`requireHost`, `requireStableSourceID`, `requireNonEmpty`,
-- `normalizeIDs`, `normalizeTypedIDs`, `normalizeArchiveHandles`).
use opencode_better_compact.Base.{
  ℕ, Bool, false, not, ◌&&◌, ◌||◌, List, [], ◌∷◌, ◌++◌, Text, codes, eq_text, member, distinct,
  includes, is_empty, all, any, ltb, leb, ◌==◌, length, Result, ok, type_error, ◌>>◌, reject_if,
  if◌then◌else◌,
}
use opencode_better_compact.Base.Sort.{sort}
use opencode_better_compact.Utf8.{utf8_bytes}
use opencode_better_compact.Vcc.Order.{compare_code_points}

abbrev pub vcc_hosts : List Text
vcc_hosts = codes "pi" ∷ codes "opencode-v1" ∷ []

unfoldable pub require_host : Text → Result (Unit {0})
require_host host = reject_if (not (member host vcc_hosts)) type_error

unfoldable pub require_non_empty : Text → Result (Unit {0})
require_non_empty value =
    reject_if (is_empty value || includes value (0 ∷ []) || ltb 4096 (utf8_bytes value)) type_error

abbrev pub is_digit : ℕ → Bool
is_digit c = leb b'0' c && leb c b'9'

unfoldable pub require_stable_source_id : Text → Result (Unit {0})
unfolding require_non_empty
require_stable_source_id value = do
  require_non_empty value
  reject_if
      (not (is_empty value) && all is_digit value
        || includes value (10 ∷ [])
        || includes value (0 ∷ [])
        || includes value (b':' ∷ [])
        || ltb 512 (utf8_bytes value))
      type_error

unfoldable pub canonical_event_id : Text → Text → Result Text
canonical_event_id host stable_source_id = do
  require_host host
  require_stable_source_id stable_source_id
  ok (codes "ev:" ++ (host ++ (b':' ∷ stable_source_id)))

-- `\s` of a regular expression
abbrev pub is_space : ℕ → Bool
is_space c =
    leb 9 c && leb c 13
    || c == 32
    || c == 0xa0
    || c == 0x1680
    || leb 0x2000 c && leb c 0x200a
    || c == 0x2028
    || c == 0x2029
    || c == 0x202f
    || c == 0x205f
    || c == 0x3000
    || c == 0xfeff

abbrev pub add_head : ℕ → List Text → List Text
add_head c [] = (c ∷ []) ∷ []
add_head c (part ∷ parts) = (c ∷ part) ∷ parts

-- What stands between the colons.
unfoldable pub colon_parts : Text → List Text
colon_parts [] = [] ∷ []
colon_parts (c ∷ t) =
    let parts = colon_parts t in if c == b':' then [] ∷ parts else add_head c parts

-- `[^:\s]+`, between colons
abbrev pub is_segment : Text → Bool
is_segment part = not (is_empty part) && not (any is_space part)

abbrev pub are_event_parts : List Text → Bool
are_event_parts (prefix ∷ host ∷ id ∷ []) =
    eq_text prefix (codes "ev") && is_segment host && is_segment id
are_event_parts _ = false

abbrev pub are_typed_parts : Text → List Text → Bool
are_typed_parts kind (prefix ∷ id ∷ []) = eq_text prefix kind && is_segment id
are_typed_parts kind _ = false

abbrev pub is_hex64 : Text → Bool
is_hex64 t = length t == 64 && all (λ c. is_digit c || leb b'a' c && leb c b'f') t

abbrev pub are_archive_parts : List Text → Bool
are_archive_parts (prefix ∷ version ∷ host ∷ a ∷ b ∷ c ∷ []) =
    eq_text prefix (codes "archive")
    && eq_text version (codes "v1")
    && member host vcc_hosts
    && is_hex64 a
    && is_hex64 b
    && is_hex64 c
are_archive_parts _ = false

-- `/^ev:[^:\s]+:[^:\s]+$/`
unfoldable pub is_event_id : Text → Bool
unfolding colon_parts
is_event_id id = are_event_parts (colon_parts id)

-- `goal` and `artifact` contain no colon.
unfoldable pub is_typed_id : Text → Text → Bool
unfolding colon_parts
is_typed_id kind id = are_typed_parts kind (colon_parts id)

unfoldable pub is_archive_handle : Text → Bool
unfolding colon_parts
is_archive_handle handle = are_archive_parts (colon_parts handle)

-- No identity twice, each admitted, and then sorted.
unfoldable pub sorted_ids : (Text → Bool) → List Text → Result (List Text)
sorted_ids admits ids = do
  reject_if (not (distinct ids)) type_error
  reject_if (any (λ id. not (admits id)) ids) type_error
  ok (sort compare_code_points ids)

unfoldable pub normalize_ids : List Text → Result (List Text)
unfolding sorted_ids
normalize_ids ids = sorted_ids is_event_id ids

unfoldable pub normalize_typed_ids : Text → List Text → Result (List Text)
unfolding sorted_ids
normalize_typed_ids kind ids = sorted_ids (is_typed_id kind) ids

unfoldable pub normalize_archive_handles : List Text → Result (List Text)
unfolding sorted_ids
normalize_archive_handles handles = sorted_ids is_archive_handle handles
