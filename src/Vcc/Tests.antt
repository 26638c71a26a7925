-- ===== src/Vcc/Tests.antt =====
-- Canonical texts, events and manifests (src/vcc.ts) at concrete data.
use opencode_better_compact.Base.{
  ◌++◌, ◌≡◌, refl, true, false, none, some, List, [], ◌∷◌, arith, Text, codes, eq_text, includes,
  starts_with, member, distinct, Result, ok, throw, All,
}
use opencode_better_compact.Base.Results.{traverse}
use opencode_better_compact.Base.Sort.{Perm, swap, insert, sort, Ascending}
use opencode_better_compact.Base.Value.{
  null, bool, str, arr, obj, cons, nil, field, end, int, keys, join, safe_natural,
}
use opencode_better_compact.Utf8.{
  utf8_bytes, truncate_utf8, has_surrogate_pair, bytes_from, unit_bytes,
}
use opencode_better_compact.Vcc.Order.{compare_code_points, unique_from, unique, unique_sorted}
use opencode_better_compact.Vcc.Order.Laws.{IsText}
use opencode_better_compact.Vcc.Order.Sets.{unique_sorted-Ascending, unique_sorted-ext}
use opencode_better_compact.Vcc.Serialize.{
  quote, escape, escape_unit, digits_from, serialize_number, serialize_value, canonical_serialize,
}
use opencode_better_compact.Vcc.Serialize.Laws.{canonical_serialize-Perm}
use opencode_better_compact.Vcc.Event.Ids.{
  require_host, require_non_empty, require_stable_source_id, canonical_event_id, is_event_id,
  is_typed_id, sorted_ids, normalize_ids, normalize_typed_ids, normalize_archive_handles,
  is_archive_handle,
}
use opencode_better_compact.Vcc.Event.{
  Authority, CanonicalEventInput, CanonicalEvent, Primitives, natural, content_text,
  payload_digest_of, event_value, normalize_canonical_event, normalize_canonical_events,
  compare_events, require_distinct,
}
use opencode_better_compact.Vcc.Event.Normal.{IsNormal, normalize_canonical_event-IsNormal}
use opencode_better_compact.Vcc.Event.Sequence.{
  HasText, normalize_canonical_events-Perm, normalize_canonical_events-Ascending,
}

abbrev pub value_of {ℓ} : {A : Type ℓ} → A → Result A → A
value_of other (ok a) = a
value_of other (throw e) = other

abbrev pub plain : Primitives
plain = record { sha256 = λ t. t; redact = λ t. t; print_double = λ n. [] }

abbrev labels : List Text
labels = codes "b" ∷ codes "a" ∷ codes "b" ∷ []

abbrev labels' : List Text
labels' = codes "a" ∷ codes "b" ∷ []

labels-IsText : All IsText labels
unfolding codes
labels-IsText = omega arith

labels'-IsText : All IsText labels'
unfolding codes
labels'-IsText = omega arith

labels_sorted : unique_sorted labels ≡ labels'
unfolding unique_sorted unique unique_from compare_code_points member eq_text sort insert codes
labels_sorted = refl

labels_ascend :
    Ascending compare_code_points (unique_sorted labels)
    × ((x : Text) → member x (unique_sorted labels) ≡ member x labels)
labels_ascend = unique_sorted-Ascending labels labels-IsText

same_members : (z : Text) → member z labels ≡ member z labels'
unfolding member codes
same_members z = ground arith

labels_are_same : unique_sorted labels ≡ unique_sorted labels'
labels_are_same = unique_sorted-ext labels labels' labels-IsText labels'-IsText same_members

quoted :
    quote (9 ∷ 34 ∷ 55357 ∷ 56832 ∷ 55357 ∷ [])
    ≡ codes "\"\\t\\\"" ++ 55357 ∷ 56832 ∷ codes "\\ud83d\""
unfolding quote codes
quoted = refl

first_text :
    canonical_serialize
      (λ n. [])
      (obj (
        field
          (codes "b")
          (natural 120)
          (field (codes "a") (arr (cons null (cons (bool true) nil))) end)))
    ≡ ok (codes "{\"a\":[null,true],\"b\":120}" ++ 10 ∷ [])
unfolding canonical_serialize serialize_value serialize_number quote escape escape_unit digits_from
    codes join sort insert compare_code_points
first_text = refl

canonical_serialize-Perm_example :
    canonical_serialize
      (λ n. [])
      (obj (
        field
          (codes "a")
          (arr (cons null (cons (bool true) nil)))
          (field (codes "b") (natural 120) end)))
    ≡ ok (codes "{\"a\":[null,true],\"b\":120}" ++ 10 ∷ [])
unfolding keys codes distinct eq_text
canonical_serialize-Perm_example =
    canonical_serialize-Perm (λ n. [])
      (field (codes "b") (natural 120)
        (field (codes "a") (arr (cons null (cons (bool true) nil))) end))
      (field (codes "a") (arr (cons null (cons (bool true) nil)))
        (field (codes "b") (natural 120) end))
      (codes "{\"a\":[null,true],\"b\":120}" ++ 10 ∷ []) (omega arith) refl
      (swap (codes "b", natural 120) (codes "a", arr (cons null (cons (bool true) nil))) [])
      first_text

abbrev pub first_input : CanonicalEventInput
first_input = record {
  host = codes "pi";
  session_id = codes "s";
  lineage_id = codes "l";
  stable_source_id = codes "m1";
  sequence = int false 2;
  provenance = codes "human_direct";
  kind = codes "request";
  content = str (codes "go");
  source_location = codes "x";
  pair_id = none;
  derived_from_event_ids = none;
  supersedes_event_ids = some (codes "ev:pi:m0" ∷ []);
  goal_ids = some (codes "goal:b" ∷ codes "goal:a" ∷ []);
  artifact_ids = none;
  evidence_event_ids = none;
  archive_handles = none;
  authoritative = none;
  advisory = some true;
}

abbrev pub second_input : CanonicalEventInput
second_input = record first_input {
  stable_source_id = codes "m0";
  sequence = int false 1;
  supersedes_event_ids = none;
}

abbrev pub no_event : CanonicalEvent
no_event = record {
  id = [];
  host = [];
  session_id = [];
  lineage_id = [];
  sequence = 0;
  provenance = [];
  kind = [];
  pair_id = none;
  derived_from_event_ids = [];
  supersedes_event_ids = [];
  goal_ids = [];
  artifact_ids = [];
  evidence_event_ids = [];
  archive_handles = [];
  content = [];
  payload_digest = [];
  authority = Authority.advisory;
  source_location = [];
}

abbrev pub event_of_input : CanonicalEventInput → CanonicalEvent
event_of_input input = value_of no_event (normalize_canonical_event plain input)

first_normal : normalize_canonical_event plain first_input ≡ ok (event_of_input first_input)
unfolding normalize_canonical_event normalize_canonical_events traverse compare_events
    require_distinct content_text payload_digest_of event_value canonical_event_id require_host
    require_non_empty require_stable_source_id normalize_ids normalize_typed_ids
    normalize_archive_handles is_event_id is_typed_id is_archive_handle sorted_ids safe_natural
    canonical_serialize serialize_value serialize_number quote escape escape_unit digits_from codes
    join sort insert compare_code_points member distinct eq_text includes starts_with utf8_bytes
    truncate_utf8 bytes_from unit_bytes has_surrogate_pair
first_normal = refl

normalize_canonical_event-IsNormal_example : IsNormal plain first_input (event_of_input first_input)
normalize_canonical_event-IsNormal_example =
    normalize_canonical_event-IsNormal plain first_input (event_of_input first_input) first_normal

both_normal :
    normalize_canonical_events plain (first_input ∷ second_input ∷ [])
    ≡ ok (event_of_input second_input ∷ event_of_input first_input ∷ [])
unfolding normalize_canonical_event normalize_canonical_events traverse compare_events
    require_distinct content_text payload_digest_of event_value canonical_event_id require_host
    require_non_empty require_stable_source_id normalize_ids normalize_typed_ids
    normalize_archive_handles is_event_id is_typed_id is_archive_handle sorted_ids safe_natural
    canonical_serialize serialize_value serialize_number quote escape escape_unit digits_from codes
    join sort insert compare_code_points member distinct eq_text includes starts_with utf8_bytes
    truncate_utf8 bytes_from unit_bytes has_surrogate_pair
both_normal = refl

pub ids-HasText : All HasText (event_of_input second_input ∷ event_of_input first_input ∷ [])
unfolding normalize_canonical_event normalize_canonical_events traverse compare_events
    require_distinct content_text payload_digest_of event_value canonical_event_id require_host
    require_non_empty require_stable_source_id normalize_ids normalize_typed_ids
    normalize_archive_handles is_event_id is_typed_id is_archive_handle sorted_ids safe_natural
    canonical_serialize serialize_value serialize_number quote escape escape_unit digits_from codes
    join sort insert compare_code_points member distinct eq_text includes starts_with utf8_bytes
    truncate_utf8 bytes_from unit_bytes has_surrogate_pair
ids-HasText = omega arith

normalize_canonical_events-Perm_example :
    normalize_canonical_events plain (second_input ∷ first_input ∷ [])
    ≡ ok (event_of_input second_input ∷ event_of_input first_input ∷ [])
normalize_canonical_events-Perm_example =
    normalize_canonical_events-Perm plain
      (event_of_input second_input ∷ event_of_input first_input ∷ []) ids-HasText
      (swap first_input second_input []) both_normal

normalize_canonical_events-Ascending_example :
    ((es : List CanonicalEvent) × (traverse
          (normalize_canonical_event plain)
          (first_input ∷ second_input ∷ [])
        ≡ ok es)
      × Perm (event_of_input second_input ∷ event_of_input first_input ∷ []) es)
    × (All HasText (event_of_input second_input ∷ event_of_input first_input ∷ [])
        → Ascending compare_events (event_of_input second_input ∷ event_of_input first_input ∷ []))
normalize_canonical_events-Ascending_example =
    normalize_canonical_events-Ascending plain (first_input ∷ second_input ∷ [])
      (event_of_input second_input ∷ event_of_input first_input ∷ []) both_normal
