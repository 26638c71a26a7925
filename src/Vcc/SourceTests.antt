-- ===== src/Vcc/SourceTests.antt =====
-- Manifests of sources (src/vcc.ts) at concrete data.
use opencode_better_compact.Base.{
  ◌≡◌, ◌↔◌, refl, true, false, none, some, [], ◌∷◌, Text, codes, eq_text, eq_text_iff, ◌≢◌,
  includes, starts_with, member, distinct, ok, throw, plain_error,
}
use opencode_better_compact.Base.Sort.{swap, insert, sort}
use opencode_better_compact.Base.Value.{int, join, safe_natural}
use opencode_better_compact.Utf8.{
  utf8_bytes, truncate_utf8, has_surrogate_pair, bytes_from, unit_bytes,
}
use opencode_better_compact.Vcc.Order.{compare_code_points}
use opencode_better_compact.Vcc.Reason.{reason_text, reason_of}
use opencode_better_compact.Vcc.Serialize.{
  quote, escape, escape_unit, digits_from, serialize_number, serialize_value, canonical_serialize,
}
use opencode_better_compact.Vcc.Event.Ids.{
  require_host, require_non_empty, require_stable_source_id, canonical_event_id, is_event_id,
  is_typed_id, sorted_ids, normalize_ids, normalize_typed_ids, normalize_archive_handles,
  is_archive_handle,
}
use opencode_better_compact.Vcc.Event.{
  content_text, payload_digest_of, event_value, full_event_value, normalize_canonical_event,
  compare_events,
}
use opencode_better_compact.Vcc.Source.{
  SourceInput, SourceCompleteness, terminal, build_source_completeness, assert_complete_source,
  scan, check_reason, check_count, count_bytes, source_completeness_digest, stable_identity,
}
use opencode_better_compact.Vcc.Source.Laws.{IsWhole}
use opencode_better_compact.Vcc.Source.Complete.{
  build_source_completeness-IsWhole, assert_complete_source-built,
}
use opencode_better_compact.Vcc.Source.Digest.{reread, build_source_completeness-reread}
use opencode_better_compact.Vcc.Tests.{
  value_of, plain, first_input, second_input, event_of_input, ids-HasText,
}

abbrev source : SourceInput
source = record {
  host = codes "pi";
  session_id = codes "s";
  lineage_id = codes "l";
  events = event_of_input second_input ∷ event_of_input first_input ∷ [];
  page_count = none;
  terminal_cursor = terminal;
  reason = none;
  byte_count = some (int false 40);
}

abbrev no_manifest : SourceCompleteness
no_manifest = record {
  host = [];
  session_id = [];
  lineage_id = [];
  complete = false;
  reason = none;
  page_count = 0;
  record_count = 0;
  first_source_id = none;
  last_source_id = none;
  terminal_cursor = none;
  terminal_cursor_observed = false;
  byte_count = 0;
  digest = [];
}

abbrev manifest : SourceCompleteness
manifest = value_of no_manifest (build_source_completeness plain source)

abbrev swapped : SourceInput
swapped =
    reread source (event_of_input first_input ∷ event_of_input second_input ∷ [])
      (some (int false 2)) (some (int false 41))

abbrev manifest' : SourceCompleteness
manifest' = value_of no_manifest (build_source_completeness plain swapped)

manifest_built : build_source_completeness plain source ≡ ok manifest
unfolding build_source_completeness scan check_reason check_count count_bytes
    source_completeness_digest stable_identity full_event_value normalize_canonical_event
    compare_events content_text payload_digest_of event_value canonical_event_id require_host
    require_non_empty require_stable_source_id normalize_ids normalize_typed_ids
    normalize_archive_handles is_event_id is_typed_id is_archive_handle sorted_ids safe_natural
    canonical_serialize serialize_value serialize_number quote escape escape_unit digits_from codes
    join sort insert compare_code_points member distinct eq_text includes starts_with utf8_bytes
    truncate_utf8 bytes_from unit_bytes has_surrogate_pair reason_text reason_of
manifest_built = refl

swapped_built : build_source_completeness plain swapped ≡ ok manifest'
unfolding build_source_completeness scan check_reason check_count count_bytes
    source_completeness_digest stable_identity full_event_value normalize_canonical_event
    compare_events content_text payload_digest_of event_value canonical_event_id require_host
    require_non_empty require_stable_source_id normalize_ids normalize_typed_ids
    normalize_archive_handles is_event_id is_typed_id is_archive_handle sorted_ids safe_natural
    canonical_serialize serialize_value serialize_number quote escape escape_unit digits_from codes
    join sort insert compare_code_points member distinct eq_text includes starts_with utf8_bytes
    truncate_utf8 bytes_from unit_bytes has_surrogate_pair reason_text reason_of
swapped_built = refl

texts_differ : (a b : Text) → eq_text a b ≡ false → a ≢ b
texts_differ a b h e = cc (h, (eq_text_iff a b).1 e)

source-IsWhole : IsWhole source
unfolding build_source_completeness scan check_reason check_count count_bytes
    source_completeness_digest stable_identity full_event_value normalize_canonical_event
    compare_events content_text payload_digest_of event_value canonical_event_id require_host
    require_non_empty require_stable_source_id normalize_ids normalize_typed_ids
    normalize_archive_handles is_event_id is_typed_id is_archive_handle sorted_ids safe_natural
    canonical_serialize serialize_value serialize_number quote escape escape_unit digits_from codes
    join sort insert compare_code_points member distinct eq_text includes starts_with utf8_bytes
    truncate_utf8 bytes_from unit_bytes has_surrogate_pair reason_text reason_of
source-IsWhole = record {
  no_reason = refl;
  at_end = refl;
  scoped = (refl, (refl, tt));
  nodup = (
    (texts_differ (event_of_input second_input).id (event_of_input first_input).id refl, tt),
    (tt, tt),
  );
}

build_source_completeness-IsWhole_example : (manifest.complete ≡ true) ↔ IsWhole source
build_source_completeness-IsWhole_example =
    build_source_completeness-IsWhole plain source manifest manifest_built

assert_complete_source-built_example :
    (IsWhole source → assert_complete_source plain manifest ≡ ok manifest)
    × (¬ IsWhole source → assert_complete_source plain manifest ≡ throw plain_error)
assert_complete_source-built_example =
    assert_complete_source-built plain source manifest manifest_built

build_source_completeness-reread_example : manifest.digest ≡ manifest'.digest
build_source_completeness-reread_example =
    build_source_completeness-reread plain source
      (event_of_input first_input ∷ event_of_input second_input ∷ []) (some (int false 2))
      (some (int false 41)) manifest manifest' source-IsWhole ids-HasText
      (swap (event_of_input second_input) (event_of_input first_input) []) manifest_built
      swapped_built
