-- ===== src/Archive/Tests.antt =====
-- src/vcc-archive.ts: a handle of a small payload.
use opencode_better_compact.Base.{
  ◌≡◌, refl, none, List, [], ◌∷◌, ℕ, Text, codes, eq_text, member, includes, starts_with, true, ok,
}
use opencode_better_compact.Base.Verdict.{passed}
use opencode_better_compact.Utf8.{utf8_bytes}
use opencode_better_compact.Vcc.Event.Ids.{
  canonical_event_id, require_host, require_stable_source_id, require_non_empty, is_hex64,
}
use opencode_better_compact.Archive.{
  text, octets, CreateInput, HandleMetadata, handle_of, validate_identity, require_bounded_text,
  create_vcc_archive_handle,
}
use opencode_better_compact.Archive.Verify.{verify_vcc_archive}
use opencode_better_compact.Archive.Sound.{IsVerified, verify_vcc_archive-IsVerified}
use opencode_better_compact.Archive.Scope.{HasNoZero, scope_text-inj}
use opencode_better_compact.Archive.RoundTrip.{expected, verify_vcc_archive-create}

abbrev digest_text : Text
digest_text = codes "aaaaaaaaaaaaaaaaaaaaaaaaaaaaaaaaaaaaaaaaaaaaaaaaaaaaaaaaaaaaaaaa"

abbrev of_text : Text → Text
of_text t = digest_text

abbrev of_octets : List ℕ → Text
of_octets bytes = digest_text

abbrev small_input : CreateInput
small_input = record {
  host = codes "pi";
  session_id = codes "s";
  lineage_id = codes "l";
  stable_source_id = codes "m1";
  canonical_source_kind = none;
  stable_source_identity = none;
  source_bytes = text (codes "source");
  payload_bytes = octets (1 ∷ 2 ∷ []);
}

abbrev small_metadata : HandleMetadata
small_metadata = record {
  handle = handle_of (codes "pi") digest_text digest_text digest_text;
  host = codes "pi";
  session_id = codes "s";
  lineage_id = codes "l";
  stable_source_id = codes "m1";
  canonical_source_kind = codes "event";
  stable_source_identity = codes "m1";
  scope_digest = digest_text;
  source_digest = digest_text;
  payload_digest = digest_text;
  source_byte_count = 6;
  payload_byte_count = 2;
}

small_handle : create_vcc_archive_handle of_text of_octets small_input ≡ ok small_metadata
unfolding create_vcc_archive_handle codes validate_identity canonical_event_id require_host
    require_stable_source_id require_non_empty require_bounded_text member eq_text includes
    starts_with utf8_bytes
small_handle = refl

digest_text-hex : is_hex64 digest_text ≡ true
unfolding codes
digest_text-hex = refl

verify_vcc_archive-create_example :
    verify_vcc_archive of_text of_octets small_metadata.handle small_input none
    ≡ passed (expected of_text of_octets small_input small_metadata)
verify_vcc_archive-create_example =
    verify_vcc_archive-create of_text of_octets small_input small_metadata (λ t. digest_text-hex)
      (λ bytes. digest_text-hex) small_handle

verify_vcc_archive-IsVerified_example :
    IsVerified of_text of_octets small_input small_metadata.handle none
      (expected of_text of_octets small_input small_metadata)
verify_vcc_archive-IsVerified_example =
    verify_vcc_archive-IsVerified of_text of_octets small_input small_metadata.handle none
      (expected of_text of_octets small_input small_metadata) verify_vcc_archive-create_example

no_zero_in_host : HasNoZero (codes "pi")
unfolding codes includes starts_with
no_zero_in_host = refl

no_zero_in_session : HasNoZero (codes "s")
unfolding codes includes starts_with
no_zero_in_session = refl

same_scope : (codes "pi" ≡ codes "pi") × (codes "s" ≡ codes "s") × (codes "l" ≡ codes "l")
same_scope =
    scope_text-inj (codes "pi") (codes "s") (codes "l") (codes "pi") (codes "s") (codes "l")
      no_zero_in_host no_zero_in_host no_zero_in_session no_zero_in_session refl
