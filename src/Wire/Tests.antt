-- ===== src/Wire/Tests.antt =====
-- src/vcc-wire.ts: a small status and a small projection.
use opencode_better_compact.Base.{◌≡◌, refl, none, some, Text, codes, eq_text, member}
use opencode_better_compact.Utf8.{utf8_bytes}
use opencode_better_compact.State.VccAttempt.{is_digest}
use opencode_better_compact.Vcc.Reason.{source_incomplete_reasons, reason_text}
use opencode_better_compact.Vcc.Serialize.{quote}
use opencode_better_compact.Wire.{
  SourceStatus, Projection, status_block, render_vcc_source_status, projection_block,
  render_vcc_projection,
}
use opencode_better_compact.Wire.Pattern.{parse_vcc_source_status, parse_vcc_projection}
use opencode_better_compact.Wire.RoundTrip.{parse-render_vcc_source_status}
use opencode_better_compact.Wire.Projected.{parse-render_vcc_projection}

abbrev digest_text : Text
digest_text = codes "aaaaaaaaaaaaaaaaaaaaaaaaaaaaaaaaaaaaaaaaaaaaaaaaaaaaaaaaaaaaaaaa"

abbrev small_status : SourceStatus
small_status = record {
  reason = codes "page_limit";
  manifest_digest = digest_text;
  attempt_digest = digest_text;
}

status_is_rendered : render_vcc_source_status small_status ≡ some (status_block small_status)
unfolding render_vcc_source_status codes member eq_text is_digest utf8_bytes quote
    source_incomplete_reasons reason_text
status_is_rendered = refl

parse-render_vcc_source_status_example :
    parse_vcc_source_status (status_block small_status) ≡ some small_status
parse-render_vcc_source_status_example =
    parse-render_vcc_source_status small_status (status_block small_status) status_is_rendered

abbrev small_projection : Projection
small_projection = record {
  source_manifest_digest = digest_text;
  source_index_digest = digest_text;
  archive_manifest_digest = digest_text;
  candidate_digest = digest_text;
  patch_digest = none;
}

projection_is_rendered :
    render_vcc_projection small_projection ≡ some (projection_block small_projection)
unfolding render_vcc_projection codes is_digest utf8_bytes quote
projection_is_rendered = refl

parse-render_vcc_projection_example :
    parse_vcc_projection (projection_block small_projection) ≡ some small_projection
parse-render_vcc_projection_example =
    parse-render_vcc_projection small_projection (projection_block small_projection)
      projection_is_rendered
