-- ===== src/Wire.antt =====
-- src/vcc-wire.ts: the blocks of a summary that say what became of a compaction
-- (`renderVccSourceStatus`, `parseVccSourceStatus`, `renderVccProjection`, `parseVccProjection`,
-- `vccAttemptDigest`).
pub mod Plain
pub mod Pattern
pub mod RoundTrip
pub mod Projected
mod Tests
use opencode_better_compact.Base.{
  ℕ, Bool, true, false, not, ◌&&◌, ◌||◌, Option, none, some, List, [], ◌∷◌, ◌++◌, map, take, drop,
  ltb, leb, Text, codes, eq_text, includes, member, is_empty, Result, ok, throw, type_error, ◌>>=◌,
  ◌>>◌, reject_if, if◌then◌else◌,
}
use opencode_better_compact.Base.Value
use opencode_better_compact.Utf8.{utf8_bytes}
use opencode_better_compact.State.VccAttempt.{is_digest}
use opencode_better_compact.Vcc.Reason.{source_incomplete_reasons, reason_text}
use opencode_better_compact.Vcc.Serialize.{quote}

abbrev pub source_status_start : Text
source_status_start = codes "<!-- opencode-safe-compaction vcc-source-status v1 start -->"

abbrev pub source_status_end : Text
source_status_end = codes "<!-- opencode-safe-compaction vcc-source-status v1 end -->"

abbrev pub projection_start : Text
projection_start = codes "<!-- opencode-safe-compaction vcc-projection v1 start -->"

abbrev pub projection_end : Text
projection_end = codes "<!-- opencode-safe-compaction vcc-projection v1 end -->"

abbrev pub source_status_max_bytes : ℕ
source_status_max_bytes = 2048

abbrev pub projection_max_bytes : ℕ
projection_max_bytes = 8192

-- The fields of a status that are not the same in each.
pub record SourceStatus : Type 0 where
  pub reason : Text
  pub manifest_digest : Text
  pub attempt_digest : Text

-- The fields of a projection that are not the same in each.
pub record Projection : Type 0 where
  pub source_manifest_digest : Text
  pub source_index_digest : Text
  pub archive_manifest_digest : Text
  pub candidate_digest : Text
  pub patch_digest : Option Text

abbrev pub reasons : List Text
reasons = map reason_text source_incomplete_reasons

-- What stands before, between and after the fields of a status.
abbrev pub status_head : Text
status_head =
    source_status_start
    ++ (10 ∷ codes "{\"version\":1,\"mode\":\"hybrid\",\"complete\":false,\"reason\":")

abbrev pub status_manifest : Text
status_manifest = codes ",\"manifest_digest\":"

abbrev pub status_attempt : Text
status_attempt = codes ",\"attempt_digest\":"

abbrev pub status_tail : Text
status_tail =
    codes ",\"outcome\":\"degraded_summary\",\"partial_ledger\":true}" ++ (10 ∷ source_status_end)

unfoldable pub status_block : SourceStatus → Text
status_block s =
    status_head
    ++ (quote s.reason
        ++ (status_manifest
            ++ (quote s.manifest_digest
                ++ (status_attempt ++ (quote s.attempt_digest ++ status_tail)))))

abbrev pub bounded : ℕ → Text → Option Text
bounded max_bytes block = if leb (utf8_bytes block) max_bytes then some block else none

unfoldable pub render_vcc_source_status : SourceStatus → Option Text
unfolding status_block
render_vcc_source_status s =
    if member s.reason reasons && is_digest s.manifest_digest && is_digest s.attempt_digest
    then bounded source_status_max_bytes (status_block s)
    else none

abbrev pub projection_head : Text
projection_head =
    projection_start
    ++ (10
        ∷ codes
            "{\"version\":1,\"mode\":\"hybrid\",\"source_complete\":true,\"source_manifest_digest\":")

abbrev pub projection_index : Text
projection_index = codes ",\"source_index_digest\":"

abbrev pub projection_archive : Text
projection_archive = codes ",\"archive_manifest_digest\":"

abbrev pub projection_candidate : Text
projection_candidate = codes ",\"candidate_digest\":"

abbrev pub projection_patch : Text
projection_patch = codes ",\"patch_digest\":"

abbrev pub projection_tail : Text
projection_tail = codes "}" ++ (10 ∷ projection_end)

abbrev pub quote_or_null : Option Text → Text
quote_or_null none = codes "null"
quote_or_null (some t) = quote t

unfoldable pub projection_block : Projection → Text
projection_block p =
    projection_head
    ++ (quote p.source_manifest_digest
        ++ (projection_index
            ++ (quote p.source_index_digest
                ++ (projection_archive
                    ++ (quote p.archive_manifest_digest
                        ++ (projection_candidate
                            ++ (quote p.candidate_digest
                                ++ (projection_patch
                                    ++ (quote_or_null p.patch_digest ++ projection_tail)))))))))

abbrev pub is_digest_or_null : Option Text → Bool
is_digest_or_null none = true
is_digest_or_null (some t) = is_digest t

abbrev pub has_digests : Projection → Bool
has_digests p =
    is_digest p.source_manifest_digest
    && is_digest p.source_index_digest
    && is_digest p.archive_manifest_digest
    && is_digest p.candidate_digest
    && is_digest_or_null p.patch_digest

unfoldable pub render_vcc_projection : Projection → Option Text
unfolding projection_block
render_vcc_projection p =
    if has_digests p then bounded projection_max_bytes (projection_block p) else none

-- `requireBoundedID`
unfoldable pub require_bounded_id : Text → Result (Unit {0})
require_bounded_id value =
    reject_if (is_empty value || includes value (0 ∷ []) || ltb 4096 (utf8_bytes value)) type_error

module _ (sha256 : Text → Text) where
  unfoldable pub vcc_attempt_digest : Text → Text → Text → Result Text
  unfolding codes require_bounded_id
  vcc_attempt_digest session_id compaction_target_id manifest_digest = do
    require_bounded_id session_id
    require_bounded_id compaction_target_id
    reject_if (not (is_digest manifest_digest)) type_error
    ok (
        sha256 (
          codes "vcc-attempt-v1"
          ++ (0 ∷ (session_id ++ (0 ∷ (compaction_target_id ++ (0 ∷ manifest_digest)))))))
