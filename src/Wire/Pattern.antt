-- ===== src/Wire/Pattern.antt =====
-- src/vcc-wire.ts: the expressions that read the blocks back (`parseVccSourceStatus`,
-- `parseVccProjection`).
use opencode_better_compact.Base.{
  Bool, true, false, ◌==◌, Option, none, some, List, [], ◌∷◌, take, drop, leb, Text, codes,
  if◌then◌else◌,
}
use opencode_better_compact.Base.Value.{◌>>=◌, ◌>>◌}
use opencode_better_compact.Utf8.{utf8_bytes}
use opencode_better_compact.State.VccAttempt.{is_digest}
use opencode_better_compact.Wire.{
  SourceStatus, Projection, reasons, source_status_max_bytes, status_head, status_manifest,
  status_attempt, status_tail, projection_max_bytes, projection_head, projection_index,
  projection_archive, projection_candidate, projection_patch, projection_tail,
}

-- A literal part of an expression: what follows it.
unfoldable pub literal : Text → Text → Option Text
literal [] s = some s
literal (p ∷ ps) [] = none
literal (p ∷ ps) (c ∷ s) = let rest = literal ps s in if c == p then rest else none

-- `([a-f0-9]{64})`: the digest and what follows it.
unfoldable pub digest_part : Text → Option (Text × Text)
digest_part s = if is_digest (take 64 s) then some (take 64 s, drop 64 s) else none

-- `"([a-f0-9]{64})"`
unfoldable pub quoted_digest : Text → Option (Text × Text)
unfolding literal digest_part
quoted_digest s = do
  s ← literal (b'"' ∷ []) s
  (digest, s) ← digest_part s
  s ← literal (b'"' ∷ []) s
  some (digest, s)

-- The end of the text
abbrev pub at_end : Text → Bool
at_end [] = true
at_end (c ∷ s) = false

-- `(a|b|…)`: the first that what follows it agrees with.
unfoldable pub first_of {ℓ} : {A : Type ℓ} → (Text → Option A) → List Text → Option A
first_of match [] = none
first_of match (r ∷ rs) = elim (match r) [ none ↦ first_of match rs | some a ↦ some a ]

-- From a reason on
unfoldable pub match_reason : Text → Text → Option SourceStatus
unfolding literal quoted_digest
match_reason s reason = do
  s ← literal (b'"' ∷ []) s
  s ← literal reason s
  s ← literal (b'"' ∷ []) s
  s ← literal status_manifest s
  (manifest, s) ← quoted_digest s
  s ← literal status_attempt s
  (attempt, s) ← quoted_digest s
  s ← literal status_tail s
  at_end s
  some (record { reason = reason; manifest_digest = manifest; attempt_digest = attempt })

unfoldable pub parse_vcc_source_status : Text → Option SourceStatus
unfolding codes literal first_of match_reason
parse_vcc_source_status text = do
  leb (utf8_bytes text) source_status_max_bytes
  s ← literal status_head text
  first_of (match_reason s) reasons

-- `(null|"([a-f0-9]{64})")`: only one of the two can match.
unfoldable pub nullable_digest : Text → Option (Option Text × Text)
unfolding quoted_digest
nullable_digest s = elim (literal (codes "null") s) [
  | some rest ↦ some (none, rest)
  | none ↦ do (digest, rest) ← quoted_digest s; some (some digest, rest)
]

-- The first two digests, up to the name of the third.
unfoldable pub match_source : Text → Option (Text × Text × Text)
unfolding quoted_digest
match_source text = do
  s ← literal projection_head text
  (manifest, s) ← quoted_digest s
  s ← literal projection_index s
  (index, s) ← quoted_digest s
  s ← literal projection_archive s
  some (manifest, index, s)

unfoldable pub parse_vcc_projection : Text → Option Projection
unfolding match_source nullable_digest
parse_vcc_projection text = do
  leb (utf8_bytes text) projection_max_bytes
  (manifest, index, s) ← match_source text
  (archive, s) ← quoted_digest s
  s ← literal projection_candidate s
  (candidate, s) ← quoted_digest s
  s ← literal projection_patch s
  (patch, s) ← nullable_digest s
  s ← literal projection_tail s
  at_end s
  some (record {
    source_manifest_digest = manifest;
    source_index_digest = index;
    archive_manifest_digest = archive;
    candidate_digest = candidate;
    patch_digest = patch;
  })
