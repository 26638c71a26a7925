-- ===== src/Hybrid/Exchange.antt =====
-- src/vcc-hybrid.ts: the exchange with a model (`requestVccHybridPatch`).
use opencode_better_compact.Base.{
  ℕ, true, false, not, Option, none, some, leb, Text, codes, Result, ok, throw, if◌then◌else◌,
}
use opencode_better_compact.Base.Verdict.{Verdict, because, passed, need, test, ◌>>=◌}
use opencode_better_compact.Base.Value.{Value, str, Number, int}
use opencode_better_compact.Utf8.{utf8_bytes}
use opencode_better_compact.Vcc.Event.{Primitives}
use opencode_better_compact.Vcc.Json.{patch_max_bytes}
use opencode_better_compact.Vcc.Patch.{VccPatchContext, VccPatchApplication, or_else}
use opencode_better_compact.Vcc.Patch.Apply.{rehearse_vcc_patch}
use opencode_better_compact.Hybrid.{
  RequestEnvelope, HybridResult, Answer, failed, answered, HybridOptions, default_max_request_bytes,
  positive_limit, build_vcc_hybrid_request, fallback, failure_of,
}

-- The response, where the request did not fail and the signal is not aborted.
unfoldable pub await_answer : Answer → Verdict (Option Value)
await_answer (failed true) = because (codes "aborted")
await_answer (failed false) = because (codes "request_failed")
await_answer (answered true response) = because (codes "aborted")
await_answer (answered false response) = passed response

unfoldable pub response_text : Option Value → Verdict Text
response_text none = because (codes "no_patch")
response_text (some (str t)) = passed t
response_text (some _) = because (codes "non_text_response")

abbrev pub max_response_bytes_of : HybridOptions → Option ℕ
max_response_bytes_of options =
    positive_limit (or_else options.max_response_bytes (int false patch_max_bytes))

-- The text that a request brings, once it is sent.
unfoldable pub receive : HybridOptions → RequestEnvelope → Verdict Text
unfolding await_answer response_text
receive options request = do
  limit ← need (max_response_bytes_of options) (codes "invalid_response_bound")
  _ ← test (not options.is_aborted) (codes "aborted")
  request_patch ← need options.request_patch (codes "invalid_request_boundary")
  response ← await_answer (request_patch request.bytes)
  text ← response_text response
  _ ← test (leb (utf8_bytes text) limit) (codes "response_oversized")
  passed text

abbrev pub accepted_result : RequestEnvelope → VccPatchApplication → HybridResult
accepted_result request rehearsal = record {
  is_accepted = true;
  candidate_bytes = rehearsal.candidate_bytes;
  candidate_digest = rehearsal.candidate_digest;
  patch_digest = rehearsal.patch_digest;
  reason = none;
  request_bytes = some request.bytes;
  request_digest = some request.digest;
  selected_episode_ids = rehearsal.selected_episode_ids;
  warnings = rehearsal.warnings;
}

abbrev pub max_request_bytes_of : HybridOptions → Number
max_request_bytes_of options =
    or_else options.max_request_bytes (int false default_max_request_bytes)

module _ (primitives : Primitives) (read_double : Text → Number) where
  abbrev pub settle : VccPatchContext → RequestEnvelope → VccPatchApplication → HybridResult
  settle context request rehearsal =
      if rehearsal.is_accepted
      then accepted_result request rehearsal
      else fallback primitives context (codes "invalid_patch") (some request)

  -- A received text is tried as a patch of the candidate.
  unfoldable pub try_text : VccPatchContext → RequestEnvelope → Verdict Text → Result HybridResult
  unfolding rehearse_vcc_patch
  try_text context request (because why) = ok (fallback primitives context why (some request))
  try_text context request (passed text) =
      elim (rehearse_vcc_patch primitives read_double context text) [
        | throw e ↦ throw e
        | ok rehearsal ↦ ok (settle context request rehearsal)
      ]

  unfoldable pub request_vcc_hybrid_patch : VccPatchContext → HybridOptions → Result HybridResult
  unfolding codes receive try_text build_vcc_hybrid_request
  request_vcc_hybrid_patch context options =
      elim (build_vcc_hybrid_request primitives context (max_request_bytes_of options)) [
        | throw e ↦ ok (fallback primitives context (failure_of e) none)
        | ok request ↦ try_text context request (receive options request)
      ]
