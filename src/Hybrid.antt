-- ===== src/Hybrid.antt =====
-- src/vcc-hybrid.ts: a patch asked of a model (`buildVccHybridRequest`, `requestVccHybridPatch`).
pub mod Exchange
pub mod Outcome
mod Tests
use opencode_better_compact.Base.{
  ℕ, Bool, true, false, not, Option, none, some, List, [], ◌∷◌, ltb, leb, Text, codes, eq_text,
  Result, ok, throw, Thrown, type_error, range_error, plain_error, ◌>>=◌, ◌>>◌, reject_if,
  if◌then◌else◌,
}
use opencode_better_compact.Base.Value.{
  Value, num, str, arr, obj, Items, nil, cons, Fields, end, field, Number, int, safe_natural,
}
use opencode_better_compact.Utf8.{utf8_bytes}
use opencode_better_compact.Vcc.Serialize.{canonical_serialize}
use opencode_better_compact.Vcc.Event.{Primitives, natural, texts}
use opencode_better_compact.Vcc.Json.{patch_max_bytes}
use opencode_better_compact.Vcc.Patch.{
  CorrectionGate, VccPatchSourceIndex, VccPatchContext, VccPatchApplication, vcc_patch_base_digest,
  or_else,
}
use opencode_better_compact.Vcc.Patch.Apply.{rehearse_vcc_patch}

abbrev pub default_max_request_bytes : ℕ
default_max_request_bytes = 2097152

pub record RequestEnvelope : Type 0 where
  pub bytes : Text
  pub digest : Text
  pub base_digest : Text

pub record HybridResult : Type 0 where
  pub is_accepted : Bool
  pub candidate_bytes : Text
  pub candidate_digest : Text
  pub patch_digest : Option Text
  pub reason : Option Text
  pub request_bytes : Option Text
  pub request_digest : Option Text
  pub selected_episode_ids : List Text
  pub warnings : List Text

-- What came of a request, with whether the signal is aborted by then: an exception, or a response of
-- any type, none for `undefined`.
pub data Answer : Type 0 where
  failed : Bool → Answer
  answered : Bool → Option Value → Answer

-- The function that asks is not of this code: it is none where it is no function.
pub record HybridOptions : Type 0 where
  pub request_patch : Option (Text → Answer)
  pub is_aborted : Bool
  pub max_request_bytes : Option Number
  pub max_response_bytes : Option Number

abbrev pub gate_items : List CorrectionGate → Items
gate_items [] = nil
gate_items (g ∷ gates) =
    cons
      (obj (
        field (codes "from") (str g.source_id) (
          field (codes "to") (str g.target_id)
            (field (codes "evidence_event_ids") (texts g.evidence_event_ids) end))))
      (gate_items gates)

unfoldable pub source_index_value : VccPatchSourceIndex → Value
source_index_value index = obj (
    field (codes "event_ids") (texts index.event_ids) (
      field (codes "episode_ids") (texts index.episode_ids) (
        field (codes "goal_ids") (texts index.goal_ids) (
          field (codes "loop_ids") (texts index.loop_ids) (
            field (codes "artifact_ids") (texts index.artifact_ids) (
              field (codes "protected_event_ids") (texts index.protected_event_ids) (
                field (codes "protected_episode_ids") (texts index.protected_episode_ids) (
                  field (codes "protected_goal_ids") (texts index.protected_goal_ids) (
                    field (codes "correction_gate") (arr (gate_items index.correction_gate))
                      end)))))))))

unfoldable pub authority_value : Value
authority_value = obj (
    field (codes "instructions")
      (texts (
        codes "Use only source-index references and source-backed evidence."
        ∷ codes "Preserve protected candidate material and causal episode integrity."
        ∷ codes "Suggest optional whole-episode ranking or source-backed warnings only."
        ∷ []))
      (field (codes "forbidden_actions")
        (texts (
          codes "completion_claim"
          ∷ codes "deletion"
          ∷ codes "durable_mutation"
          ∷ codes "cut_boundary"
          ∷ codes "pair_split"
          ∷ codes "provider_call"
          ∷ []))
        end))

-- A positive safe integer
unfoldable pub positive_limit : Number → Option ℕ
positive_limit n = elim (safe_natural (some (num n))) [
  | none ↦ none
  | some m ↦ if ltb 0 m then some m else none
]

unfoldable pub require_positive_limit : Number → Result ℕ
unfolding positive_limit
require_positive_limit n = elim (positive_limit n) [ none ↦ throw type_error | some m ↦ ok m ]

abbrev pub bytes_of : Option RequestEnvelope → Option Text
bytes_of none = none
bytes_of (some request) = some request.bytes

abbrev pub digest_of : Option RequestEnvelope → Option Text
digest_of none = none
digest_of (some request) = some request.digest

abbrev pub failure_of : Thrown → Text
failure_of range_error = codes "request_oversized"
failure_of _ = codes "invalid_candidate_context"

module _ (primitives : Primitives) where
  -- The types of the texts are checked at compile time.
  unfoldable pub validate_candidate : VccPatchContext → Result (Unit {0})
  validate_candidate context =
      reject_if (not (eq_text (primitives.sha256 context.candidate.bytes) context.candidate.digest))
        plain_error

  unfoldable pub request_fields : VccPatchContext → Fields
  unfolding codes source_index_value authority_value vcc_patch_base_digest
  request_fields context =
      let candidate = context.candidate in
      let docket = context.docket_bytes in
      field (codes "version") (natural 1) (
        field (codes "kind") (str (codes "vcc_hybrid_patch_request")) (
          field (codes "candidate_bytes") (str candidate.bytes) (
            field (codes "candidate_digest") (str candidate.digest) (
              field (codes "docket_bytes") (str docket) (
                field (codes "docket_digest") (str (primitives.sha256 docket)) (
                  field (codes "base_digest")
                    (str (vcc_patch_base_digest primitives candidate.bytes docket))
                    (field (codes "source_index") (source_index_value context.source_index)
                      (field (codes "authority") authority_value end))))))))

  unfoldable pub build_vcc_hybrid_request : VccPatchContext → Number → Result RequestEnvelope
  unfolding request_fields
  build_vcc_hybrid_request context max_request_bytes = do
    validate_candidate context
    limit ← require_positive_limit max_request_bytes
    bytes ← canonical_serialize primitives.print_double (obj (request_fields context))
    reject_if (ltb limit (utf8_bytes bytes)) range_error
    ok (record {
      bytes = bytes;
      digest = primitives.sha256 bytes;
      base_digest = vcc_patch_base_digest primitives context.candidate.bytes context.docket_bytes;
    })

  -- The candidate as it is, for a reason.
  abbrev pub fallback : VccPatchContext → Text → Option RequestEnvelope → HybridResult
  fallback context why request = record {
    is_accepted = false;
    candidate_bytes = context.candidate.bytes;
    candidate_digest = primitives.sha256 context.candidate.bytes;
    patch_digest = none;
    reason = some why;
    request_bytes = bytes_of request;
    request_digest = digest_of request;
    selected_episode_ids = context.candidate.selected_episode_ids;
    warnings = [];
  }
