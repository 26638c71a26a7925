-- ===== src/State/VccAttempt.antt =====
-- src/state.ts: `validateVccAttempt`, which admits the metadata of an attempt from a value of
-- unknown type. `redact` (src/ledger.ts) is a parameter.
pub mod Laws
use opencode_better_compact.Base.{
  ℕ, ◌+◌, ◌≡◌, Bool, true, false, not, ◌&&◌, ◌||◌, Option, none, some, List, [], ◌∷◌, Text, codes,
  eq_text, includes, all, find, length, leb, ltb, ◌==◌, is_empty, is_some, if◌then◌else◌,
}
use opencode_better_compact.Base.Value.{
  Value, null, bool, num, str, arr, obj, Number, int, Fields, end, field, keys, get_field,
  safe_natural, as_text, as_bool, join, ◌>>=◌,
}
use opencode_better_compact.Utf8.{utf8_bytes}
use opencode_better_compact.Vcc.Reason.{SourceIncompleteReason, reason_of}

pub data Outcome : Type 0 where
  pending source_incomplete candidate_ready vcc_success : Outcome
  degraded_summary fallback no_text invalid : Outcome

pub data Validation : Type 0 where
  pending provider fallback invalid : Validation

pub record VccAttempt : Type 0 where
  pub attempt_id : Text
  pub session_id : Text
  pub lineage_id : Text
  pub compaction_target_id : Text
  pub summary_message_id : Option Text
  pub text_part_id : Option Text
  pub created_at : ℕ
  pub source_complete : Bool
  pub source_reason : Option SourceIncompleteReason
  pub manifest_digest : Text
  pub source_index_digest : Option Text
  pub docket_digest : Option Text
  pub candidate_digest : Option Text
  pub patch_digest : Option Text
  pub outcome : Outcome
  pub validation : Validation

unfoldable pub vcc_attempt_keys : List Text
vcc_attempt_keys =
    codes "attemptID"
    ∷ codes "sessionID"
    ∷ codes "lineageID"
    ∷ codes "compactionTargetID"
    ∷ codes "summaryMessageID"
    ∷ codes "textPartID"
    ∷ codes "mode"
    ∷ codes "createdAt"
    ∷ codes "sourceComplete"
    ∷ codes "sourceReason"
    ∷ codes "manifestDigest"
    ∷ codes "sourceIndexDigest"
    ∷ codes "docketDigest"
    ∷ codes "candidateDigest"
    ∷ codes "patchDigest"
    ∷ codes "outcome"
    ∷ codes "validation"
    ∷ []

unfoldable pub outcome_text : Outcome → Text
outcome_text Outcome.pending = codes "pending"
outcome_text source_incomplete = codes "source_incomplete"
outcome_text candidate_ready = codes "candidate_ready"
outcome_text vcc_success = codes "vcc_success"
outcome_text degraded_summary = codes "degraded_summary"
outcome_text Outcome.fallback = codes "fallback"
outcome_text no_text = codes "no_text"
outcome_text Outcome.invalid = codes "invalid"

unfoldable pub outcome_of : Text → Option Outcome
unfolding outcome_text
outcome_of t =
    find (λ o. eq_text (outcome_text o) t)
      (Outcome.pending ∷ source_incomplete ∷ candidate_ready ∷ vcc_success ∷ degraded_summary
        ∷ Outcome.fallback ∷ no_text ∷ Outcome.invalid ∷ [])

unfoldable pub validation_text : Validation → Text
validation_text Validation.pending = codes "pending"
validation_text provider = codes "provider"
validation_text Validation.fallback = codes "fallback"
validation_text Validation.invalid = codes "invalid"

unfoldable pub validation_of : Text → Option Validation
unfolding validation_text
validation_of t =
    find (λ v. eq_text (validation_text v) t)
      (Validation.pending ∷ provider ∷ Validation.fallback ∷ Validation.invalid ∷ [])

abbrev pub is_hex : ℕ → Bool
is_hex c = leb b'0' c && leb c b'9' || leb b'a' c && leb c b'f'

-- `/^[a-f0-9]{64}$/u`
unfoldable pub is_digest : Text → Bool
is_digest t = length t == 64 && all is_hex t

unfoldable pub digest : Option Value → Option Text
digest v = do t ← as_text v; if is_digest t then some t else none

-- A test on a value that may be null; `undefined` is not null.
unfoldable pub or_null : {A : Type 0} → (Option Value → Option A) → Option Value → Option (Option A)
or_null test (some null) = some none
or_null test v = do a ← test v; some (some a)

unfoldable pub reason : Option Value → Option SourceIncompleteReason
reason v = do t ← as_text v; reason_of t

unfoldable pub outcome : Option Value → Option Outcome
outcome v = do t ← as_text v; outcome_of t

unfoldable pub validation : Option Value → Option Validation
validation v = do t ← as_text v; validation_of t

unfoldable pub mode : Option Value → Option (Unit {0})
mode v = do t ← as_text v; if eq_text t (codes "hybrid") then some tt else none

abbrev pub is_ready : Outcome → Bool
is_ready candidate_ready = true
is_ready _ = false

abbrev pub is_success : Outcome → Bool
is_success vcc_success = true
is_success _ = false

abbrev pub is_incomplete : Outcome → Bool
is_incomplete source_incomplete = true
is_incomplete degraded_summary = true
is_incomplete _ = false

-- The tests after the fields' own, that relate one field to another.
unfoldable pub is_consistent : VccAttempt → Bool
is_consistent a =
    not (a.source_complete && is_some a.source_reason)
    && not (not a.source_complete && not (is_some a.source_reason))
    && not (
        not a.source_complete
        && (is_some a.source_index_digest
            || is_some a.docket_digest
            || is_some a.candidate_digest
            || is_some a.patch_digest))
    && not (is_some a.patch_digest && not (is_some a.candidate_digest))
    && not ((is_ready a.outcome || is_success a.outcome) && not (is_some a.candidate_digest))
    && not (is_success a.outcome && not a.source_complete)
    && not (a.source_complete && is_incomplete a.outcome)

module _ (redact : Text → Text) where
  unfoldable pub is_bounded_id : Text → Bool
  is_bounded_id t =
      ltb 0 (length t)
      && not (includes t (0 ∷ []))
      && leb (utf8_bytes t) 512
      && eq_text (redact t) t

  unfoldable pub bounded_id : Option Value → Option Text
  bounded_id v = do t ← as_text v; if is_bounded_id t then some t else none

  unfoldable pub parse_fields : Fields → Option VccAttempt
  parse_fields fs = do
    created_at ← safe_natural (get_field (codes "createdAt") fs)
    attempt_id ← bounded_id (get_field (codes "attemptID") fs)
    session_id ← bounded_id (get_field (codes "sessionID") fs)
    lineage_id ← bounded_id (get_field (codes "lineageID") fs)
    compaction_target_id ← bounded_id (get_field (codes "compactionTargetID") fs)
    summary_message_id ← or_null bounded_id (get_field (codes "summaryMessageID") fs)
    text_part_id ← or_null bounded_id (get_field (codes "textPartID") fs)
    _ ← mode (get_field (codes "mode") fs)
    source_complete ← as_bool (get_field (codes "sourceComplete") fs)
    source_reason ← or_null reason (get_field (codes "sourceReason") fs)
    manifest_digest ← digest (get_field (codes "manifestDigest") fs)
    source_index_digest ← or_null digest (get_field (codes "sourceIndexDigest") fs)
    docket_digest ← or_null digest (get_field (codes "docketDigest") fs)
    candidate_digest ← or_null digest (get_field (codes "candidateDigest") fs)
    patch_digest ← or_null digest (get_field (codes "patchDigest") fs)
    outcome_value ← outcome (get_field (codes "outcome") fs)
    validation_value ← validation (get_field (codes "validation") fs)
    some (record {
      attempt_id = attempt_id;
      session_id = session_id;
      lineage_id = lineage_id;
      compaction_target_id = compaction_target_id;
      summary_message_id = summary_message_id;
      text_part_id = text_part_id;
      created_at = created_at;
      source_complete = source_complete;
      source_reason = source_reason;
      manifest_digest = manifest_digest;
      source_index_digest = source_index_digest;
      docket_digest = docket_digest;
      candidate_digest = candidate_digest;
      patch_digest = patch_digest;
      outcome = outcome_value;
      validation = validation_value;
    })

  -- The keys are compared joined by line feeds, so their order counts.
  unfoldable pub validate_vcc_attempt : Value → Option VccAttempt
  validate_vcc_attempt (obj fs) = do
    a ←
        if eq_text (join (10 ∷ []) (keys fs)) (join (10 ∷ []) vcc_attempt_keys)
        then parse_fields fs
        else none
    if is_consistent a then some a else none
  validate_vcc_attempt _ = none
