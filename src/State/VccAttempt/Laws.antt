-- ===== src/State/VccAttempt/Laws.antt =====
-- src/state.ts: what `validateVccAttempt` admits, and that it admits all of that.
use opencode_better_compact.Base.{
  ℕ, ◌≤◌, ◌≡◌, refl, ◌≢◌, ◌↔◌, true, false, Option, none, some, String, [], ◌∷◌, arith, Text, codes,
  eq_text, eq_text_refl, le→leb,
}
use opencode_better_compact.Base.Value.{
  Value, null, bool, num, str, obj, int, Fields, end, field, keys, get_field, safe_natural, as_text,
  as_bool, join, max_safe_integer,
}
use opencode_better_compact.Vcc.Reason.{SourceIncompleteReason, reason_text, reason_of-reason_text}
use opencode_better_compact.State.VccAttempt.{
  Outcome, Validation, vcc_success, candidate_ready, source_incomplete, degraded_summary,
  VccAttempt, vcc_attempt_keys, outcome_text, outcome_of, validation_text, validation_of, is_digest,
  digest, or_null, reason, outcome, validation, mode, is_consistent, is_bounded_id, bounded_id,
  parse_fields, validate_vcc_attempt,
}

-- A field that may be null.
abbrev pub Maybe : {A : Type 0} → (A → Type 0) → Option A → Type 0
Maybe P none = Unit
Maybe P (some a) = P a

-- The relations between the fields: the source is complete exactly when no reason stands; digests of
-- derived data only with a complete source; a patch only of a candidate; an outcome that fits.
pub record Coheres (a : VccAttempt) : Type 0 where
  pub complete : (a.source_complete ≡ true) ↔ (a.source_reason ≡ none)
  pub underived :
      a.source_complete ≡ false
      → (a.source_index_digest ≡ none)
        × (a.docket_digest ≡ none)
        × (a.candidate_digest ≡ none)
        × (a.patch_digest ≡ none)
  pub patched : a.candidate_digest ≡ none → a.patch_digest ≡ none
  pub ready : a.outcome ≡ candidate_ready → a.candidate_digest ≢ none
  pub success : a.outcome ≡ vcc_success → (a.candidate_digest ≢ none) × (a.source_complete ≡ true)
  pub partial :
      a.source_complete ≡ true → (a.outcome ≢ source_incomplete) × (a.outcome ≢ degraded_summary)

is_consistent-Coheres : (a : VccAttempt) → is_consistent a ≡ true → Coheres a
unfolding is_consistent
is_consistent-Coheres a h = ground arith

Coheres-is_consistent : (a : VccAttempt) → Coheres a → is_consistent a ≡ true
unfolding is_consistent
Coheres-is_consistent a c =
    ground (arith, c.complete, c.underived, c.patched, c.ready, c.success, c.partial)

safe_natural-le : (v : Option Value) (n : ℕ) → safe_natural v ≡ some n → n ≤ max_safe_integer
unfolding safe_natural
safe_natural-le v n h = ground arith

digest_sound : (v : Option Value) (t : Text) → digest v ≡ some t → is_digest t ≡ true
unfolding digest
digest_sound v t h = ground arith

or_null_sound :
    {A : Type 0} (P : A → Type 0) (test : Option Value → Option A)
    → ((v : Option Value) (a : A) → test v ≡ some a → P a)
    → (v : Option Value) (o : Option A) → or_null test v ≡ some o
    → Maybe P o
unfolding or_null
or_null_sound P test sound v none h = tt
or_null_sound P test sound (some null) (some a) h = cc
or_null_sound P test sound v (some a) h = sound v a (ground arith)

module _ (redact : Text → Text) where
  bounded_id_sound :
      (v : Option Value) (t : Text) → bounded_id redact v ≡ some t → is_bounded_id redact t ≡ true
  unfolding bounded_id
  bounded_id_sound v t h = ground arith

  -- The fields by themselves.
  pub record HasBounds (a : VccAttempt) : Type 0 where
    pub created : a.created_at ≤ max_safe_integer
    pub attempt : is_bounded_id redact a.attempt_id ≡ true
    pub session : is_bounded_id redact a.session_id ≡ true
    pub lineage : is_bounded_id redact a.lineage_id ≡ true
    pub target : is_bounded_id redact a.compaction_target_id ≡ true
    pub summary : Maybe (λ t. is_bounded_id redact t ≡ true) a.summary_message_id
    pub text_part : Maybe (λ t. is_bounded_id redact t ≡ true) a.text_part_id
    pub manifest : is_digest a.manifest_digest ≡ true
    pub source_index : Maybe (λ t. is_digest t ≡ true) a.source_index_digest
    pub docket : Maybe (λ t. is_digest t ≡ true) a.docket_digest
    pub candidate : Maybe (λ t. is_digest t ≡ true) a.candidate_digest
    pub patch : Maybe (λ t. is_digest t ≡ true) a.patch_digest

  parse_fields-HasBounds :
      (fs : Fields) (a : VccAttempt) → parse_fields redact fs ≡ some a → HasBounds a
  unfolding parse_fields
  parse_fields-HasBounds fs a h =
      let at = λ (k : String). get_field (codes k) fs in
      let id_of =
        or_null_sound (λ t. is_bounded_id redact t ≡ true) (bounded_id redact) bounded_id_sound in
      let digest_of = or_null_sound (λ t. is_digest t ≡ true) digest digest_sound in
      ground (
        arith,
        safe_natural-le (at "createdAt") a.created_at,
        bounded_id_sound (at "attemptID") a.attempt_id,
        bounded_id_sound (at "sessionID") a.session_id,
        bounded_id_sound (at "lineageID") a.lineage_id,
        bounded_id_sound (at "compactionTargetID") a.compaction_target_id,
        id_of (at "summaryMessageID") a.summary_message_id,
        id_of (at "textPartID") a.text_part_id,
        digest_sound (at "manifestDigest") a.manifest_digest,
        digest_of (at "sourceIndexDigest") a.source_index_digest,
        digest_of (at "docketDigest") a.docket_digest,
        digest_of (at "candidateDigest") a.candidate_digest,
        digest_of (at "patchDigest") a.patch_digest,
      )

  -- Whatever value is admitted, the fields of the result are within their bounds and fit together.
  pub validate_vcc_attempt_sound :
      (value : Value) (a : VccAttempt)
      → validate_vcc_attempt redact value ≡ some a
      → HasBounds a × Coheres a
  unfolding validate_vcc_attempt
  validate_vcc_attempt_sound (obj fs) a h =
      ground (arith, parse_fields-HasBounds fs a, is_consistent-Coheres a)
  validate_vcc_attempt_sound _ a h = cc

abbrev pub nullable : Option Text → Value
nullable none = null
nullable (some t) = str t

abbrev pub reason_value : Option SourceIncompleteReason → Value
reason_value none = null
reason_value (some r) = str (reason_text r)

unfoldable pub vcc_attempt_fields : VccAttempt → Fields
vcc_attempt_fields a = field (codes "attemptID") (str a.attempt_id) (
    field (codes "sessionID") (str a.session_id) (
      field (codes "lineageID") (str a.lineage_id) (
        field (codes "compactionTargetID") (str a.compaction_target_id) (
          field (codes "summaryMessageID") (nullable a.summary_message_id) (
            field (codes "textPartID") (nullable a.text_part_id) (
              field (codes "mode") (str (codes "hybrid")) (
                field (codes "createdAt") (num (int false a.created_at)) (
                  field (codes "sourceComplete") (bool a.source_complete) (
                    field (codes "sourceReason") (reason_value a.source_reason) (
                      field (codes "manifestDigest") (str a.manifest_digest) (
                        field (codes "sourceIndexDigest") (nullable a.source_index_digest) (
                          field (codes "docketDigest") (nullable a.docket_digest) (
                            field (codes "candidateDigest") (nullable a.candidate_digest) (
                              field (codes "patchDigest") (nullable a.patch_digest) (
                                field (codes "outcome") (str (outcome_text a.outcome)) (
                                  field (codes "validation") (str (validation_text a.validation))
                                    end))))))))))))))))

outcome_of-outcome_text : (o : Outcome) → outcome_of (outcome_text o) ≡ some o
unfolding outcome_of outcome_text eq_text codes
outcome_of-outcome_text Outcome.pending = refl
outcome_of-outcome_text o = refl

validation_of-validation_text : (v : Validation) → validation_of (validation_text v) ≡ some v
unfolding validation_of validation_text eq_text codes
validation_of-validation_text Validation.pending = refl
validation_of-validation_text v = refl

mode-hybrid : mode (some (str (codes "hybrid"))) ≡ some tt
unfolding mode as_text eq_text codes
mode-hybrid = refl

outcome-str : (o : Outcome) → outcome (some (str (outcome_text o))) ≡ some o
unfolding outcome as_text
outcome-str o = outcome_of-outcome_text o

validation-str : (v : Validation) → validation (some (str (validation_text v))) ≡ some v
unfolding validation as_text
validation-str v = validation_of-validation_text v

digest-str : (t : Text) → is_digest t ≡ true → digest (some (str t)) ≡ some t
unfolding digest as_text
digest-str t h = rw h

or_null-digest :
    (o : Option Text)
    → Maybe (λ t. is_digest t ≡ true) o
    → or_null digest (some (nullable o)) ≡ some o
unfolding or_null
or_null-digest none h = refl
or_null-digest (some t) h = rw (digest-str t h)

or_null-reason :
    (o : Option SourceIncompleteReason) → or_null reason (some (reason_value o)) ≡ some o
unfolding or_null reason as_text
or_null-reason none = refl
or_null-reason (some r) = rw (reason_of-reason_text r)

module _ (redact : Text → Text) where
  bounded_id-str :
      (t : Text) → is_bounded_id redact t ≡ true → bounded_id redact (some (str t)) ≡ some t
  unfolding bounded_id as_text
  bounded_id-str t h = rw h

  or_null-bounded_id :
      (o : Option Text)
      → Maybe (λ t. is_bounded_id redact t ≡ true) o
      → or_null (bounded_id redact) (some (nullable o)) ≡ some o
  unfolding or_null
  or_null-bounded_id none h = refl
  or_null-bounded_id (some t) h = rw (bounded_id-str t h)

  parse_fields-vcc_attempt_fields :
      (a : VccAttempt) → HasBounds redact a → parse_fields redact (vcc_attempt_fields a) ≡ some a
  unfolding parse_fields vcc_attempt_fields get_field safe_natural as_bool codes eq_text
  parse_fields-vcc_attempt_fields a h = rw (
    le→leb a.created_at max_safe_integer h.created,
    bounded_id-str a.attempt_id h.attempt,
    bounded_id-str a.session_id h.session,
    bounded_id-str a.lineage_id h.lineage,
    bounded_id-str a.compaction_target_id h.target,
    or_null-bounded_id a.summary_message_id h.summary,
    or_null-bounded_id a.text_part_id h.text_part,
    mode-hybrid,
    or_null-reason a.source_reason,
    digest-str a.manifest_digest h.manifest,
    or_null-digest a.source_index_digest h.source_index,
    or_null-digest a.docket_digest h.docket,
    or_null-digest a.candidate_digest h.candidate,
    or_null-digest a.patch_digest h.patch,
    outcome-str a.outcome,
    validation-str a.validation,
  )

  keys-vcc_attempt_fields : (a : VccAttempt) → keys (vcc_attempt_fields a) ≡ vcc_attempt_keys
  unfolding keys vcc_attempt_fields vcc_attempt_keys
  keys-vcc_attempt_fields a = refl

  -- The object that holds the fields of an attempt in their order is admitted as that attempt, if
  -- the fields are within their bounds and fit together.
  pub validate_vcc_attempt-obj :
      (a : VccAttempt)
      → HasBounds redact a
      → Coheres a
      → validate_vcc_attempt redact (obj (vcc_attempt_fields a)) ≡ some a
  unfolding validate_vcc_attempt
  validate_vcc_attempt-obj a h c = rw (
    keys-vcc_attempt_fields a,
    eq_text_refl (join (10 ∷ []) vcc_attempt_keys),
    parse_fields-vcc_attempt_fields a h,
    Coheres-is_consistent a c,
  )
