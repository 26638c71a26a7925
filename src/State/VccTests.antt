-- ===== src/State/VccTests.antt =====
-- The validation and the store of VCC attempts (src/state.ts) at concrete data.
use opencode_better_compact.Base.{
  ◌≡◌, refl, true, none, some, [], ◌∷◌, arith, Text, codes, eq_text, includes, ok,
}
use opencode_better_compact.Base.Value.{null, obj}
use opencode_better_compact.Utf8.{utf8_bytes}
use opencode_better_compact.State.VccAttempt.{
  VccAttempt, Validation, candidate_ready, is_digest, is_bounded_id, validate_vcc_attempt,
}
use opencode_better_compact.State.VccAttempt.Laws.{
  HasBounds, Coheres, vcc_attempt_fields, validate_vcc_attempt_sound, validate_vcc_attempt-obj,
}
use opencode_better_compact.State.VccAttempts.{store, set, get, get_session}
use opencode_better_compact.State.VccAttempts.Laws.{IsValid, set_vcc-IsValid}
use opencode_better_compact.State.VccAttempts.Stored.{IsStored, set_vcc-IsStored}
use opencode_better_compact.State.VccAttempts.Lookup.{get-store}
use opencode_better_compact.State.VccAttempts.Calls.{sets, cleans, run, run_vcc-IsValid}

-- No secret to redact.
abbrev plain : Text → Text
plain t = t

abbrev hex : Text
hex = codes "0123456789abcdef0123456789abcdef0123456789abcdef0123456789abcdef"

abbrev ready : VccAttempt
ready = record {
  attempt_id = codes "a1";
  session_id = codes "s1";
  lineage_id = codes "l1";
  compaction_target_id = codes "t1";
  summary_message_id = none;
  text_part_id = none;
  created_at = 1000;
  source_complete = true;
  source_reason = none;
  manifest_digest = hex;
  source_index_digest = some hex;
  docket_digest = some hex;
  candidate_digest = some hex;
  patch_digest = none;
  outcome = candidate_ready;
  validation = Validation.pending;
}

ready-HasBounds : HasBounds plain ready
unfolding is_bounded_id is_digest codes includes utf8_bytes eq_text
ready-HasBounds = record {
  created = omega arith;
  attempt = refl;
  session = refl;
  lineage = refl;
  target = refl;
  summary = tt;
  text_part = tt;
  manifest = refl;
  source_index = refl;
  docket = refl;
  candidate = refl;
  patch = tt;
}

ready-Coheres : Coheres ready
ready-Coheres = ground arith

validate_vcc_attempt-obj_example :
    validate_vcc_attempt plain (obj (vcc_attempt_fields ready)) ≡ some ready
validate_vcc_attempt-obj_example =
    validate_vcc_attempt-obj plain ready ready-HasBounds ready-Coheres

validate_vcc_attempt_sound_example : HasBounds plain ready × Coheres ready
validate_vcc_attempt_sound_example =
    validate_vcc_attempt_sound plain (obj (vcc_attempt_fields ready)) ready
      validate_vcc_attempt-obj_example

empty-IsValid : IsValid plain []
empty-IsValid = record { distinct = tt; filed = tt; apart = tt; bounded = omega arith }

set_ready : set plain (obj (vcc_attempt_fields ready)) [] ≡ ok (store ready [], ready)
unfolding set
set_ready = rw (validate_vcc_attempt-obj_example, set)

store-IsValid_ready :
    IsValid plain (store ready [])
    × (validate_vcc_attempt plain (obj (vcc_attempt_fields ready)) ≡ some ready)
store-IsValid_ready =
    set_vcc-IsValid plain (obj (vcc_attempt_fields ready)) ready [] (store ready []) empty-IsValid
      set_ready

set_vcc-IsStored_example :
    (validate_vcc_attempt plain (obj (vcc_attempt_fields ready)) ≡ some ready)
    × IsStored plain ready [] (store ready [])
set_vcc-IsStored_example =
    set_vcc-IsStored plain (obj (vcc_attempt_fields ready)) ready [] (store ready []) empty-IsValid
      set_ready

get-store_example :
    ((get (codes "a1") none 5000 (store ready [])).1 ≡ some ready)
    × ((get_session (codes "s1") 5000 (store ready [])).1 ≡ some ready)
get-store_example =
    get-store plain ready none 5000 [] empty-IsValid ready-HasBounds ready-Coheres (omega arith)

run_vcc-IsValid_example :
    IsValid plain (run plain (sets (obj (vcc_attempt_fields ready)) ∷ sets null ∷ cleans 9 ∷ []) [])
run_vcc-IsValid_example =
    run_vcc-IsValid plain (sets (obj (vcc_attempt_fields ready)) ∷ sets null ∷ cleans 9 ∷ [])
