-- ===== src/Vcc/Patch/Tests.antt =====
-- src/vcc.ts: a patch of a small candidate.
use opencode_better_compact.Base.{
  ◌≡◌, refl, some, [], ◌∷◌, Text, codes, eq_text, starts_with, member, distinct, ok, true, ◌≤◌,
}
use opencode_better_compact.Base.Sort.{sort, insert}
use opencode_better_compact.Base.JsMap.{get, set}
use opencode_better_compact.Base.Value.{Number, other, get_field, as_text, keys, join}
use opencode_better_compact.Utf8.{utf8_bytes}
use opencode_better_compact.State.VccAttempt.{is_digest}
use opencode_better_compact.Vcc.Order.{compare_code_points, unique_sorted, unique_from}
use opencode_better_compact.Vcc.Serialize.{canonical_serialize, serialize_value}
use opencode_better_compact.Vcc.Event.{Primitives}
use opencode_better_compact.Vcc.Json.{parse_vcc_patch}
use opencode_better_compact.Vcc.Patch.{VccPatch, VccPatchContext, accepted, VccPatchApplication}
use opencode_better_compact.Vcc.Patch.Checks.{
  patch_source_sets, strings_of, bounded_string, enum_value, exact_keys, source_ids,
  non_empty_source_ids, validate_episode_hint, validate_drift, every_item, read_base_digest,
  read_goals,
}
use opencode_better_compact.Vcc.Patch.Validate.{validate_vcc_patch}
use opencode_better_compact.Vcc.Patch.Authorized.{
  IsAuthorized, expected_base, validate_vcc_patch-IsAuthorized,
}
use opencode_better_compact.Vcc.Patch.Apply.{
  rank_in, set_field, apply_vcc_patch, rehearse_vcc_patch,
}

abbrev digest_text : Text
digest_text = codes "aaaaaaaaaaaaaaaaaaaaaaaaaaaaaaaaaaaaaaaaaaaaaaaaaaaaaaaaaaaaaaaa"

abbrev pub constant_digest : Primitives
constant_digest = record { sha256 = λ t. digest_text; redact = λ t. t; print_double = λ n. [] }

abbrev pub no_double : Text → Number
no_double t = other 0

abbrev pub small_context : VccPatchContext
small_context = record {
  candidate = record {
    bytes = codes "{\"selected_episodes\":[{\"id\":\"ep:a\"},{\"id\":\"ep:b\"}]}";
    digest = digest_text;
    source_manifest_digest = [];
    source_index_digest = [];
    protected_event_ids = [];
    live_episode_ids = [];
    selected_episode_ids = codes "ep:a" ∷ codes "ep:b" ∷ [];
  };
  docket_bytes = [];
  source_index = record {
    event_ids = codes "ev:x" ∷ [];
    episode_ids = codes "ep:a" ∷ codes "ep:b" ∷ [];
    goal_ids = [];
    loop_ids = [];
    artifact_ids = [];
    protected_event_ids = [];
    protected_episode_ids = [];
    protected_goal_ids = [];
    correction_gate = [];
  };
}

abbrev pub patch_text : Text
patch_text =
    codes
      "{\"version\":1,\"base_digest\":\"aaaaaaaaaaaaaaaaaaaaaaaaaaaaaaaaaaaaaaaaaaaaaaaaaaaaaaaaaaaaaaaa\",\"active_goal_ids\":[],\"relations\":[],\"episode_hints\":[{\"episode_id\":\"ep:b\",\"priority\":\"foreground\",\"reason\":\"goal_support\",\"evidence_event_ids\":[\"ev:x\"]}],\"open_loop_hints\":[],\"artifact_hints\":[],\"drift\":{\"state\":\"on_track\",\"goal_ids\":[],\"episode_ids\":[]},\"missing_from_projection_ids\":[\"ev:x\"]}"

abbrev small_patch : VccPatch
small_patch = record {
  base_digest = digest_text;
  active_goal_ids = [];
  relations = [];
  episode_hints =
      record {
        episode_id = codes "ep:b";
        priority = codes "foreground";
        reason = codes "goal_support";
        evidence_event_ids = codes "ev:x" ∷ [];
      }
      ∷ [];
  open_loop_hints = [];
  artifact_hints = [];
  drift = record { state = codes "on_track"; goal_ids = []; episode_ids = [] };
  missing_from_projection_ids = codes "ev:x" ∷ [];
}

patch_is_accepted :
    validate_vcc_patch constant_digest no_double patch_text small_context
    ≡ ok (accepted small_patch digest_text digest_text)
unfolding validate_vcc_patch codes utf8_bytes member eq_text parse_vcc_patch distinct starts_with
    is_digest bounded_string enum_value exact_keys source_ids non_empty_source_ids
    validate_episode_hint validate_drift every_item read_base_digest read_goals patch_source_sets
    get_field as_text keys canonical_serialize serialize_value sort insert join compare_code_points
patch_is_accepted = refl

validate_vcc_patch-IsAuthorized_example :
    IsAuthorized constant_digest small_context small_patch
    × (digest_text ≡ expected_base constant_digest small_context)
    × (digest_text ≡ digest_text)
    × (utf8_bytes patch_text ≤ 32768)
validate_vcc_patch-IsAuthorized_example =
    validate_vcc_patch-IsAuthorized constant_digest small_context no_double patch_text digest_text
      digest_text small_patch patch_is_accepted

abbrev pub patched : VccPatchApplication
patched = record {
  is_accepted = true;
  candidate_bytes =
      codes
        "{\"patch_warnings\":[\"missing_from_projection:ev:x\"],\"selected_episodes\":[{\"id\":\"ep:b\"},{\"id\":\"ep:a\"}]}\n";
  candidate_digest = digest_text;
  patch_digest = some digest_text;
  selected_episode_ids = codes "ep:b" ∷ codes "ep:a" ∷ [];
  warnings = codes "missing_from_projection:ev:x" ∷ [];
}

patch_is_applied :
    apply_vcc_patch constant_digest no_double small_context small_patch digest_text ≡ ok patched
unfolding apply_vcc_patch codes utf8_bytes member eq_text parse_vcc_patch strings_of get set rank_in
    unique_sorted unique_from get_field as_text keys canonical_serialize serialize_value sort insert
    join compare_code_points set_field
patch_is_applied = refl

pub patch_is_rehearsed :
    rehearse_vcc_patch constant_digest no_double small_context patch_text ≡ ok patched
unfolding rehearse_vcc_patch
patch_is_rehearsed = rw patch_is_accepted patch_is_applied
