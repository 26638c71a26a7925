-- ===== src/Vcc/Candidate/Tests.antt =====
-- A candidate (src/vcc.ts) at concrete data.
use opencode_better_compact.Base.{
  ◌≡◌, refl, true, false, none, some, [], ◌∷◌, Text, codes, eq_text, includes, starts_with, member,
  distinct, Result, ok, throw,
}
use opencode_better_compact.Base.JsMap
use opencode_better_compact.Base.Results.{traverse}
use opencode_better_compact.Base.Sort.{insert, sort}
use opencode_better_compact.Base.Value.{int, join, safe_natural}
use opencode_better_compact.Utf8.{utf8_bytes, has_surrogate_pair, bytes_from, unit_bytes}
use opencode_better_compact.Vcc.Order.{compare_code_points, unique_sorted, unique, unique_from}
use opencode_better_compact.Vcc.Reason.{reason_text}
use opencode_better_compact.Vcc.Serialize.{
  quote, escape, escape_unit, digits_from, serialize_number, serialize_value, canonical_serialize,
}
use opencode_better_compact.Vcc.Event.Ids.{sorted_ids, normalize_ids, normalize_typed_ids}
use opencode_better_compact.Vcc.Event.{
  CanonicalEvent, Authority, Primitives, payload_digest_of, event_value, compare_events,
}
use opencode_better_compact.Vcc.Source.{
  SourceCompleteness, assert_complete_source, source_completeness_digest, stable_identity,
}
use opencode_better_compact.Vcc.Episode.{
  group_key, scope_key, group_from, add_event, causal_pattern, episode_body, body_value, mark,
  build_causal_episode, form_causal_episodes,
}
use opencode_better_compact.Vcc.Select.{
  select_complete_episodes, select_from, find_fitting, compare_ranked, all_dimensions,
}
use opencode_better_compact.Vcc.Candidate.{
  CompileInput, VccCandidate, Plan, check_sources, same_episodes, plan_of, check_limit,
  candidate_fields, candidate_text, trial_fits, prepare, finish, compile_vcc_candidate,
}
use opencode_better_compact.Vcc.Candidate.Render.{render_event, render_members, render_episodes}
use opencode_better_compact.Vcc.Candidate.Checks.{
  ordered_source_events, require_scope, validate_event_payloads, validate_episode_coverage, cover,
  cover_all,
}
use opencode_better_compact.Vcc.Candidate.Laws.{IsCandidate}
use opencode_better_compact.Vcc.Candidate.Protected.{IsPlan, compile_vcc_candidate-IsCandidate}

abbrev value_of {ℓ} : {A : Type ℓ} → A → Result A → A
value_of other (ok a) = a
value_of other (throw e) = other

abbrev zeros : Text
zeros = codes "0000000000000000000000000000000000000000000000000000000000000000"

-- A digest that tells nothing.
abbrev blank : Primitives
blank = record { sha256 = λ t. zeros; redact = λ t. t; print_double = λ n. [] }

abbrev request : CanonicalEvent
request = record {
  id = codes "c";
  host = [];
  session_id = [];
  lineage_id = [];
  sequence = 0;
  provenance = codes "human_direct";
  kind = codes "q";
  pair_id = none;
  derived_from_event_ids = [];
  supersedes_event_ids = [];
  goal_ids = [];
  artifact_ids = [];
  evidence_event_ids = [];
  archive_handles = [];
  content = [];
  payload_digest = zeros;
  authority = Authority.advisory;
  source_location = [];
}

abbrev manifest : SourceCompleteness
manifest = record {
  host = [];
  session_id = [];
  lineage_id = [];
  complete = true;
  reason = none;
  page_count = 1;
  record_count = 1;
  first_source_id = some (codes "c");
  last_source_id = some (codes "c");
  terminal_cursor = none;
  terminal_cursor_observed = true;
  byte_count = 0;
  digest = zeros;
}

abbrev input : CompileInput
input = record {
  events = request ∷ [];
  episodes = value_of [] (form_causal_episodes blank (request ∷ []));
  source = manifest;
  options = record {
    max_bytes = int false 5000;
    protected_event_ids = none;
    protected_episode_ids = none;
    active_goal_ids = none;
  };
}

abbrev no_candidate : VccCandidate
no_candidate = record {
  bytes = [];
  digest = [];
  source_manifest_digest = [];
  source_index_digest = [];
  protected_event_ids = [];
  live_episode_ids = [];
  selected_episode_ids = [];
}

abbrev candidate : VccCandidate
candidate = value_of no_candidate (compile_vcc_candidate blank input)

compiled : compile_vcc_candidate blank input ≡ ok candidate
unfolding compile_vcc_candidate prepare check_sources same_episodes plan_of check_limit finish
    candidate_text trial_fits candidate_fields render_event render_members render_episodes
    ordered_source_events require_scope validate_event_payloads validate_episode_coverage cover
    cover_all assert_complete_source source_completeness_digest stable_identity payload_digest_of
    event_value safe_natural sorted_ids normalize_ids normalize_typed_ids select_complete_episodes
    select_from find_fitting compare_ranked all_dimensions form_causal_episodes build_causal_episode
    group_from add_event group_key scope_key mark causal_pattern episode_body body_value
    unique_sorted unique unique_from traverse JsMap.get JsMap.set compare_events canonical_serialize
    serialize_value serialize_number quote escape escape_unit digits_from codes join sort insert
    compare_code_points member distinct eq_text includes starts_with utf8_bytes bytes_from
    unit_bytes has_surrogate_pair reason_text
compiled = refl

compile_vcc_candidate-IsCandidate_example :
    (p : Plan) × IsPlan blank input p × IsCandidate blank p manifest.digest candidate
compile_vcc_candidate-IsCandidate_example =
    compile_vcc_candidate-IsCandidate blank input candidate compiled
