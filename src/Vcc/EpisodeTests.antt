-- ===== src/Vcc/EpisodeTests.antt =====
-- Groups and episodes (src/vcc.ts) at concrete data.
use opencode_better_compact.Base.{
  ◌≡◌, ◌↔◌, refl, some, List, [], ◌∷◌, arith, codes, eq_text, includes, starts_with, member,
  distinct, ok, All,
}
use opencode_better_compact.Base.JsMap
use opencode_better_compact.Base.Results.{traverse}
use opencode_better_compact.Base.Sort.{Perm, insert, sort}
use opencode_better_compact.Base.Value.{join}
use opencode_better_compact.Vcc.Order.{compare_code_points, unique_sorted, unique, unique_from}
use opencode_better_compact.Vcc.Serialize.{
  quote, escape, escape_unit, digits_from, serialize_number, serialize_value, canonical_serialize,
}
use opencode_better_compact.Vcc.Event.{
  CanonicalEvent, Authority, Primitives, event_ids, compare_events,
}
use opencode_better_compact.Vcc.Episode.{
  CausalEpisode, group_key, scope_key, group_from, add_event, flat_map, causal_pattern,
  episode_body, body_value, mark, build_causal_episode, form_causal_episodes,
}
use opencode_better_compact.Vcc.Episode.Keys.{HasScope, SameScope, SameUnit, group_key_iff}
use opencode_better_compact.Vcc.Episode.Groups.{IsGrouping, group_from-IsGrouping}
use opencode_better_compact.Vcc.Episode.Coverage.{form_causal_episodes-Perm}
use opencode_better_compact.Vcc.Episode.Marks.{IsMarked, form_causal_episodes-IsMarked}
use opencode_better_compact.Vcc.Tests.{value_of}

-- A digest that tells nothing.
abbrev blank : Primitives
blank = record { sha256 = λ t. []; redact = λ t. t; print_double = λ n. [] }

abbrev call : CanonicalEvent
call = record {
  id = codes "c";
  host = [];
  session_id = [];
  lineage_id = [];
  sequence = 0;
  provenance = [];
  kind = codes "tool_call";
  pair_id = some (codes "p");
  derived_from_event_ids = [];
  supersedes_event_ids = [];
  goal_ids = [];
  artifact_ids = [];
  evidence_event_ids = [];
  archive_handles = [];
  content = [];
  payload_digest = [];
  authority = Authority.advisory;
  source_location = [];
}

abbrev answer : CanonicalEvent
answer = record call { id = codes "r"; sequence = 1; kind = codes "tool_result" }

abbrev two : List CanonicalEvent
two = answer ∷ call ∷ []

abbrev two_episodes : List CausalEpisode
two_episodes = value_of [] (form_causal_episodes blank two)

two_formed : form_causal_episodes blank two ≡ ok two_episodes
unfolding form_causal_episodes build_causal_episode group_from add_event group_key scope_key mark
    causal_pattern episode_body body_value unique_sorted unique unique_from traverse JsMap.get
    JsMap.set compare_events canonical_serialize serialize_value serialize_number quote escape
    escape_unit digits_from codes join sort insert compare_code_points member distinct eq_text
    includes starts_with
two_formed = refl

form_causal_episodes-Perm_example : Perm (flat_map (λ e. e.event_ids) two_episodes) (event_ids two)
form_causal_episodes-Perm_example = form_causal_episodes-Perm blank two two_episodes two_formed

form_causal_episodes-IsMarked_example :
    All (IsMarked (flat_map (λ e. e.supersedes_event_ids) two)) two_episodes
form_causal_episodes-IsMarked_example =
    form_causal_episodes-IsMarked blank two two_episodes two_formed

groups_of_calls : IsGrouping two (group_from [] two)
groups_of_calls = group_from-IsGrouping two

first-HasScope : HasScope call
unfolding form_causal_episodes build_causal_episode group_from add_event group_key scope_key mark
    causal_pattern episode_body body_value unique_sorted unique unique_from traverse JsMap.get
    JsMap.set compare_events canonical_serialize serialize_value serialize_number quote escape
    escape_unit digits_from codes join sort insert compare_code_points member distinct eq_text
    includes starts_with
first-HasScope = record { host = omega arith; session = omega arith; lineage = omega arith }

second-HasScope : HasScope answer
unfolding form_causal_episodes build_causal_episode group_from add_event group_key scope_key mark
    causal_pattern episode_body body_value unique_sorted unique unique_from traverse JsMap.get
    JsMap.set compare_events canonical_serialize serialize_value serialize_number quote escape
    escape_unit digits_from codes join sort insert compare_code_points member distinct eq_text
    includes starts_with
second-HasScope = record { host = omega arith; session = omega arith; lineage = omega arith }

group_key_iff_example :
    (group_key call ≡ group_key answer) ↔ (SameScope call answer × SameUnit call answer)
group_key_iff_example = group_key_iff call answer first-HasScope second-HasScope
