-- ===== src/Vcc/Episode.antt =====
-- src/vcc.ts: causal episodes (`formCausalEpisodes`, `buildCausalEpisode`, `causalPattern`).
pub mod Keys
pub mod Groups
pub mod Marks
pub mod Coverage
use Prim.Native.Nat.{Ordering}
use opencode_better_compact.Base.{
  ℕ, Bool, true, false, not, ◌&&◌, ◌||◌, Option, none, some, List, [], ◌∷◌, ◌++◌, map, length, keep,
  any, all, Text, codes, eq_text, member, starts_with, Result, ok, throw, ◌>>=◌, if◌then◌else◌,
}
use opencode_better_compact.Base.JsMap
use opencode_better_compact.Base.Results.{traverse}
use opencode_better_compact.Base.Sort.{sort}
use opencode_better_compact.Base.Value.{Value, bool, str, obj, field, end}
use opencode_better_compact.Vcc.Order.{compare_code_points, unique_sorted}
use opencode_better_compact.Vcc.Serialize.{canonical_serialize}
use opencode_better_compact.Vcc.Event.{
  CanonicalEvent, Primitives, compare_events, natural, texts, event_ids,
}

pub data Status : Type 0 where
  opened completed blocked superseded uncertain : Status

pub record Signals : Type 0 where
  pub event_count : ℕ
  pub latest_sequence : ℕ
  pub human_provenance_count : ℕ
  pub goal_count : ℕ
  pub artifact_count : ℕ
  pub evidence_count : ℕ
  pub complete_pair : Bool

pub record CausalEpisode : Type 0 where
  pub id : Text
  pub kind : Text
  pub event_ids : List Text
  pub goal_ids : List Text
  pub status : Status
  pub exact_identifiers : List Text
  pub artifact_ids : List Text
  pub evidence_event_ids : List Text
  pub archive_handles : List Text
  pub relevance_signals : Signals

-- The open status is spelled "open".
abbrev pub status_text : Status → Text
status_text opened = codes "open"
status_text completed = codes "completed"
status_text blocked = codes "blocked"
status_text superseded = codes "superseded"
status_text uncertain = codes "uncertain"

unfoldable pub scope_key : CanonicalEvent → Text
scope_key e = e.host ++ (0 ∷ (e.session_id ++ (0 ∷ e.lineage_id)))

abbrev pub pair_key : CanonicalEvent → Option Text → Text
pair_key e none = codes "event:" ++ e.id
pair_key e (some pair) = codes "pair:" ++ pair

-- The key of the group of an event.
unfoldable pub group_key : CanonicalEvent → Text
unfolding scope_key
group_key e = scope_key e ++ (0 ∷ pair_key e e.pair_id)

abbrev pub Groups : Type 0
Groups = List (Text × List CanonicalEvent)

abbrev pub members : Option (List CanonicalEvent) → List CanonicalEvent
members none = []
members (some es) = es

unfoldable pub add_event : CanonicalEvent → Groups → Groups
unfolding group_key
add_event e groups =
    JsMap.set (group_key e) (members (JsMap.get (group_key e) groups) ++ e ∷ []) groups

unfoldable pub group_from : Groups → List CanonicalEvent → Groups
unfolding add_event
group_from groups [] = groups
group_from groups (e ∷ es) = group_from (add_event e groups) es

abbrev pub flat_map {ℓ κ} : {A : Type ℓ} {B : Type κ} → (A → List B) → List A → List B
flat_map f [] = []
flat_map f (x ∷ xs) = f x ++ flat_map f xs

pub record Pattern : Type 0 where
  pub kind : Text
  pub complete : Bool
  pub status : Status

abbrev pub kind_of_first : List CanonicalEvent → Text
kind_of_first [] = codes "unknown"
kind_of_first (e ∷ es) = e.kind

unfoldable pub has_human_tool_answer : List CanonicalEvent → Bool
has_human_tool_answer events =
    any
      (λ e.
        eq_text e.provenance (codes "human_tool_answer")
        && (eq_text e.kind (codes "human_tool_answer") || eq_text e.kind (codes "question_answer")))
      events

unfoldable pub has : List CanonicalEvent → List Text → Bool
has events required = all (λ kind. member kind (map (λ e. e.kind) events)) required

unfoldable pub is_complete : List CanonicalEvent → Bool
unfolding has has_human_tool_answer
is_complete events =
    has events (codes "tool_call" ∷ codes "tool_result" ∷ [])
    || has events (codes "question" ∷ [])
      && (has_human_tool_answer events || has events (codes "question_cancelled" ∷ []))
    || has events (codes "tool_call" ∷ codes "question_answer" ∷ []) && has_human_tool_answer events
    || has events (codes "request" ∷ codes "action" ∷ codes "result" ∷ [])
    || has events (codes "experiment" ∷ codes "observation" ∷ [])
    || has events (codes "edit" ∷ [])
      && (has events (codes "test" ∷ []) || has events (codes "review" ∷ []))
    || has events (codes "decision" ∷ codes "consequence" ∷ [])
    || has events (codes "failure" ∷ codes "correction" ∷ codes "verified_outcome" ∷ [])
    || has events (codes "failure" ∷ codes "correction" ∷ codes "verified_result" ∷ [])

unfoldable pub kind_of : List CanonicalEvent → Text
unfolding has has_human_tool_answer
kind_of events =
    if has events (codes "tool_call" ∷ codes "tool_result" ∷ [])
    then codes "tool_call_result"
    else if has events (codes "tool_call" ∷ codes "question_answer" ∷ [])
        && has_human_tool_answer events
    then codes "question_answer"
    else if has events (codes "question" ∷ [])
    then codes "question_answer"
    else if has events (codes "request" ∷ codes "action" ∷ codes "result" ∷ [])
    then codes "request_action_result"
    else if has events (codes "experiment" ∷ codes "observation" ∷ [])
    then codes "experiment_observation"
    else if has events (codes "edit" ∷ [])
    then codes "edit_verification"
    else if has events (codes "decision" ∷ [])
    then codes "decision_consequence"
    else if has events (codes "failure" ∷ [])
    then codes "failure_correction"
    else kind_of_first events

unfoldable pub causal_pattern : List CanonicalEvent → Pattern
unfolding has is_complete kind_of
causal_pattern events = record {
  kind = kind_of events;
  complete = is_complete events;
  status =
      if has events (codes "question_cancelled" ∷ []) && has events (codes "question" ∷ [])
      then blocked
      else if is_complete events
      then completed
      else opened;
}

-- `ordered.at(-1)?.sequence ?? 0`
abbrev pub latest : List CanonicalEvent → ℕ
latest [] = 0
latest (e ∷ []) = e.sequence
latest (e ∷ f ∷ es) = latest (f ∷ es)

abbrev pub pair_of : Option Text → List Text
pair_of none = []
pair_of (some pair) = pair ∷ []

-- The episode of ordered events, its identity still to come.
unfoldable pub episode_body : List CanonicalEvent → CausalEpisode
unfolding causal_pattern unique_sorted
episode_body ordered =
    let pattern' = causal_pattern ordered in
    let goals = unique_sorted (flat_map (λ e. e.goal_ids) ordered) in
    let artifacts = unique_sorted (flat_map (λ e. e.artifact_ids) ordered) in
    let evidence = unique_sorted (flat_map (λ e. e.evidence_event_ids) ordered) in
    let handles = unique_sorted (flat_map (λ e. e.archive_handles) ordered) in
    record {
      id = [];
      kind = pattern'.kind;
      event_ids = event_ids ordered;
      goal_ids = goals;
      status = pattern'.status;
      exact_identifiers = unique_sorted (
          event_ids ordered
          ++ (map (λ e. e.source_location) ordered
              ++ (flat_map (λ e. pair_of e.pair_id) ordered ++ (goals ++ (artifacts ++ handles)))));
      artifact_ids = artifacts;
      evidence_event_ids = evidence;
      archive_handles = handles;
      relevance_signals = record {
        event_count = length ordered;
        latest_sequence = latest ordered;
        human_provenance_count =
            length (keep (λ e. starts_with e.provenance (codes "human_")) ordered);
        goal_count = length goals;
        artifact_count = length artifacts;
        evidence_count = length evidence;
        complete_pair = pattern'.complete;
      };
    }

abbrev pub signals_value : Signals → Value
signals_value s = obj (
    field (codes "event_count") (natural s.event_count) (
      field (codes "latest_sequence") (natural s.latest_sequence) (
        field (codes "human_provenance_count") (natural s.human_provenance_count) (
          field (codes "goal_count") (natural s.goal_count) (
            field (codes "artifact_count") (natural s.artifact_count) (
              field (codes "evidence_count") (natural s.evidence_count)
                (field (codes "complete_pair") (bool s.complete_pair) end)))))))

-- The episode as an object, without its identity.
unfoldable pub body_value : CausalEpisode → Value
body_value e = obj (
    field (codes "version") (natural 1) (
      field (codes "kind") (str e.kind) (
        field (codes "event_ids") (texts e.event_ids) (
          field (codes "goal_ids") (texts e.goal_ids) (
            field (codes "status") (str (status_text e.status)) (
              field (codes "exact_identifiers") (texts e.exact_identifiers) (
                field (codes "artifact_ids") (texts e.artifact_ids) (
                  field (codes "evidence_event_ids") (texts e.evidence_event_ids) (
                    field (codes "archive_handles") (texts e.archive_handles) (
                      field (codes "relevance_signals") (signals_value e.relevance_signals)
                        end))))))))))

abbrev pub compare_episodes : CausalEpisode → CausalEpisode → Ordering
compare_episodes left right = compare_code_points left.id right.id

-- An episode one of whose events is superseded is marked so.
unfoldable pub mark : List Text → CausalEpisode → CausalEpisode
mark superseded_ids e =
    if any (λ id. member id superseded_ids) e.event_ids then record e { status = superseded } else e

module _ (primitives : Primitives) where
  unfoldable pub build_causal_episode : List CanonicalEvent → Result CausalEpisode
  unfolding episode_body body_value compare_events
  build_causal_episode group = do
    let body = episode_body (sort compare_events group)
    text ← canonical_serialize primitives.print_double (body_value body)
    ok (record body {
      id = codes "ep:" ++ primitives.sha256 (codes "vcc-episode-v1" ++ (0 ∷ text));
    })

  unfoldable pub form_causal_episodes : List CanonicalEvent → Result (List CausalEpisode)
  unfolding build_causal_episode group_from mark
  form_causal_episodes events = do
    episodes ← traverse build_causal_episode (JsMap.values (group_from [] events))
    ok (sort compare_episodes (map (mark (flat_map (λ e. e.supersedes_event_ids) events)) episodes))
