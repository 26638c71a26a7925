-- ===== src/Vcc/Candidate.antt =====
-- src/vcc.ts: the candidate of a source (`compileVccCandidate`, `renderEvent`, `renderEpisode`).
pub mod Checks
pub mod Render
pub mod Described
pub mod Body
pub mod Laws
pub mod Protected
mod Tests
use Prim.Native.Nat.{Ordering}
use opencode_better_compact.Base.{
  ℕ, Bool, true, false, not, ◌&&◌, ◌||◌, Option, none, some, List, [], ◌∷◌, ◌++◌, map, keep, find,
  any, ltb, Text, codes, eq_text, member, distinct, is_empty, Result, ok, throw, type_error,
  range_error, plain_error, ◌>>=◌, ◌>>◌, reject_if, if◌then◌else◌,
}
use opencode_better_compact.Base.Sort.{sort}
use opencode_better_compact.Base.Value.{
  Value, bool, num, str, arr, obj, Items, nil, cons, Fields, end, field, Number, safe_natural,
}
use opencode_better_compact.Utf8.{utf8_bytes}
use opencode_better_compact.Vcc.Order.{compare_code_points, unique, unique_sorted}
use opencode_better_compact.Vcc.Serialize.{canonical_serialize}
use opencode_better_compact.Vcc.Event.{
  CanonicalEvent, Primitives, natural, texts, text_or_null, or_empty, event_ids,
}
use opencode_better_compact.Vcc.Event.Ids.{normalize_ids, normalize_typed_ids}
use opencode_better_compact.Vcc.Source.{SourceCompleteness, assert_complete_source}
use opencode_better_compact.Vcc.Episode.{
  CausalEpisode, Status, opened, blocked, uncertain, completed, status_text, signals_value,
  flat_map, form_causal_episodes,
}
use opencode_better_compact.Vcc.Select.{select_complete_episodes}
use opencode_better_compact.Vcc.Candidate.Render.{
  render_event, items_of, render_members, episode_fields, render_episodes, episode_items,
}
use opencode_better_compact.Vcc.Candidate.Checks.{
  ordered_source_events, validate_event_payloads, validate_episode_coverage,
}

pub record CompileOptions : Type 0 where
  pub max_bytes : Number
  pub protected_event_ids : Option (List Text)
  pub protected_episode_ids : Option (List Text)
  pub active_goal_ids : Option (List Text)

pub record CompileInput : Type 0 where
  pub events : List CanonicalEvent
  pub episodes : List CausalEpisode
  pub source : SourceCompleteness
  pub options : CompileOptions

pub record VccCandidate : Type 0 where
  pub bytes : Text
  pub digest : Text
  pub source_manifest_digest : Text
  pub source_index_digest : Text
  pub protected_event_ids : List Text
  pub live_episode_ids : List Text
  pub selected_episode_ids : List Text

abbrev pub is_generated : CanonicalEvent → Bool
is_generated e =
    member e.kind (
      codes "summary"
      ∷ codes "compaction"
      ∷ codes "plugin_summary"
      ∷ codes "generated_summary"
      ∷ [])

abbrev pub is_human : CanonicalEvent → Bool
is_human e =
    eq_text e.provenance (codes "human_direct")
    || eq_text e.provenance (codes "human_tool_answer")
    || eq_text e.provenance (codes "human_approval")
    || eq_text e.provenance (codes "human_rejection")

abbrev pub references : CanonicalEvent → List Text
references e = e.derived_from_event_ids ++ (e.supersedes_event_ids ++ e.evidence_event_ids)

abbrev pub needs_attention : Status → Bool
needs_attention opened = true
needs_attention blocked = true
needs_attention uncertain = true
needs_attention _ = false

abbrev pub blocks : Status → Bool
blocks blocked = true
blocks uncertain = true
blocks _ = false

abbrev pub is_completed : Status → Bool
is_completed completed = true
is_completed _ = false

-- What the loop over the events adds to the protected identities.
abbrev pub protected_by : CanonicalEvent → List Text
protected_by e = (if is_human e then e.id ∷ [] else []) ++ e.supersedes_event_ids

-- What is fixed before episodes are selected.
pub record Plan : Type 0 where
  pub events : List CanonicalEvent
  pub episodes : List CausalEpisode
  pub limit : ℕ
  pub explicit_episodes : List Text
  pub protected_ids : List Text
  pub goals : List Text

abbrev pub is_live : List Text → CausalEpisode → Bool
is_live explicit e = needs_attention e.status || member e.id explicit

abbrev pub live_of : Plan → List CausalEpisode
live_of p = keep (is_live p.explicit_episodes) p.episodes

abbrev pub protected_of : Plan → List CanonicalEvent
protected_of p = keep (λ e. member e.id p.protected_ids) p.events

abbrev pub corrects : Plan → CanonicalEvent → Bool
corrects p e =
    not (is_empty e.supersedes_event_ids) || any (λ c. member e.id c.supersedes_event_ids) p.events

abbrev pub index_value : CanonicalEvent → Value
index_value e = obj (
    field (codes "id") (str e.id) (
      field (codes "payload_digest") (str e.payload_digest) (
        field (codes "source_location") (str e.source_location)
          (field (codes "archive_handles") (texts e.archive_handles) end))))

abbrev pub handles_of : Plan → List Text
handles_of p = unique_sorted (flat_map (λ e. e.archive_handles) p.events)

abbrev pub handle_value : Plan → Text → Value
handle_value p handle = obj (
    field (codes "handle") (str handle) (
      field (codes "event_ids")
        (texts (event_ids (keep (λ e. member handle e.archive_handles) p.events))) end))

abbrev pub source_digest_map : Plan → Value
source_digest_map p = arr (items_of (map index_value p.events))

-- The candidate with the given episodes: `{ ...mandatory, selected_episodes }`.
unfoldable pub candidate_fields : Plan → Text → Text → Items → Items → Items → Fields
candidate_fields p manifest_digest index_digest live blockers selected =
    field (codes "version") (natural 1) (
      field (codes "kind") (str (codes "vcc_candidate")) (
        field (codes "source_complete") (bool true) (
          field (codes "source_manifest_digest") (str manifest_digest) (
            field (codes "source_index_digest") (str index_digest) (
              field (codes "protected_events") (arr (items_of (map render_event (protected_of p))))
                (field (codes "contract_chain")
                  (arr (
                    items_of
                      (map render_event (keep (λ e. is_human e || corrects p e) (protected_of p)))))
                  (field (codes "correction_chain")
                    (arr (items_of (map render_event (keep (corrects p) (protected_of p)))))
                    (field (codes "active_goal_ids") (texts p.goals) (
                      field (codes "live_episodes") (arr live) (
                        field (codes "blockers") (arr blockers) (
                          field (codes "selected_episodes") (arr selected) (
                            field (codes "archive_manifest")
                              (arr (items_of (map (handle_value p) (handles_of p))))
                              (field (codes "recall_handles") (texts (handles_of p)) (
                                field (codes "source_digest_map") (source_digest_map p)
                                  end))))))))))))))

-- `max_bytes must be a positive safe integer`
unfoldable pub check_limit : Number → Result ℕ
check_limit n = elim (safe_natural (some (num n))) [
  | none ↦ throw type_error
  | some limit ↦ if ltb 0 limit then ok limit else throw type_error
]

abbrev pub completed_of : Plan → List CausalEpisode
completed_of p =
    keep (λ e. is_completed e.status && not (any (λ id. member id p.protected_ids) e.event_ids))
      p.episodes

pub record Checked : Type 0 where
  pub limit : ℕ
  pub events : List CanonicalEvent
  pub episodes : List CausalEpisode

-- What is protected, and the goals: from the options to the mandatory part.
unfoldable pub plan_of : CompileOptions → ℕ → List CanonicalEvent → List CausalEpisode → Result Plan
plan_of options limit events episodes = do
  explicit ← normalize_ids (or_empty options.protected_event_ids)
  reject_if (any (λ id. not (member id (event_ids events))) explicit) type_error
  let explicit_episodes = or_empty options.protected_episode_ids
  reject_if
      (not (distinct explicit_episodes)
        || any (λ id. not (member id (map (λ e. e.id) episodes))) explicit_episodes)
      type_error
  let live = keep (is_live explicit_episodes) episodes
  let protected_ids =
      unique (explicit ++ (flat_map protected_by events ++ flat_map (λ e. e.event_ids) live))
  active ← normalize_typed_ids (codes "goal") (or_empty options.active_goal_ids)
  let goals = unique_sorted (
      active
      ++ (flat_map (λ e. e.goal_ids) (keep (λ e. member e.id protected_ids) events)
          ++ flat_map (λ e. e.goal_ids) live))
  ok (record {
    events = events;
    episodes = episodes;
    limit = limit;
    explicit_episodes = explicit_episodes;
    protected_ids = protected_ids;
    goals = goals;
  })

module _ (primitives : Primitives) where
  abbrev pub serialize : Value → Result Text
  serialize = canonical_serialize primitives.print_double

  -- The episodes are those that the events form, and each reference is to an event.
  unfoldable pub same_episodes : List CanonicalEvent → List CausalEpisode → Result (Unit {0})
  same_episodes events episodes = do
    expected ← form_causal_episodes primitives events
    given_text ← serialize (arr (episode_items episodes))
    expected_text ← serialize (arr (episode_items expected))
    reject_if (not (eq_text given_text expected_text)) plain_error
    reject_if (any (λ id. not (member id (event_ids events))) (flat_map references events))
        plain_error

  -- The tests on the source, its events and its episodes.
  unfoldable pub check_sources : CompileInput → Result Checked
  check_sources input = do
    _ ← assert_complete_source primitives input.source
    limit ← check_limit input.options.max_bytes
    events ← ordered_source_events input.events input.source
    reject_if (any is_generated events) plain_error
    validate_event_payloads primitives events
    episodes ← validate_episode_coverage input.episodes events
    same_episodes events episodes
    ok (record { limit = limit; events = events; episodes = episodes })

  unfoldable pub prepare : CompileInput → Result Plan
  unfolding plan_of
  prepare input = do
    checked ← check_sources input
    plan_of input.options checked.limit checked.events checked.episodes

  -- The text of the candidate with some selected episodes.
  unfoldable pub candidate_text :
      Plan → Text → Text → Items → Items → List CausalEpisode → Result Text
  unfolding candidate_fields render_episodes
  candidate_text p manifest_digest index_digest live blockers selected = do
    rendered ← render_episodes p.events selected
    serialize (obj (candidate_fields p manifest_digest index_digest live blockers rendered))

  -- A trial of the selection.
  unfoldable pub trial_fits : Plan → Text → Text → Items → Items → List CausalEpisode → Result Bool
  trial_fits p manifest_digest index_digest live blockers selected = do
    text ← candidate_text p manifest_digest index_digest live blockers selected
    ok (not (ltb p.limit (utf8_bytes text)))

  unfoldable pub finish : Plan → Text → Result VccCandidate
  finish p manifest_digest = do
    index_text ← serialize (source_digest_map p)
    let index_digest = primitives.sha256 index_text
    live ← render_episodes p.events (live_of p)
    blockers ← render_episodes p.events (keep (λ e. blocks e.status) (live_of p))
    mandatory_text ← candidate_text p manifest_digest index_digest live blockers []
    reject_if (ltb p.limit (utf8_bytes mandatory_text)) range_error
    selected ←
        select_complete_episodes (trial_fits p manifest_digest index_digest live blockers)
          (completed_of p)
    bytes ← candidate_text p manifest_digest index_digest live blockers selected
    reject_if (ltb p.limit (utf8_bytes bytes)) range_error
    ok (record {
      bytes = bytes;
      digest = primitives.sha256 bytes;
      source_manifest_digest = manifest_digest;
      source_index_digest = index_digest;
      protected_event_ids = sort compare_code_points p.protected_ids;
      live_episode_ids = sort compare_code_points (map (λ e. e.id) (live_of p));
      selected_episode_ids = map (λ e. e.id) selected;
    })

  unfoldable pub compile_vcc_candidate : CompileInput → Result VccCandidate
  compile_vcc_candidate input = do p ← prepare input; finish p input.source.digest
