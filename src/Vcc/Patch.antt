-- ===== src/Vcc/Patch.antt =====
-- src/vcc.ts: patches of a candidate, their data and the index of the source that they may refer to
-- (`VccPatch`, `VccPatchSourceIndex`, `buildVccPatchSourceIndex`, `vccPatchBaseDigest`).
pub mod Checks
pub mod Sourced
pub mod Hints
pub mod Relations
pub mod Authorized
pub mod Validate
pub mod Apply
pub mod Warned
pub mod Applied
pub mod Rehearsed
pub mod Tests
use Prim.Native.Nat.{Ordering}
use opencode_better_compact.Base.{
  ◌++◌, Bool, Option, none, some, List, [], ◌∷◌, map, keep, Text, codes, member,
}
use opencode_better_compact.Base.Sort.{sort}
use opencode_better_compact.Vcc.Order.{compare_code_points, unique_sorted}
use opencode_better_compact.Vcc.Event.{CanonicalEvent, Primitives, or_empty}
use opencode_better_compact.Vcc.Episode.{CausalEpisode, flat_map}
use opencode_better_compact.Vcc.Candidate.{VccCandidate}

abbrev pub patch_relation_kinds : List Text
patch_relation_kinds =
    codes "supports"
    ∷ codes "blocks"
    ∷ codes "orthogonal"
    ∷ codes "conflicts"
    ∷ codes "explicitly_superseded_by"
    ∷ codes "uncertain"
    ∷ []

abbrev pub patch_episode_priorities : List Text
patch_episode_priorities =
    codes "foreground" ∷ codes "retain" ∷ codes "neutral" ∷ codes "archive_candidate" ∷ []

abbrev pub patch_episode_reasons : List Text
patch_episode_reasons =
    codes "nonrepeatable_evidence"
    ∷ codes "active_blocker"
    ∷ codes "explicit_decision"
    ∷ codes "exact_identifier"
    ∷ codes "goal_support"
    ∷ codes "recent_verified_result"
    ∷ codes "uncertain_relevance"
    ∷ []

abbrev pub patch_loop_states : List Text
patch_loop_states = codes "active" ∷ codes "possibly_stale" ∷ codes "uncertain" ∷ []

abbrev pub patch_artifact_classes : List Text
patch_artifact_classes =
    codes "product"
    ∷ codes "generated"
    ∷ codes "scratch"
    ∷ codes "operational"
    ∷ codes "unknown"
    ∷ []

abbrev pub patch_artifact_dispositions : List Text
patch_artifact_dispositions =
    codes "foreground" ∷ codes "manifest" ∷ codes "review_cleanup" ∷ codes "unknown" ∷ []

abbrev pub patch_drift_states : List Text
patch_drift_states = codes "on_track" ∷ codes "suspect" ∷ codes "drift" ∷ codes "uncertain" ∷ []

-- The members of the closed sets are tested at run time, so these are texts.
pub record Relation : Type 0 where
  pub source_id : Text
  pub kind : Text
  pub target_id : Text
  pub evidence_event_ids : List Text

pub record EpisodeHint : Type 0 where
  pub episode_id : Text
  pub priority : Text
  pub reason : Text
  pub evidence_event_ids : List Text

pub record LoopHint : Type 0 where
  pub object_id : Text
  pub state : Text
  pub evidence_event_ids : List Text
  pub evidence_episode_ids : List Text

pub record ArtifactHint : Type 0 where
  pub artifact_id : Text
  pub artifact_class : Text
  pub disposition : Text
  pub evidence_event_ids : List Text
  pub evidence_episode_ids : List Text

pub record Drift : Type 0 where
  pub state : Text
  pub goal_ids : List Text
  pub episode_ids : List Text

pub record VccPatch : Type 0 where
  pub base_digest : Text
  pub active_goal_ids : List Text
  pub relations : List Relation
  pub episode_hints : List EpisodeHint
  pub open_loop_hints : List LoopHint
  pub artifact_hints : List ArtifactHint
  pub drift : Drift
  pub missing_from_projection_ids : List Text

-- A correction that the source makes: what supersedes what, by which events.
pub record CorrectionGate : Type 0 where
  pub source_id : Text
  pub target_id : Text
  pub evidence_event_ids : List Text

pub record VccPatchSourceIndex : Type 0 where
  pub event_ids : List Text
  pub episode_ids : List Text
  pub goal_ids : List Text
  pub loop_ids : List Text
  pub artifact_ids : List Text
  pub protected_event_ids : List Text
  pub protected_episode_ids : List Text
  pub protected_goal_ids : List Text
  pub correction_gate : List CorrectionGate

pub record VccPatchContext : Type 0 where
  pub candidate : VccCandidate
  pub docket_bytes : Text
  pub source_index : VccPatchSourceIndex

pub data VccPatchValidation : Type 0 where
  accepted : VccPatch → Text → Text → VccPatchValidation
  refused : Text → Text → Text → VccPatchValidation

pub record VccPatchApplication : Type 0 where
  pub is_accepted : Bool
  pub candidate_bytes : Text
  pub candidate_digest : Text
  pub patch_digest : Option Text
  pub selected_episode_ids : List Text
  pub warnings : List Text

pub record SourceIndexInput : Type 0 where
  pub events : List CanonicalEvent
  pub episodes : List CausalEpisode
  pub goal_ids : Option (List Text)
  pub loop_ids : Option (List Text)
  pub artifact_ids : Option (List Text)
  pub protected_event_ids : Option (List Text)
  pub protected_episode_ids : Option (List Text)
  pub correction_gate : Option (List CorrectionGate)

-- `ids ?? default`
abbrev pub or_else {ℓ} : {A : Type ℓ} → Option A → A → A
or_else none default = default
or_else (some a) default = a

abbrev pub gate_key : CorrectionGate → Text
gate_key g = g.source_id ++ (0 ∷ g.target_id)

abbrev pub compare_gates : CorrectionGate → CorrectionGate → Ordering
compare_gates left right = compare_code_points (gate_key left) (gate_key right)

abbrev pub sorted_gate : CorrectionGate → CorrectionGate
sorted_gate g = record g { evidence_event_ids = unique_sorted g.evidence_event_ids }

unfoldable pub build_vcc_patch_source_index : SourceIndexInput → VccPatchSourceIndex
build_vcc_patch_source_index input =
    let protected = or_empty input.protected_event_ids in
    let all_goals = flat_map (λ e. e.goal_ids) input.events in
    let all_artifacts = flat_map (λ e. e.artifact_ids) input.events in
    let protected_events = keep (λ e. member e.id protected) input.events in
    record {
      event_ids = unique_sorted (map (λ e. e.id) input.events);
      episode_ids = unique_sorted (map (λ e. e.id) input.episodes);
      goal_ids = unique_sorted (or_else input.goal_ids all_goals);
      loop_ids = unique_sorted (or_empty input.loop_ids);
      artifact_ids = unique_sorted (or_else input.artifact_ids all_artifacts);
      protected_event_ids = unique_sorted protected;
      protected_episode_ids = unique_sorted (or_empty input.protected_episode_ids);
      protected_goal_ids = unique_sorted (flat_map (λ e. e.goal_ids) protected_events);
      correction_gate = sort compare_gates (map sorted_gate (or_else input.correction_gate []));
    }

-- `vccPatchBaseDigest`
unfoldable pub vcc_patch_base_digest : Primitives → Text → Text → Text
unfolding codes
vcc_patch_base_digest primitives candidate_bytes docket_bytes =
    primitives.sha256 (codes "vcc-patch-base-v1" ++ (0 ∷ candidate_bytes) ++ (0 ∷ docket_bytes))
