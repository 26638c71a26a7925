-- ===== src/Vcc/Patch/Hints.antt =====
-- src/vcc.ts: what the hints and the drift of a patch that pass their tests refer to.
use opencode_better_compact.Base.{
  ◌≡◌, subst, true, false, Option, some, some_inj, codes, member, is_empty,
}
use opencode_better_compact.Base.Value.{Value, get_field, >>=-eq-some, >>-eq-some}
use opencode_better_compact.Vcc.Json.{is_record}
use opencode_better_compact.Vcc.Patch.{
  EpisodeHint, LoopHint, ArtifactHint, Drift, patch_episode_priorities, patch_episode_reasons,
  patch_loop_states, patch_artifact_classes, patch_artifact_dispositions, patch_drift_states,
}
use opencode_better_compact.Vcc.Patch.Checks.{
  PatchSourceSets, bounded_string, enum_value, exact_keys, source_ids, non_empty_source_ids,
  validate_episode_hint, hint_evidence, validate_loop_hint, validate_artifact_hint, validate_drift,
}
use opencode_better_compact.Vcc.Patch.Sourced.{
  AreSourceIds, source_ids_sound, non_empty_source_ids_sound, enum_value_sound, EvidenceIsSourced,
  hint_evidence_sound,
}

-- A hint about an episode of the source, for events of the source.
pub record EpisodeHintIsSourced (sets : PatchSourceSets) (h : EpisodeHint) : Type 0 where
  pub known : member h.episode_id sets.episodes ≡ true
  pub priority : member h.priority patch_episode_priorities ≡ true
  pub reason : member h.reason patch_episode_reasons ≡ true
  pub evidence : AreSourceIds sets.events (codes "ev:") h.evidence_event_ids
  pub supported : is_empty h.evidence_event_ids ≡ false

pub validate_episode_hint_sound :
    (sets : PatchSourceSets) (value : Value) (h : EpisodeHint)
    → validate_episode_hint sets value ≡ some h
    → EpisodeHintIsSourced sets h
unfolding validate_episode_hint
validate_episode_hint_sound sets value h e =
    let (fs, _, e1) = >>=-eq-some (is_record value) e in
    let (_, e2) = >>-eq-some (exact_keys fs _) e1 in
    let (id, _, e3) = >>=-eq-some (bounded_string (get_field (codes "episode_id") fs) 512) e2 in
    let (known, e4) = >>-eq-some (member id sets.episodes) e3 in
    let (priority, p, e5) =
      >>=-eq-some (enum_value patch_episode_priorities (get_field (codes "priority") fs)) e4 in
    let (reason, r, e6) =
      >>=-eq-some (enum_value patch_episode_reasons (get_field (codes "reason") fs)) e5 in
    let (ids, i, e7) =
      >>=-eq-some
        (non_empty_source_ids (get_field (codes "evidence_event_ids") fs) sets.events (codes "ev:"))
        e6 in
    let (sourced, filled) = non_empty_source_ids_sound _ sets.events (codes "ev:") ids i in
    subst (EpisodeHintIsSourced sets) (some_inj e7) (record {
      known = known;
      priority = enum_value_sound patch_episode_priorities _ priority p;
      reason = enum_value_sound patch_episode_reasons _ reason r;
      evidence = sourced;
      supported = filled;
    })

pub record LoopHintIsSourced (sets : PatchSourceSets) (h : LoopHint) : Type 0 where
  pub known : member h.object_id sets.loops ≡ true
  pub state : member h.state patch_loop_states ≡ true
  pub evidence : EvidenceIsSourced sets h.evidence_event_ids h.evidence_episode_ids

pub validate_loop_hint_sound :
    (sets : PatchSourceSets) (value : Value) (h : LoopHint)
    → validate_loop_hint sets value ≡ some h
    → LoopHintIsSourced sets h
unfolding validate_loop_hint
validate_loop_hint_sound sets value h e =
    let (fs, _, e1) = >>=-eq-some (is_record value) e in
    let (_, e2) = >>-eq-some (exact_keys fs _) e1 in
    let (id, _, e3) = >>=-eq-some (bounded_string (get_field (codes "object_id") fs) 512) e2 in
    let (known, e4) = >>-eq-some (member id sets.loops) e3 in
    let (state, s, e5) =
      >>=-eq-some (enum_value patch_loop_states (get_field (codes "state") fs)) e4 in
    let ((events, others), i, e6) = >>=-eq-some (hint_evidence sets fs) e5 in
    subst (LoopHintIsSourced sets) (some_inj e6) (record {
      known = known;
      state = enum_value_sound patch_loop_states _ state s;
      evidence = hint_evidence_sound sets fs events others i;
    })

pub record ArtifactHintIsSourced (sets : PatchSourceSets) (h : ArtifactHint) : Type 0 where
  pub known : member h.artifact_id sets.artifacts ≡ true
  pub artifact_class : member h.artifact_class patch_artifact_classes ≡ true
  pub disposition : member h.disposition patch_artifact_dispositions ≡ true
  pub evidence : EvidenceIsSourced sets h.evidence_event_ids h.evidence_episode_ids

pub validate_artifact_hint_sound :
    (sets : PatchSourceSets) (value : Value) (h : ArtifactHint)
    → validate_artifact_hint sets value ≡ some h
    → ArtifactHintIsSourced sets h
unfolding validate_artifact_hint
validate_artifact_hint_sound sets value h e =
    let (fs, _, e1) = >>=-eq-some (is_record value) e in
    let (_, e2) = >>-eq-some (exact_keys fs _) e1 in
    let (id, _, e3) = >>=-eq-some (bounded_string (get_field (codes "artifact_id") fs) 512) e2 in
    let (known, e4) = >>-eq-some (member id sets.artifacts) e3 in
    let (kind, k, e5) =
      >>=-eq-some (enum_value patch_artifact_classes (get_field (codes "class") fs)) e4 in
    let (disposition, d, e6) =
      >>=-eq-some (enum_value patch_artifact_dispositions (get_field (codes "disposition") fs))
        e5 in
    let ((events, others), i, e7) = >>=-eq-some (hint_evidence sets fs) e6 in
    subst (ArtifactHintIsSourced sets) (some_inj e7) (record {
      known = known;
      artifact_class = enum_value_sound patch_artifact_classes _ kind k;
      disposition = enum_value_sound patch_artifact_dispositions _ disposition d;
      evidence = hint_evidence_sound sets fs events others i;
    })

pub record DriftIsSourced (sets : PatchSourceSets) (d : Drift) : Type 0 where
  pub state : member d.state patch_drift_states ≡ true
  pub goals : AreSourceIds sets.goals (codes "goal:") d.goal_ids
  pub episodes_known : AreSourceIds sets.episodes (codes "ep:") d.episode_ids

pub validate_drift_sound :
    (sets : PatchSourceSets) (value : Option Value) (d : Drift)
    → validate_drift sets value ≡ some d
    → DriftIsSourced sets d
unfolding validate_drift
validate_drift_sound sets value d e =
    let (v, _, e1) = >>=-eq-some value e in
    let (fs, _, e2) = >>=-eq-some (is_record v) e1 in
    let (_, e3) = >>-eq-some (exact_keys fs _) e2 in
    let (state, s, e4) =
      >>=-eq-some (enum_value patch_drift_states (get_field (codes "state") fs)) e3 in
    let (goals, g, e5) =
      >>=-eq-some (source_ids (get_field (codes "goal_ids") fs) sets.goals (codes "goal:")) e4 in
    let (others, o, e6) =
      >>=-eq-some (source_ids (get_field (codes "episode_ids") fs) sets.episodes (codes "ep:"))
        e5 in
    subst (DriftIsSourced sets) (some_inj e6) (record {
      state = enum_value_sound patch_drift_states _ state s;
      goals = source_ids_sound _ sets.goals (codes "goal:") goals g;
      episodes_known = source_ids_sound _ sets.episodes (codes "ep:") others o;
    })
