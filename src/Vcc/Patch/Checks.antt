-- ===== src/Vcc/Patch/Checks.antt =====
-- src/vcc.ts: the tests of a patch's parts (`sourceIDs`, `validateRelation`, `validateEpisodeHint`,
-- `validateLoopHint`, `validateArtifactHint`, `validateDrift`). A test that the code casts by returns
-- the value at its type.
use opencode_better_compact.Base.{
  ℕ, zero, suc, Bool, true, false, not, ◌&&◌, ◌||◌, Option, none, some, List, [], ◌∷◌, ◌++◌, length,
  all, any, is_some, leb, ◌==◌, Text, codes, eq_text, starts_with, member, distinct, is_empty,
  Result, ok,
}
use opencode_better_compact.Base.Value.{
  Value, num, int, str, arr, Items, nil, cons, Fields, Number, items, keys, get_field, as_text,
  ◌>>=◌, ◌>>◌,
}
use opencode_better_compact.Utf8.{utf8_bytes}
use opencode_better_compact.State.VccAttempt.{is_digest}
use opencode_better_compact.Vcc.Serialize.{canonical_serialize}
use opencode_better_compact.Vcc.Event.{texts}
use opencode_better_compact.Vcc.Json.{is_record}
use opencode_better_compact.Vcc.Patch.{
  Relation, EpisodeHint, LoopHint, ArtifactHint, Drift, CorrectionGate, VccPatchSourceIndex,
  patch_relation_kinds, patch_episode_priorities, patch_episode_reasons, patch_loop_states,
  patch_artifact_classes, patch_artifact_dispositions, patch_drift_states,
}

-- The sets of identities as lists.
pub record PatchSourceSets : Type 0 where
  pub events : List Text
  pub episodes : List Text
  pub goals : List Text
  pub loops : List Text
  pub artifacts : List Text
  pub protected_events : List Text
  pub protected_goals : List Text
  pub every : List Text

unfoldable pub patch_source_sets : VccPatchSourceIndex → PatchSourceSets
patch_source_sets index = record {
  events = index.event_ids;
  episodes = index.episode_ids;
  goals = index.goal_ids;
  loops = index.loop_ids;
  artifacts = index.artifact_ids;
  protected_events = index.protected_event_ids;
  protected_goals = index.protected_goal_ids;
  every =
      index.event_ids
      ++ (index.episode_ids ++ (index.goal_ids ++ (index.loop_ids ++ index.artifact_ids)));
}

-- `value.filter((item) => typeof item === "string")`
unfoldable pub strings_of : Items → List Text
strings_of nil = []
strings_of (cons (str t) vs) = t ∷ strings_of vs
strings_of (cons v vs) = strings_of vs

abbrev pub as_items : Option Value → Option Items
as_items (some (arr vs)) = some vs
as_items _ = none

unfoldable pub bounded_string : Option Value → ℕ → Option Text
bounded_string value max_bytes = do t ← as_text value; leb (utf8_bytes t) max_bytes; some t

unfoldable pub enum_value : List Text → Option Value → Option Text
enum_value values value = do t ← as_text value; member t values; some t

-- Each of the keys, and no other.
unfoldable pub exact_keys : Fields → List Text → Bool
exact_keys fs expected =
    length (keys fs) == length expected && all (λ k. is_some (get_field k fs)) expected

-- A bounded identity of the kind, among those allowed; an empty prefix stands for any kind.
abbrev pub is_source_id : List Text → Text → Text → Bool
is_source_id allowed prefix id =
    leb (utf8_bytes id) 512 && starts_with id prefix && member id allowed

unfoldable pub source_ids : Option Value → List Text → Text → Option (List Text)
unfolding strings_of
source_ids value allowed prefix = do
  vs ← as_items value
  leb (length (items vs)) 128
  length (strings_of vs) == length (items vs)
  distinct (strings_of vs)
  all (is_source_id allowed prefix) (strings_of vs)
  some (strings_of vs)

-- `nonEmptySourceIDs`: the array has elements, and all are identities.
unfoldable pub non_empty_source_ids : Option Value → List Text → Text → Option (List Text)
non_empty_source_ids value allowed prefix = do
  ids ← source_ids value allowed prefix
  not (is_empty ids)
  some ids

-- Two texts; the canonical text of strings is never an exception.
abbrev pub same_result : Result Text → Result Text → Bool
same_result (ok a) (ok b) = eq_text a b
same_result _ _ = false

unfoldable pub validate_episode_hint : PatchSourceSets → Value → Option EpisodeHint
validate_episode_hint sets value = do
  fs ← is_record value
  exact_keys fs
      (codes "episode_id" ∷ codes "priority" ∷ codes "reason" ∷ codes "evidence_event_ids" ∷ [])
  id ← bounded_string (get_field (codes "episode_id") fs) 512
  member id sets.episodes
  priority ← enum_value patch_episode_priorities (get_field (codes "priority") fs)
  reason ← enum_value patch_episode_reasons (get_field (codes "reason") fs)
  evidence ←
      non_empty_source_ids (get_field (codes "evidence_event_ids") fs) sets.events (codes "ev:")
  some (record {
    episode_id = id;
    priority = priority;
    reason = reason;
    evidence_event_ids = evidence;
  })

-- The events and the episodes of a hint, not both without an element.
unfoldable pub hint_evidence : PatchSourceSets → Fields → Option (List Text × List Text)
hint_evidence sets fs = do
  evidence ← source_ids (get_field (codes "evidence_event_ids") fs) sets.events (codes "ev:")
  episodes ← source_ids (get_field (codes "evidence_episode_ids") fs) sets.episodes (codes "ep:")
  not (is_empty evidence) || not (is_empty episodes)
  some (evidence, episodes)

unfoldable pub validate_loop_hint : PatchSourceSets → Value → Option LoopHint
validate_loop_hint sets value = do
  fs ← is_record value
  exact_keys fs (
      codes "object_id"
      ∷ codes "state"
      ∷ codes "evidence_event_ids"
      ∷ codes "evidence_episode_ids"
      ∷ [])
  id ← bounded_string (get_field (codes "object_id") fs) 512
  member id sets.loops
  state ← enum_value patch_loop_states (get_field (codes "state") fs)
  (evidence, episodes) ← hint_evidence sets fs
  some (record {
    object_id = id;
    state = state;
    evidence_event_ids = evidence;
    evidence_episode_ids = episodes;
  })

unfoldable pub validate_artifact_hint : PatchSourceSets → Value → Option ArtifactHint
validate_artifact_hint sets value = do
  fs ← is_record value
  exact_keys fs (
      codes "artifact_id"
      ∷ codes "class"
      ∷ codes "disposition"
      ∷ codes "evidence_event_ids"
      ∷ codes "evidence_episode_ids"
      ∷ [])
  id ← bounded_string (get_field (codes "artifact_id") fs) 512
  member id sets.artifacts
  artifact_class ← enum_value patch_artifact_classes (get_field (codes "class") fs)
  disposition ← enum_value patch_artifact_dispositions (get_field (codes "disposition") fs)
  (evidence, episodes) ← hint_evidence sets fs
  some (record {
    artifact_id = id;
    artifact_class = artifact_class;
    disposition = disposition;
    evidence_event_ids = evidence;
    evidence_episode_ids = episodes;
  })

unfoldable pub validate_drift : PatchSourceSets → Option Value → Option Drift
validate_drift sets value = do
  v ← value
  fs ← is_record v
  exact_keys fs (codes "state" ∷ codes "goal_ids" ∷ codes "episode_ids" ∷ [])
  state ← enum_value patch_drift_states (get_field (codes "state") fs)
  goals ← source_ids (get_field (codes "goal_ids") fs) sets.goals (codes "goal:")
  episodes ← source_ids (get_field (codes "episode_ids") fs) sets.episodes (codes "ep:")
  some (record { state = state; goal_ids = goals; episode_ids = episodes })

-- `values.some((value) => !validate(value))` is none of these, with the values at their type.
unfoldable pub every_one {ℓ} : {A : Type ℓ} → (Value → Option A) → List Value → Option (List A)
every_one check [] = some []
every_one check (v ∷ vs) = do a ← check v; rest ← every_one check vs; some (a ∷ rest)

unfoldable pub every_item {ℓ} : {A : Type ℓ} → (Value → Option A) → Option Value → Option (List A)
unfolding every_one
every_item check value = do vs ← as_items value; every_one check (items vs)

abbrev pub is_one : Option Value → Bool
is_one (some (num (int false (suc zero)))) = true
is_one _ = false

-- The digest of the text that the patch is about.
unfoldable pub read_base_digest : Text → Fields → Option Text
read_base_digest expected fs = do
  is_one (get_field (codes "version") fs)
  base ← bounded_string (get_field (codes "base_digest") fs) 64
  is_digest base
  eq_text base expected
  some base

-- The active goals, all of them protected, and the identities that the projection misses.
unfoldable pub read_goals : PatchSourceSets → Fields → Option (List Text × List Text)
read_goals sets fs = do
  goals ← source_ids (get_field (codes "active_goal_ids") fs) sets.goals (codes "goal:")
  all (λ id. member id sets.protected_goals) goals
  missing ← source_ids (get_field (codes "missing_from_projection_ids") fs) sets.every []
  some (goals, missing)

module _ (print_double : Number → Text) where
  -- The gate is about these two, by these events, all of them protected.
  abbrev pub opens : PatchSourceSets → Text → Text → List Text → CorrectionGate → Bool
  opens sets source target evidence gate =
      eq_text gate.source_id source
      && eq_text gate.target_id target
      && same_result (canonical_serialize print_double (texts gate.evidence_event_ids))
          (canonical_serialize print_double (texts evidence))
      && all (λ id. member id sets.protected_events) gate.evidence_event_ids

  unfoldable pub validate_relation : PatchSourceSets → List CorrectionGate → Value → Option Relation
  validate_relation sets gates value = do
    fs ← is_record value
    exact_keys fs (codes "from" ∷ codes "kind" ∷ codes "to" ∷ codes "evidence_event_ids" ∷ [])
    source ← bounded_string (get_field (codes "from") fs) 512
    target ← bounded_string (get_field (codes "to") fs) 512
    kind ← enum_value patch_relation_kinds (get_field (codes "kind") fs)
    evidence ←
        non_empty_source_ids (get_field (codes "evidence_event_ids") fs) sets.events (codes "ev:")
    member source sets.every && member target sets.every
    not (eq_text kind (codes "explicitly_superseded_by"))
        || any (opens sets source target evidence) gates
    some (record {
      source_id = source;
      kind = kind;
      target_id = target;
      evidence_event_ids = evidence;
    })
