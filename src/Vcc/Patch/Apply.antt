-- ===== src/Vcc/Patch/Apply.antt =====
-- src/vcc.ts: a patch applied to its candidate (`applyVccPatch`, `rehearseVccPatch`).
use Prim.Native.Nat.{Ordering, compare}
use opencode_better_compact.Base.{
  ℕ, zero, suc, true, false, not, Option, none, some, List, [], ◌∷◌, ◌++◌, map, keep, length, ◌==◌,
  Text, codes, eq_text, member, Result, ok, ◌>>=◌, if◌then◌else◌,
}
use opencode_better_compact.Base.JsMap.{get, set}
use opencode_better_compact.Base.Sort.{sort, or_then}
use opencode_better_compact.Base.Value.{
  Value, str, arr, obj, Fields, end, field, Number, items, get_field,
}
use opencode_better_compact.Vcc.Order.{compare_code_points, unique_sorted}
use opencode_better_compact.Vcc.Serialize.{canonical_serialize}
use opencode_better_compact.Vcc.Event.{Primitives, texts}
use opencode_better_compact.Vcc.Episode.{flat_map}
use opencode_better_compact.Vcc.Candidate.Render.{items_of}
use opencode_better_compact.Vcc.Json.{parse_vcc_patch}
use opencode_better_compact.Vcc.Patch.{
  Relation, EpisodeHint, LoopHint, ArtifactHint, VccPatch, VccPatchContext, accepted, refused,
  VccPatchApplication, patch_episode_priorities,
}
use opencode_better_compact.Vcc.Patch.Checks.{as_items, strings_of}
use opencode_better_compact.Vcc.Patch.Validate.{validate_vcc_patch}

-- One more than `values.indexOf(value)`.
unfoldable pub rank_in : List Text → Text → ℕ
rank_in [] t = 0
rank_in (v ∷ vs) t =
    let later = rank_in vs t in
    if eq_text v t then 1 else elim later [ zero ↦ zero | suc n ↦ suc (suc n) ]

-- `new Map(entries)`: of two entries with a key the later one counts.
unfoldable pub hint_ranks : List (Text × ℕ) → List EpisodeHint → List (Text × ℕ)
unfolding rank_in
hint_ranks m [] = m
hint_ranks m (h ∷ hs) =
    hint_ranks (set h.episode_id (rank_in patch_episode_priorities h.priority) m) hs

-- The identity of an episode of the candidate, empty where it has none.
abbrev pub text_or_empty : Option Value → Text
text_or_empty (some (str t)) = t
text_or_empty _ = []

abbrev pub episode_id_of : Value → Text
episode_id_of (obj fs) = text_or_empty (get_field (codes "id") fs)
episode_id_of _ = []

abbrev pub text_list : Option Value → List Text
text_list (some (str t)) = t ∷ []
text_list _ = []

abbrev pub episode_ids_of : Value → List Text
episode_ids_of (obj fs) = text_list (get_field (codes "id") fs)
episode_ids_of _ = []

-- `priorities.get(id) ?? indexOf("neutral")`
abbrev pub priority_of : List (Text × ℕ) → Text → ℕ
priority_of ranks id = elim (get id ranks) [
  | none ↦ rank_in patch_episode_priorities (codes "neutral")
  | some n ↦ n
]

unfoldable pub compare_patched : List (Text × ℕ) → Value → Value → Ordering
unfolding codes rank_in compare_code_points
compare_patched ranks left right =
    or_then
      (compare (priority_of ranks (episode_id_of left)) (priority_of ranks (episode_id_of right)))
      (compare_code_points (episode_id_of left) (episode_id_of right))

abbrev pub colon : Text → Text → Text
colon left right = left ++ (b':' ∷ right)

abbrev pub relation_warning : Relation → Text
relation_warning r = colon (codes "relation") (colon r.source_id (colon r.kind r.target_id))

abbrev pub loop_warning : LoopHint → Text
loop_warning h = colon (codes "loop") (colon h.object_id h.state)

abbrev pub artifact_warning : ArtifactHint → Text
artifact_warning h = colon (codes "artifact") (colon h.artifact_id h.disposition)

unfoldable pub patch_warnings : VccPatch → List Text
unfolding codes
patch_warnings patch =
    let drift =
      if eq_text patch.drift.state (codes "on_track")
      then []
      else colon (codes "drift") patch.drift.state ∷ [] in
    unique_sorted (
      map relation_warning patch.relations
      ++ (map loop_warning patch.open_loop_hints
          ++ (map artifact_warning patch.artifact_hints
              ++ (drift
                  ++ map (λ id. colon (codes "missing_from_projection") id)
                      patch.missing_from_projection_ids))))

-- `object[key] = value`: a property that is there keeps its place.
unfoldable pub set_field : Text → Value → Fields → Fields
set_field key value end = field key value end
set_field key value (field k v fs) =
    let rest = set_field key value fs in if eq_text k key then field k value fs else field k v rest

-- The goals that the patch names first, in its order, and then the others.
unfoldable pub prefer_goals : List Text → List Text → List Text
prefer_goals wanted existing =
    let preferred = keep (λ id. member id existing) wanted in
    preferred ++ keep (λ id. not (member id preferred)) existing

-- The new list of goals, where the candidate has one of strings.
unfoldable pub patch_goals : VccPatch → Fields → Fields → Fields
unfolding prefer_goals strings_of
patch_goals patch parsed body = elim (as_items (get_field (codes "active_goal_ids") parsed)) [
  | none ↦ body
  | some vs ↦
      if length (strings_of vs) == length (items vs)
      then set_field (codes "active_goal_ids")
          (texts (prefer_goals patch.active_goal_ids (strings_of vs))) body
      else body
]

unfoldable pub patched_body : VccPatch → Fields → List Value → List Text → Fields
unfolding codes set_field patch_goals
patched_body patch parsed selected warnings = patch_goals patch parsed (
    set_field (codes "patch_warnings") (texts warnings)
      (set_field (codes "selected_episodes") (arr (items_of selected)) parsed))

module _ (read_double : Text → Number) where
  -- The object of the candidate and its selected episodes.
  unfoldable pub parsed_candidate : Text → Option (Fields × List Value)
  unfolding codes
  parsed_candidate bytes = elim (parse_vcc_patch read_double bytes) [
    | none ↦ none
    | some fs ↦ elim (as_items (get_field (codes "selected_episodes") fs)) [
      | none ↦ none
      | some vs ↦ some (fs, items vs)
    ]
  ]

module _ (primitives : Primitives) where
  -- The candidate as it was.
  abbrev pub unpatched : VccPatchContext → Text → Text → VccPatchApplication
  unpatched context bytes digest = record {
    is_accepted = false;
    candidate_bytes = bytes;
    candidate_digest = digest;
    patch_digest = none;
    selected_episode_ids = context.candidate.selected_episode_ids;
    warnings = [];
  }

  unfoldable pub patch_candidate :
      VccPatch → Text → Fields → List Value → Result VccPatchApplication
  unfolding compare_patched hint_ranks patch_warnings patched_body
  patch_candidate patch patch_digest parsed episodes = do
    let selected = sort (compare_patched (hint_ranks [] patch.episode_hints)) episodes
    let warnings = patch_warnings patch
    bytes ←
        canonical_serialize primitives.print_double
          (obj (patched_body patch parsed selected warnings))
    ok (record {
      is_accepted = true;
      candidate_bytes = bytes;
      candidate_digest = primitives.sha256 bytes;
      patch_digest = some patch_digest;
      selected_episode_ids = flat_map episode_ids_of selected;
      warnings = warnings;
    })

  module _ (read_double : Text → Number) where
    unfoldable pub apply_vcc_patch : VccPatchContext → VccPatch → Text → Result VccPatchApplication
    unfolding parsed_candidate patch_candidate
    apply_vcc_patch context patch patch_digest =
        let bytes = context.candidate.bytes in
        elim (parsed_candidate read_double bytes) [
          | none ↦ ok (unpatched context bytes (primitives.sha256 bytes))
          | some (fs, episodes) ↦ patch_candidate patch patch_digest fs episodes
        ]

    unfoldable pub rehearse_vcc_patch : VccPatchContext → Text → Result VccPatchApplication
    unfolding validate_vcc_patch apply_vcc_patch
    rehearse_vcc_patch context text = do
      validation ← validate_vcc_patch primitives read_double text context
      elim validation [
        | refused why bytes digest ↦ ok (unpatched context bytes digest)
        | accepted patch digest base ↦ apply_vcc_patch context patch digest
      ]
