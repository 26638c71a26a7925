-- ===== src/Vcc/Select.antt =====
-- src/vcc.ts: which completed episodes a candidate takes beside what it must hold
-- (`selectCompleteEpisodes`, `episodeDimensions`, `episodeScore`).
pub mod Laws
pub mod Termination
mod Tests
use Prim.Native.Nat.{Ordering, compare}
use opencode_better_compact.Base.{
  ℕ, zero, suc, ◌+◌, ◌*◌, Bool, true, false, not, ◌||◌, Option, none, some, List, [], ◌∷◌, ◌++◌,
  length, keep, Text, codes, member, includes, ltb, Result, ok, throw, ◌>>=◌, if◌then◌else◌,
}
use opencode_better_compact.Base.Sort.{sort}
use opencode_better_compact.Vcc.Order.{compare_code_points}
use opencode_better_compact.Vcc.Episode.{CausalEpisode, blocked, Status}

abbrev pub is_blocked : Status → Bool
is_blocked blocked = true
is_blocked _ = false

-- `...(test ? [name] : [])`
abbrev pub when : Bool → Text → List Text
when true name = name ∷ []
when false name = []

-- `latest_sequence >= 0` holds of every natural number.
unfoldable pub all_dimensions : CausalEpisode → List Text
all_dimensions e =
    when (ltb 0 (length e.goal_ids)) (codes "goal")
    ++ (when (is_blocked e.status || includes e.kind (codes "failure")) (codes "blocker")
        ++ (when (includes e.kind (codes "decision")) (codes "decision")
            ++ (when (ltb 0 (length e.evidence_event_ids) || ltb 0 (length e.artifact_ids))
                  (codes "evidence")
                ++ codes "recent" ∷ [])))

unfoldable pub uncovered : List Text → CausalEpisode → ℕ
unfolding all_dimensions
uncovered covered e = length (keep (λ dimension. not (member dimension covered)) (all_dimensions e))

unfoldable pub episode_score : CausalEpisode → ℕ
episode_score e =
    length e.goal_ids * 100000
    + length e.evidence_event_ids * 10000
    + (if includes e.kind (codes "decision") then 1000 else 0)
    + e.relevance_signals.latest_sequence

-- More uncovered dimensions first, then a higher score, then the identity.
unfoldable pub compare_ranked : List Text → ℕ × CausalEpisode → ℕ × CausalEpisode → Ordering
unfolding uncovered episode_score compare_code_points
compare_ranked covered (i, left) (j, right) =
    elim (compare (uncovered covered right) (uncovered covered left)) [
      | Ordering.lt ↦ Ordering.lt
      | Ordering.gt ↦ Ordering.gt
      | Ordering.eq ↦ elim (compare (episode_score right) (episode_score left)) [
        | Ordering.lt ↦ Ordering.lt
        | Ordering.gt ↦ Ordering.gt
        | Ordering.eq ↦ compare_code_points left.id right.id
      ]
    ]

abbrev pub indexed : ℕ → List CausalEpisode → List (ℕ × CausalEpisode)
indexed i [] = []
indexed i (e ∷ es) = (i, e) ∷ indexed (suc i) es

-- `remaining.splice(index, 1)`
abbrev pub remove_at : ℕ → List CausalEpisode → List CausalEpisode
remove_at i [] = []
remove_at zero (e ∷ es) = es
remove_at (suc i) (e ∷ es) = e ∷ remove_at i es

-- Whether the candidate with these episodes fits into the limit is a parameter: the text of a trial is
-- `canonicalSerialize` of what the candidate must hold with the episodes rendered, which may throw.
module _ (fits : List CausalEpisode → Result Bool) where
  -- `ranked.find(...)`
  unfoldable pub find_fitting :
      List CausalEpisode → List (ℕ × CausalEpisode) → Result (Option (ℕ × CausalEpisode))
  find_fitting selected [] = ok none
  find_fitting selected ((i, e) ∷ ranked) = do
    fit ← fits (selected ++ e ∷ [])
    elim fit [ true ↦ ok (some (i, e)) | false ↦ find_fitting selected ranked ]

  -- One round for each of the remaining episodes; with none left, none is found.
  unfoldable pub select_from :
      ℕ → List CausalEpisode → List CausalEpisode → List Text → Result (List CausalEpisode)
  unfolding find_fitting compare_ranked
  select_from zero remaining selected covered = ok selected
  select_from (suc fuel) remaining selected covered = do
    candidate ← find_fitting selected (sort (compare_ranked covered) (indexed 0 remaining))
    elim candidate [
      | none ↦ ok selected
      | some (i, e) ↦
          select_from fuel (remove_at i remaining) (selected ++ e ∷ [])
            (covered ++ all_dimensions e)
    ]

  unfoldable pub select_complete_episodes : List CausalEpisode → Result (List CausalEpisode)
  unfolding select_from
  select_complete_episodes episodes = select_from (length episodes) episodes [] []
