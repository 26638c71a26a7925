-- ===== src/Vcc/Episode/Marks.antt =====
-- src/vcc.ts: which episodes of `formCausalEpisodes` are superseded.
use opencode_better_compact.Base.{
  ◌≡◌, ◌≢◌, ◌↔◌, subst, true, List, [], ◌∷◌, map, arith, Text, ok, All, any, member, >>=-eq-ok,
}
use opencode_better_compact.Base.JsMap
use opencode_better_compact.Base.Results.{traverse, traverse-nil, traverse-cons}
use opencode_better_compact.Base.Sort.{Perm_sym, Perm-All, sort, sort-Perm}
use opencode_better_compact.Vcc.Event.{CanonicalEvent, Primitives, compare_events}
use opencode_better_compact.Vcc.Episode.{
  CausalEpisode, superseded, causal_pattern, episode_body, compare_episodes, mark,
  build_causal_episode, form_causal_episodes, flat_map, group_from,
}
use opencode_better_compact.Vcc.Episode.Coverage.{build_causal_episode-eq}

abbrev pub IsMarked : List Text → CausalEpisode → Type 0
IsMarked ids e = (e.status ≡ superseded) ↔ (any (λ id. member id ids) e.event_ids ≡ true)

episode_body-status : (events : List CanonicalEvent) → (episode_body events).status ≢ superseded
unfolding episode_body causal_pattern
episode_body-status events h = ground arith

mark-IsMarked :
    (ids : List Text) (e : CausalEpisode) → e.status ≢ superseded → IsMarked ids (mark ids e)
unfolding mark
mark-IsMarked ids e h = ground arith

marks-IsMarked :
    (ids : List Text) (es : List CausalEpisode)
    → All (λ e. e.status ≢ superseded) es
    → All (IsMarked ids) (map (mark ids) es)
marks-IsMarked ids [] h = tt
marks-IsMarked ids (e ∷ es) (p, h) = (mark-IsMarked ids e p, marks-IsMarked ids es h)

module _ (primitives : Primitives) where
  build-status :
      (group : List CanonicalEvent) (e : CausalEpisode)
      → build_causal_episode primitives group ≡ ok e
      → e.status ≢ superseded
  build-status group e h =
      let (id, same) = build_causal_episode-eq primitives group e h in
      subst (λ x. x.status ≢ superseded) same (episode_body-status (sort compare_events group))

  traverse-status :
      (groups : List (List CanonicalEvent)) (es : List CausalEpisode)
      → traverse (build_causal_episode primitives) groups ≡ ok es
      → All (λ e. e.status ≢ superseded) es
  traverse-status [] es h = subst (All _) (traverse-nil (build_causal_episode primitives) es h) tt
  traverse-status (group ∷ groups) es h =
      let (e, rest, first, later, same) =
        traverse-cons (build_causal_episode primitives) group groups es h in
      subst (All _) same (build-status group e first, traverse-status groups rest later)

  -- An episode is superseded exactly when an event supersedes one of its events.
  pub form_causal_episodes-IsMarked :
      (events : List CanonicalEvent) (es : List CausalEpisode)
      → form_causal_episodes primitives events ≡ ok es
      → All (IsMarked (flat_map (λ e. e.supersedes_event_ids) events)) es
  unfolding form_causal_episodes
  form_causal_episodes-IsMarked events es h =
      let ids = flat_map (λ e. e.supersedes_event_ids) events in
      let (built, each, h') =
        >>=-eq-ok (traverse (build_causal_episode primitives) (JsMap.values (group_from [] events)))
          h in
      let same : sort compare_episodes (map (mark ids) built) ≡ es = cc h' in
      subst (All (IsMarked ids)) same (
        Perm-All (IsMarked ids) (Perm_sym (sort-Perm compare_episodes (map (mark ids) built)))
          (marks-IsMarked ids built (traverse-status _ built each)))
