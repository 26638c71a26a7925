-- ===== src/Vcc/Select/Termination.antt =====
-- src/vcc.ts: the selection of episodes ends with a result.
use opencode_better_compact.Base.{
  ℕ, zero, suc, ◌≡◌, refl, ap, ◌∙◌, Bool, Option, none, some, List, [], ◌∷◌, ◌++◌, Text, length,
  Result, ok, Bool-cases, Option-cases, inl, inr,
}
use opencode_better_compact.Base.Sort.{sort}
use opencode_better_compact.Vcc.Episode.{CausalEpisode}
use opencode_better_compact.Vcc.Select.{
  all_dimensions, compare_ranked, indexed, remove_at, find_fitting, select_from,
  select_complete_episodes,
}
use opencode_better_compact.Vcc.Select.Laws.{
  find_fitting-hit, find_fitting-miss, select_from-stop, select_from-step, Selection,
  select_complete_episodes-Selection,
}

module _ (fits : List CausalEpisode → Result Bool)
    (decides : (l : List CausalEpisode) → (b : Bool) × (fits l ≡ ok b)) where
  find_fitting_total :
      (selected : List CausalEpisode) (ranked : List (ℕ × CausalEpisode))
      → (found : Option (ℕ × CausalEpisode)) × (find_fitting fits selected ranked ≡ ok found)
  unfolding find_fitting
  find_fitting_total selected [] = (none, refl)
  find_fitting_total selected ((i, x) ∷ ranked) =
      let (fit, tried) = decides (selected ++ x ∷ []) in
      let (found, later) = find_fitting_total selected ranked in
      elim (Bool-cases fit) [
        | inl does ↦
            (some (i, x), find_fitting-hit fits selected i x ranked (tried ∙ ap (λ b. ok b) does))
        | inr not_fit ↦ (
          found,
          find_fitting-miss fits selected i x ranked (tried ∙ ap (λ b. ok b) not_fit) ∙ later,
        )
      ]

  select_from_total :
      (fuel : ℕ) (remaining selected : List CausalEpisode) (covered : List Text)
      → (result : List CausalEpisode) × (select_from fits fuel remaining selected covered
          ≡ ok result)
  unfolding select_from
  select_from_total zero remaining selected covered = (selected, refl)
  select_from_total (suc fuel) remaining selected covered =
      let (found, searched) =
        find_fitting_total selected (sort (compare_ranked covered) (indexed 0 remaining)) in
      elim (Option-cases found) [
        | inl nothing ↦ (
          selected,
          select_from-stop fits fuel remaining selected covered (searched ∙ ap (λ r. ok r) nothing),
        )
        | inr ((i, x), hit) ↦
            let (result, later) =
              select_from_total fuel (remove_at i remaining) (selected ++ x ∷ [])
                (covered ++ all_dimensions x) in
            (
              result,
              select_from-step fits fuel remaining selected covered i x
                    (searched ∙ ap (λ r. ok r) hit)
                  ∙ later,
            )
      ]

  -- Where no trial throws, the selection returns: episodes that fit, with none left that would.
  pub select_complete_episodes_total :
      (episodes : List CausalEpisode)
      → (selected : List CausalEpisode) × (select_complete_episodes fits episodes ≡ ok selected)
        × Selection fits episodes selected
  unfolding select_complete_episodes
  select_complete_episodes_total episodes =
      let (selected, e) = select_from_total (length episodes) episodes [] [] in
      (selected, e, select_complete_episodes-Selection fits episodes selected e)
