-- ===== src/Vcc/Select/Laws.antt =====
-- src/vcc.ts: the selection of episodes fits, and nothing that is left would.
use opencode_better_compact.Base.{
  ok_inj, ℕ, zero, suc, ◌+◌, ◌≤◌, ◌≡◌, refl, ap, sym, ◌∙◌, subst, ◌⊎◌, inl, inr, Bool, true, false,
  Option, none, some, List, [], ◌∷◌, ◌++◌, append_assoc, arith, length, get_elem?, Text, Result, ok,
  >>=-eq-ok, All, Bool-cases,
}
use opencode_better_compact.Base.Sort.{
  Perm, Perm_refl, Perm_sym, Perm-All, Perm-append, skip, swap, trans, sort, sort-Perm,
}
use opencode_better_compact.Vcc.Episode.{CausalEpisode}
use opencode_better_compact.Vcc.Select.{
  all_dimensions, compare_ranked, indexed, remove_at, find_fitting, select_from,
  select_complete_episodes,
}

-- An entry of the ranking names a remaining episode by its index.
abbrev pub IsAt : ℕ → List CausalEpisode → ℕ × CausalEpisode → Type 0
IsAt i es (j, e) = (k : ℕ) × (j ≡ i + k) × (get_elem? es k ≡ some e)

IsAt-cons :
    (i : ℕ) (e : CausalEpisode) (es : List CausalEpisode) (x : ℕ × CausalEpisode)
    → IsAt (suc i) es x
    → IsAt i (e ∷ es) x
IsAt-cons i e es (j, f) (k, p, q) = (suc k, omega arith, q)

IsAt-cons_all :
    (i : ℕ) (e : CausalEpisode) (es : List CausalEpisode) (xs : List (ℕ × CausalEpisode))
    → All (IsAt (suc i) es) xs
    → All (IsAt i (e ∷ es)) xs
IsAt-cons_all i e es [] h = tt
IsAt-cons_all i e es (x ∷ xs) (p, h) = (IsAt-cons i e es x p, IsAt-cons_all i e es xs h)

indexed-IsAt : (i : ℕ) (es : List CausalEpisode) → All (IsAt i es) (indexed i es)
indexed-IsAt i [] = tt
indexed-IsAt i (e ∷ es) =
    ((0, omega arith, refl), IsAt-cons_all i e es (indexed (suc i) es) (indexed-IsAt (suc i) es))

remove_at-Perm :
    (k : ℕ) (e : CausalEpisode) (es : List CausalEpisode)
    → get_elem? es k ≡ some e
    → Perm (e ∷ remove_at k es) es × (length es ≡ suc (length (remove_at k es)))
remove_at-Perm k e [] h = cc
remove_at-Perm zero e (f ∷ es) h =
    let same : f ≡ e = cc h in (subst (λ x. Perm (x ∷ es) (f ∷ es)) same (Perm_refl (f ∷ es)), refl)
remove_at-Perm (suc k) e (f ∷ es) h =
    let (p, n) = remove_at-Perm k e es h in
    (trans (swap e f (remove_at k es)) (skip f p), ap (λ (m : ℕ). suc m) n)

All-indexed :
    (P : CausalEpisode → Type 0) (i : ℕ) (es : List CausalEpisode)
    → All (λ (x : ℕ × CausalEpisode). P x.1) (indexed i es)
    → All P es
All-indexed P i [] h = tt
All-indexed P i (e ∷ es) (p, h) = (p, All-indexed P (suc i) es h)

module _ (fits : List CausalEpisode → Result Bool) where
  pub find_fitting-hit :
      (selected : List CausalEpisode) (i : ℕ) (x : CausalEpisode)
      (ranked : List (ℕ × CausalEpisode))
      → fits (selected ++ x ∷ []) ≡ ok true
      → find_fitting fits selected ((i, x) ∷ ranked) ≡ ok (some (i, x))
  unfolding find_fitting
  find_fitting-hit selected i x ranked h = rw h

  pub find_fitting-miss :
      (selected : List CausalEpisode) (i : ℕ) (x : CausalEpisode)
      (ranked : List (ℕ × CausalEpisode))
      → fits (selected ++ x ∷ []) ≡ ok false
      → find_fitting fits selected ((i, x) ∷ ranked) ≡ find_fitting fits selected ranked
  unfolding find_fitting
  find_fitting-miss selected i x ranked h = rw h

  find_fitting-tried :
      (selected : List CausalEpisode) (i : ℕ) (x : CausalEpisode)
      (ranked : List (ℕ × CausalEpisode)) (found : Option (ℕ × CausalEpisode))
      → find_fitting fits selected ((i, x) ∷ ranked) ≡ ok found
      → (fit : Bool) × (fits (selected ++ x ∷ []) ≡ ok fit)
  unfolding find_fitting
  find_fitting-tried selected i x ranked found e =
      let (fit, tried, _) = >>=-eq-ok (fits (selected ++ x ∷ [])) e in (fit, tried)

  find_fitting-nil :
      (selected : List CausalEpisode) (found : Option (ℕ × CausalEpisode))
      → find_fitting fits selected [] ≡ ok found
      → found ≡ none
  unfolding find_fitting
  find_fitting-nil selected found e = cc e

  -- What the search through the ranking finds.
  find_fitting-cases :
      (P : ℕ × CausalEpisode → Type 0) (selected : List CausalEpisode)
      (ranked : List (ℕ × CausalEpisode)) (found : Option (ℕ × CausalEpisode))
      → All P ranked
      → find_fitting fits selected ranked ≡ ok found
      → ((found ≡ none) × All (λ x. fits (selected ++ x.1 ∷ []) ≡ ok false) ranked)
        ⊎ ((x : ℕ × CausalEpisode) × (found ≡ some x)
            × P x
            × (fits (selected ++ x.1 ∷ []) ≡ ok true))
  find_fitting-cases P selected [] found h e = inl (find_fitting-nil selected found e, tt)
  find_fitting-cases P selected ((i, x) ∷ ranked) found (p, h) e =
      let (fit, tried) = find_fitting-tried selected i x ranked found e in
      elim (Bool-cases fit) [
        | inl does ↦
            let hit = tried ∙ ap (λ b. ok b) does in
            inr ((i, x), cc (find_fitting-hit selected i x ranked hit, e), p, hit)
        | inr not_fit ↦
            let miss = tried ∙ ap (λ b. ok b) not_fit in
            elim (find_fitting-cases P selected ranked found h
              (sym (find_fitting-miss selected i x ranked miss) ∙ e)) [
                | inl (nothing, others) ↦ inl (nothing, (miss, others))
                | inr later ↦ inr later
              ]
      ]

  -- The episodes that were selected fit together, the others are left, and each of these would be too
  -- much.
  pub record Selection (episodes selected : List CausalEpisode) : Type 0 where
    pub left : List CausalEpisode
    pub parts : Perm (selected ++ left) episodes
    pub fitting : (selected ≡ []) ⊎ (fits selected ≡ ok true)
    pub full : All (λ e. fits (selected ++ e ∷ []) ≡ ok false) left

  -- One round of the loop.
  select_from-found :
      (fuel : ℕ) (remaining selected result : List CausalEpisode) (covered : List Text)
      → select_from fits (suc fuel) remaining selected covered ≡ ok result
      → (found : Option (ℕ × CausalEpisode)) × (find_fitting fits selected
            (sort (compare_ranked covered) (indexed 0 remaining))
          ≡ ok found)
  unfolding select_from
  select_from-found fuel remaining selected result covered e =
      let (found, h, _) =
        >>=-eq-ok (find_fitting fits selected (sort (compare_ranked covered) (indexed 0 remaining)))
          e in
      (found, h)

  pub select_from-stop :
      (fuel : ℕ) (remaining selected : List CausalEpisode) (covered : List Text)
      → find_fitting fits selected (sort (compare_ranked covered) (indexed 0 remaining)) ≡ ok none
      → select_from fits (suc fuel) remaining selected covered ≡ ok selected
  unfolding select_from
  select_from-stop fuel remaining selected covered h = rw h

  pub select_from-step :
      (fuel : ℕ) (remaining selected : List CausalEpisode) (covered : List Text) (i : ℕ)
      (e : CausalEpisode)
      → find_fitting fits selected (sort (compare_ranked covered) (indexed 0 remaining))
        ≡ ok (some (i, e))
      → select_from fits (suc fuel) remaining selected covered
        ≡ select_from fits fuel
            (remove_at i remaining)
            (selected ++ e ∷ [])
            (covered ++ all_dimensions e)
  unfolding select_from
  select_from-step fuel remaining selected covered i e h = rw h

  select_from-zero :
      (remaining selected result : List CausalEpisode) (covered : List Text)
      → select_from fits zero remaining selected covered ≡ ok result
      → selected ≡ result
  unfolding select_from
  select_from-zero remaining selected result covered e = cc e

  select_from-Selection :
      (fuel : ℕ) (remaining selected result : List CausalEpisode) (covered : List Text)
      (episodes : List CausalEpisode)
      → length remaining ≤ fuel
      → Perm (selected ++ remaining) episodes
      → (selected ≡ []) ⊎ (fits selected ≡ ok true)
      → select_from fits fuel remaining selected covered ≡ ok result
      → Selection episodes result
  select_from-Selection zero [] selected result covered episodes n p f e =
      subst (Selection episodes) (select_from-zero [] selected result covered e)
        (record { left = []; parts = p; fitting = f; full = tt })
  select_from-Selection zero (x ∷ remaining) selected result covered episodes n p f e =
      absurd (omega arith)
  select_from-Selection (suc fuel) remaining selected result covered episodes n p f e =
      let ranked = sort (compare_ranked covered) (indexed 0 remaining) in
      let order = sort-Perm (compare_ranked covered) (indexed 0 remaining) in
      let (found, searched) = select_from-found fuel remaining selected result covered e in
      elim (find_fitting-cases (IsAt 0 remaining) selected ranked found
        (Perm-All (IsAt 0 remaining) (Perm_sym order) (indexed-IsAt 0 remaining)) searched) [
          | inl (nothing, others) ↦
              let stop =
                select_from-stop fuel remaining selected covered
                  (searched ∙ ap (λ r. ok r) nothing) in
              subst (Selection episodes) (ok_inj (sym stop ∙ e)) (record {
                left = remaining;
                parts = p;
                fitting = f;
                full =
                    All-indexed (λ x. fits (selected ++ x ∷ []) ≡ ok false) 0 remaining
                      (Perm-All (λ x. fits (selected ++ x.1 ∷ []) ≡ ok false) order others);
              })
          | inr ((i, x), hit, (k, at, got), fit) ↦
              let index : k ≡ i = omega arith in
              let (removed, shorter) =
                remove_at-Perm i x remaining
                  (subst (λ m. get_elem? remaining m ≡ some x) index got) in
              let step =
                select_from-step fuel remaining selected covered i x
                  (searched ∙ ap (λ r. ok r) hit) in
              select_from-Selection fuel (remove_at i remaining) (selected ++ x ∷ []) result
                (covered ++ all_dimensions x) episodes (omega arith)
                (subst (λ l. Perm l episodes)
                  (sym (append_assoc selected (x ∷ []) (remove_at i remaining)))
                  (trans (Perm-append selected removed) p))
                (inr fit) (sym step ∙ e)
        ]

  -- What is selected of the completed episodes fits, if it is anything; and each episode that is left
  -- would be too much beside it.
  pub select_complete_episodes-Selection :
      (episodes selected : List CausalEpisode)
      → select_complete_episodes fits episodes ≡ ok selected
      → Selection episodes selected
  unfolding select_complete_episodes
  select_complete_episodes-Selection episodes selected e =
      select_from-Selection (length episodes) episodes [] selected [] episodes (omega arith)
        (Perm_refl episodes) (inl refl) e
