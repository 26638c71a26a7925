-- ===== src/Vcc/Candidate/Laws.antt =====
-- src/vcc.ts: what a candidate of `compileVccCandidate` is.
use opencode_better_compact.Base.{
  arith, ℕ, not, leb, Result, throw, ◌>>=◌, ◌≤◌, ◌≡◌, refl, ap, ◌∙◌, subst, true, Bool, List, [],
  map, keep, any, Text, eq_text, member, distinct, ltb, ltb→le, ok, ok_inj, range_error, >>=-eq-ok,
  >>-eq-ok, reject_if, reject_if-ok,
}
use opencode_better_compact.Base.Sort.{Sorted, sort, sort-Perm}
use opencode_better_compact.Base.Sort.Laws.{sort-Sorted}
use opencode_better_compact.Base.Value.{obj, Items, Fields}
use opencode_better_compact.Utf8.{utf8_bytes}
use opencode_better_compact.Vcc.Order.{compare_code_points}
use opencode_better_compact.Vcc.Order.Laws.{compare_code_points-IsPreorder}
use opencode_better_compact.Vcc.Order.Distinct.{Lists, sort-Lists, Perm-member, member-map}
use opencode_better_compact.Vcc.Event.{Primitives}
use opencode_better_compact.Vcc.Episode.{CausalEpisode}
use opencode_better_compact.Vcc.Select.{select_complete_episodes}
use opencode_better_compact.Vcc.Select.Laws.{Selection, select_complete_episodes-Selection}
use opencode_better_compact.Vcc.Candidate.{
  VccCandidate, Plan, is_live, live_of, completed_of, source_digest_map, candidate_fields,
  candidate_text, trial_fits, serialize, finish,
}
use opencode_better_compact.Vcc.Candidate.Described.{
  stays, optional, optional-eq, stays-is_live, keep-eq,
}
use opencode_better_compact.Vcc.Candidate.Body.{IsBody, fields_shown}
use opencode_better_compact.Vcc.Candidate.Render.{render_episodes}

module _ (primitives : Primitives) where
  -- Whether the object with the given episodes as its selected ones is within the limit.
  abbrev pub within : Plan → Text → Text → Items → Items → List CausalEpisode → Result Bool
  within p manifest_digest index_digest live blockers es = do
    rendered ← render_episodes p.events es
    text ←
        serialize primitives
          (obj (candidate_fields p manifest_digest index_digest live blockers rendered))
    ok (leb (utf8_bytes text) p.limit)

  -- A candidate of a plan: the text of its object, within the limit, the digests, the identities that
  -- it tells, and the episodes that were selected of the completed ones and fill the limit.
  pub record IsCandidate (p : Plan) (manifest_digest : Text) (c : VccCandidate) : Type 0 where
    pub manifest : c.source_manifest_digest ≡ manifest_digest
    pub index_text : Text
    pub indexed : serialize primitives (source_digest_map p) ≡ ok index_text
    pub index : c.source_index_digest ≡ primitives.sha256 index_text
    pub protected : Lists c.protected_event_ids (λ x. member x p.protected_ids)
    pub live_sorted : Sorted compare_code_points c.live_episode_ids
    pub live_exact :
        (x : Text)
        → member x c.live_episode_ids
          ≡ any (λ e. eq_text x e.id) (keep (stays p.explicit_episodes) p.episodes)
    pub live : Items
    pub blockers : Items
    pub selected : List CausalEpisode
    pub body : Fields
    pub is_body : IsBody p c selected live blockers body
    pub written : serialize primitives (obj body) ≡ ok c.bytes
    pub bounded : utf8_bytes c.bytes ≤ p.limit
    pub digested : c.digest ≡ primitives.sha256 c.bytes
    pub named : c.selected_episode_ids ≡ map (λ e. e.id) selected
    pub chosen :
        Selection
          (within p manifest_digest c.source_index_digest live blockers)
          (keep (optional c.protected_event_ids) p.episodes)
          selected

  candidate_text-eq :
      (p : Plan) (d index : Text) (live blockers : Items) (selected : List CausalEpisode)
      (bytes : Text)
      → candidate_text primitives p d index live blockers selected ≡ ok bytes
      → (rendered : Items) × (render_episodes p.events selected ≡ ok rendered)
        × (serialize primitives (obj (candidate_fields p d index live blockers rendered))
            ≡ ok bytes)
  unfolding candidate_text
  candidate_text-eq p d index live blockers selected bytes h =
      >>=-eq-ok (render_episodes p.events selected) h

  live_ids_exact :
      (p : Plan) (x : Text)
      → member x (sort compare_code_points (map (λ e. e.id) (live_of p)))
        ≡ any (λ e. eq_text x e.id) (keep (stays p.explicit_episodes) p.episodes)
  live_ids_exact p x =
      Perm-member x (sort-Perm compare_code_points (map (λ e. e.id) (live_of p)))
      ∙ member-map x (λ e. e.id) (live_of p)
      ∙ ap (any (λ e. eq_text x e.id)) (
          keep-eq (is_live p.explicit_episodes) (stays p.explicit_episodes)
            (stays-is_live p.explicit_episodes) p.episodes)

  not-ltb : (a b : ℕ) → not (ltb a b) ≡ leb b a
  not-ltb a b = ground arith

  trial_fits-within :
      (p : Plan) (d index : Text) (live blockers : Items) (es : List CausalEpisode)
      → trial_fits primitives p d index live blockers es ≡ within p d index live blockers es
  unfolding trial_fits candidate_text
  trial_fits-within p d index live blockers es =
      elim (render_episodes p.events es)
        as (λ r.
          (do
            text ← (do
              rendered ← r
              serialize primitives (obj (candidate_fields p d index live blockers rendered)))
            ok (not (ltb p.limit (utf8_bytes text))))
          ≡ (do
            rendered ← r
            text ← serialize primitives (obj (candidate_fields p d index live blockers rendered))
            ok (leb (utf8_bytes text) p.limit))) [
              | throw e ↦ refl
              | ok rendered ↦ λ i. (do
                text ←
                    serialize primitives (obj (candidate_fields p d index live blockers rendered))
                ok (not-ltb p.limit (utf8_bytes text) i))
            ]

  trials_same :
      (p : Plan) (d index : Text) (live blockers : Items)
      → trial_fits primitives p d index live blockers ≡ within p d index live blockers
  trials_same p d index live blockers = λ i. λ es. trial_fits-within p d index live blockers es i

  optional_same :
      (p : Plan) (ids : List Text)
      → ((x : Text) → member x ids ≡ member x p.protected_ids)
      → completed_of p ≡ keep (optional ids) p.episodes
  optional_same p ids exact =
      keep-eq _ (optional ids) (λ e. optional-eq p.protected_ids ids e exact) p.episodes

  pub finish-IsCandidate :
      (p : Plan) (d : Text) (c : VccCandidate)
      → distinct p.protected_ids ≡ true
      → finish primitives p d ≡ ok c
      → IsCandidate p d c
  unfolding finish
  finish-IsCandidate p d c once h =
      let (index_text, indexed, h1) = >>=-eq-ok (serialize primitives (source_digest_map p)) h in
      let index = primitives.sha256 index_text in
      let (live, live_eq, h2) = >>=-eq-ok (render_episodes p.events (live_of p)) h1 in
      let (blockers, blockers_eq, h3) = >>=-eq-ok (render_episodes p.events _) h2 in
      let (mandatory, _, h4) =
        >>=-eq-ok (candidate_text primitives p d index live blockers []) h3 in
      let (_, h5) = >>-eq-ok (reject_if (ltb p.limit (utf8_bytes mandatory)) range_error) h4 in
      let (selected, chosen, h6) =
        >>=-eq-ok
          (select_complete_episodes (trial_fits primitives p d index live blockers)
            (completed_of p))
          h5 in
      let (bytes, written, h7) =
        >>=-eq-ok (candidate_text primitives p d index live blockers selected) h6 in
      let (room, h8) = >>-eq-ok (reject_if (ltb p.limit (utf8_bytes bytes)) range_error) h7 in
      let (rendered, selected_eq, serialized) =
        candidate_text-eq p d index live blockers selected bytes written in
      let listed = sort-Lists p.protected_ids (λ x. member x p.protected_ids) once (λ x. refl) in
      subst (IsCandidate p d) (ok_inj h8) (record {
        manifest = refl;
        index_text = index_text;
        indexed = indexed;
        index = refl;
        protected = listed;
        live_sorted = sort-Sorted compare_code_points compare_code_points-IsPreorder _;
        live_exact = live_ids_exact p;
        live = live;
        blockers = blockers;
        selected = selected;
        body = candidate_fields p d index live blockers rendered;
        is_body =
            fields_shown p _ selected live blockers rendered listed.exact live_eq blockers_eq
              selected_eq;
        written = serialized;
        bounded = ltb→le p.limit (utf8_bytes bytes) (reject_if-ok _ range_error room);
        digested = refl;
        named = refl;
        chosen =
            subst (λ es. Selection (within p d index live blockers) es selected)
              (optional_same p _ listed.exact)
              (subst (λ trial. Selection trial (completed_of p) selected)
                (trials_same p d index live blockers)
                (select_complete_episodes-Selection (trial_fits primitives p d index live blockers)
                  (completed_of p) selected chosen));
      })
