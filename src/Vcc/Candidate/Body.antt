-- ===== src/Vcc/Candidate/Body.antt =====
-- src/vcc.ts: the object that a candidate is the text of (`compileVccCandidate`).
use opencode_better_compact.Base.{
  ◌≡◌, refl, sym, ap, ◌∙◌, ◌||◌, some, List, map, keep, any, Text, codes, eq_text, member, ok,
}
use opencode_better_compact.Base.Value.{str, arr, Items, Fields, get_field}
use opencode_better_compact.Vcc.Order.Distinct.{Lists, unique_sorted-Lists}
use opencode_better_compact.Vcc.Event.{texts}
use opencode_better_compact.Vcc.Episode.{CausalEpisode, flat_map}
use opencode_better_compact.Vcc.Candidate.{
  VccCandidate, Plan, is_live, is_human, live_of, protected_of, handles_of, blocks,
  candidate_fields,
}
use opencode_better_compact.Vcc.Candidate.Described.{
  stays, stuck, revises, said, stuck-blocks, said-is_human, member-flat_map, stays-is_live, keep-eq,
}
use opencode_better_compact.Vcc.Candidate.Render.{render_event, items_of, render_episodes}

-- The object has an array of these values at the key.
abbrev pub Shows : Fields → Text → Items → Type 0
Shows body key values = get_field key body ≡ some (arr values)

-- The object that a candidate is the text of: the protected events, the episodes that stay and those
-- of them that are stuck, the goals, and the selected episodes.
pub record IsBody (p : Plan) (c : VccCandidate) (selected : List CausalEpisode)
    (live blockers : Items) (body : Fields) : Type 0 where
  pub manifest :
      get_field (codes "source_manifest_digest") body ≡ some (str c.source_manifest_digest)
  pub index : get_field (codes "source_index_digest") body ≡ some (str c.source_index_digest)
  pub protected :
      Shows body
        (codes "protected_events")
        (items_of (map render_event (keep (λ e. member e.id c.protected_event_ids) p.events)))
  pub contract : Shows body (codes "contract_chain") (
      items_of (
        map render_event (
          keep
            (λ e. said e || revises p.events e)
            (keep (λ e. member e.id c.protected_event_ids) p.events))))
  pub corrections : Shows body (codes "correction_chain") (
      items_of (
        map render_event
          (keep (revises p.events) (keep (λ e. member e.id c.protected_event_ids) p.events))))
  pub handles : List Text
  pub handles_listed : Lists handles (λ x. any (λ e. member x e.archive_handles) p.events)
  pub handles_shown : get_field (codes "recall_handles") body ≡ some (texts handles)
  pub goals : get_field (codes "active_goal_ids") body ≡ some (texts p.goals)
  pub live_rendered :
      render_episodes p.events (keep (stays p.explicit_episodes) p.episodes) ≡ ok live
  pub live_shown : Shows body (codes "live_episodes") live
  pub blockers_rendered :
      render_episodes p.events
        (keep (λ e. stuck e.status) (keep (stays p.explicit_episodes) p.episodes))
      ≡ ok blockers
  pub blockers_shown : Shows body (codes "blockers") blockers
  pub rendered : Items
  pub selected_rendered : render_episodes p.events selected ≡ ok rendered
  pub selected_shown : Shows body (codes "selected_episodes") rendered

stuck_same :
    (named : List Text) (es : List CausalEpisode)
    → keep (λ e. blocks e.status) (keep (is_live named) es)
      ≡ keep (λ e. stuck e.status) (keep (stays named) es)
stuck_same named es =
    keep-eq (λ e. blocks e.status) (λ e. stuck e.status) (λ e. stuck-blocks e.status)
      (keep (is_live named) es)
    ∙ ap (keep (λ e. stuck e.status))
        (keep-eq (is_live named) (stays named) (stays-is_live named) es)

pub fields_shown :
    (p : Plan) (c : VccCandidate) (selected : List CausalEpisode) (live blockers rendered : Items)
    → ((x : Text) → member x c.protected_event_ids ≡ member x p.protected_ids)
    → render_episodes p.events (live_of p) ≡ ok live
    → render_episodes p.events (keep (λ e. blocks e.status) (live_of p)) ≡ ok blockers
    → render_episodes p.events selected ≡ ok rendered
    → IsBody p c selected live blockers
        (candidate_fields p c.source_manifest_digest c.source_index_digest live blockers rendered)
unfolding candidate_fields get_field codes eq_text
fields_shown p c selected live blockers rendered exact live_eq blockers_eq selected_eq =
    let live_same =
      keep-eq (is_live p.explicit_episodes) (stays p.explicit_episodes)
        (stays-is_live p.explicit_episodes) p.episodes in
    let same : protected_of p ≡ keep (λ e. member e.id c.protected_event_ids) p.events =
      keep-eq (λ e. member e.id p.protected_ids) (λ e. member e.id c.protected_event_ids)
        (λ e. sym (exact e.id)) p.events in
    let listed = unique_sorted-Lists (flat_map (λ e. e.archive_handles) p.events) in
    record {
      manifest = refl;
      index = refl;
      protected = ap (λ es. some (arr (items_of (map render_event es)))) same;
      contract =
          ap (λ es. some (arr (items_of (map render_event es))))
            (keep-eq (λ e. is_human e || revises p.events e) (λ e. said e || revises p.events e)
                (λ e. ap (λ b. b || revises p.events e) (said-is_human e)) (protected_of p)
              ∙ ap (keep (λ e. said e || revises p.events e)) same);
      corrections =
          ap (λ es. some (arr (items_of (map render_event (keep (revises p.events) es))))) same;
      handles = handles_of p;
      handles_listed = record {
        sorted = listed.sorted;
        once = listed.once;
        exact = λ x. listed.exact x ∙ member-flat_map x (λ e. e.archive_handles) p.events;
      };
      handles_shown = refl;
      goals = refl;
      live_rendered = ap (render_episodes p.events) (sym live_same) ∙ live_eq;
      live_shown = refl;
      blockers_rendered =
          ap (render_episodes p.events) (sym (stuck_same p.explicit_episodes p.episodes))
          ∙ blockers_eq;
      blockers_shown = refl;
      rendered = rendered;
      selected_rendered = selected_eq;
      selected_shown = refl;
    }
