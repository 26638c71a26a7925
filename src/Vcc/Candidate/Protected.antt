-- ===== src/Vcc/Candidate/Protected.antt =====
-- src/vcc.ts: what a candidate protects, and what `compileVccCandidate` returns.
use opencode_better_compact.Base.{
  ok_inj, ℕ, codes, ◌≡◌, refl, ap, ◌∙◌, subst, true, not, ◌||◌, List, ◌++◌, map, keep, any, Text,
  member, distinct, ok, type_error, plain_error, >>=-eq-ok, >>-eq-ok, reject_if,
}
use opencode_better_compact.Vcc.Order.{unique}
use opencode_better_compact.Vcc.Order.Distinct.{Lists, unique_sorted-Lists, distinct-unique}
use opencode_better_compact.Vcc.Candidate.Described.{
  protects, pursues, member-protected, member-goals,
}
use opencode_better_compact.Vcc.Order.Sets.{member-unique}
use opencode_better_compact.Vcc.Event.{CanonicalEvent, Primitives, or_empty, event_ids}
use opencode_better_compact.Vcc.Event.Ids.{normalize_ids, normalize_typed_ids}
use opencode_better_compact.Vcc.Source.{SourceCompleteness, assert_complete_source}
use opencode_better_compact.Vcc.Episode.{CausalEpisode, flat_map}
use opencode_better_compact.Vcc.Candidate.Checks.{
  ordered_source_events, validate_event_payloads, validate_episode_coverage,
}
use opencode_better_compact.Vcc.Candidate.{
  CompileInput, CompileOptions, Checked, plan_of, check_sources, same_episodes, VccCandidate, Plan,
  is_live, is_generated, protected_by, check_limit, prepare, compile_vcc_candidate,
}
use opencode_better_compact.Vcc.Candidate.Laws.{IsCandidate, finish-IsCandidate}

-- What a plan protects and pursues, by the options of the caller and its events and episodes.
pub record IsPlanned (options : CompileOptions) (p : Plan) : Type 0 where
  pub explicit : List Text
  pub explicit_read : normalize_ids (or_empty options.protected_event_ids) ≡ ok explicit
  pub active : List Text
  pub active_read :
      normalize_typed_ids (codes "goal") (or_empty options.active_goal_ids) ≡ ok active
  pub episodes_named : p.explicit_episodes ≡ or_empty options.protected_episode_ids
  pub once : distinct p.protected_ids ≡ true
  pub exact :
      (x : Text)
      → member x p.protected_ids ≡ protects explicit p.explicit_episodes p.events p.episodes x
  pub goals : Lists p.goals (pursues active p.explicit_episodes p.protected_ids p.events p.episodes)

plan_of-IsPlanned :
    (options : CompileOptions) (limit : ℕ) (events : List CanonicalEvent)
    (episodes : List CausalEpisode) (p : Plan)
    → plan_of options limit events episodes ≡ ok p
    → (limit ≡ p.limit) × (events ≡ p.events) × (episodes ≡ p.episodes) × IsPlanned options p
unfolding plan_of
plan_of-IsPlanned options limit events episodes p h =
    let (explicit, explicit_read, h1) =
      >>=-eq-ok (normalize_ids (or_empty options.protected_event_ids)) h in
    let (_, h2) =
      >>-eq-ok (reject_if (any (λ id. not (member id (event_ids events))) explicit) type_error)
        h1 in
    let (_, h3) =
      >>-eq-ok
        (reject_if
          (not (distinct (or_empty options.protected_episode_ids))
            || any (λ id. not (member id (map (λ e. e.id) episodes)))
                (or_empty options.protected_episode_ids))
          type_error)
        h2 in
    let (active, active_read, h4) =
      >>=-eq-ok (normalize_typed_ids (codes "goal") (or_empty options.active_goal_ids)) h3 in
    let same = ok_inj h4 in
    let explicit_episodes = or_empty options.protected_episode_ids in
    let live = keep (is_live explicit_episodes) episodes in
    let ids = explicit ++ (flat_map protected_by events ++ flat_map (λ e. e.event_ids) live) in
    let listed = unique_sorted-Lists (
      active
      ++ (flat_map (λ e. e.goal_ids) (keep (λ e. member e.id (unique ids)) events)
          ++ flat_map (λ e. e.goal_ids) live)) in
    (
      ap (λ q. q.limit) same,
      ap (λ q. q.events) same,
      ap (λ q. q.episodes) same,
      subst (IsPlanned options) same (record {
        explicit = explicit;
        explicit_read = explicit_read;
        active = active;
        active_read = active_read;
        episodes_named = refl;
        once = distinct-unique ids;
        exact = λ x.
            member-unique x ids ∙ member-protected explicit explicit_episodes events episodes x;
        goals = record {
          sorted = listed.sorted;
          once = listed.once;
          exact = λ x.
              listed.exact x ∙ member-goals active explicit_episodes (unique ids) events episodes x;
        };
      }),
    )

checked_eq :
    (k : Checked) (p : Plan)
    → k.limit ≡ p.limit
    → k.events ≡ p.events
    → k.episodes ≡ p.episodes
    → ◌≡◌ {A = Checked} k (record { limit = p.limit; events = p.events; episodes = p.episodes })
checked_eq k p a b c = λ i. record { limit = a i; events = b i; episodes = c i }

module _ (primitives : Primitives) where
  -- The source is complete, and the limit, the events and the episodes are those of the input.
  pub record IsChecked (input : CompileInput) (k : Checked) : Type 0 where
    pub manifest : SourceCompleteness
    pub accepted : assert_complete_source primitives input.source ≡ ok manifest
    pub limited : check_limit input.options.max_bytes ≡ ok k.limit
    pub ordered : ordered_source_events input.events input.source ≡ ok k.events
    pub covered : validate_episode_coverage input.episodes k.events ≡ ok k.episodes

  -- The plan of an input that was checked.
  pub record IsPlan (input : CompileInput) (p : Plan) : Type 0 where
    pub checked :
        IsChecked input (record { limit = p.limit; events = p.events; episodes = p.episodes })
    pub planned : IsPlanned input.options p

  check_sources-IsChecked :
      (input : CompileInput) (k : Checked)
      → check_sources primitives input ≡ ok k
      → IsChecked input k
  unfolding check_sources
  check_sources-IsChecked input k h =
      let (manifest, accepted, h1) = >>=-eq-ok (assert_complete_source primitives input.source) h in
      let (limit, limited, h2) = >>=-eq-ok (check_limit input.options.max_bytes) h1 in
      let (events, ordered, h3) = >>=-eq-ok (ordered_source_events input.events input.source) h2 in
      let (_, h4) = >>-eq-ok (reject_if (any is_generated events) plain_error) h3 in
      let (_, h5) = >>-eq-ok (validate_event_payloads primitives events) h4 in
      let (episodes, covered, h6) =
        >>=-eq-ok (validate_episode_coverage input.episodes events) h5 in
      let (_, h7) = >>-eq-ok (same_episodes primitives events episodes) h6 in
      subst (IsChecked input) (ok_inj h7) (record {
        manifest = manifest;
        accepted = accepted;
        limited = limited;
        ordered = ordered;
        covered = covered;
      })

  prepare-IsPlan :
      (input : CompileInput) (p : Plan) → prepare primitives input ≡ ok p → IsPlan input p
  unfolding prepare
  prepare-IsPlan input p h =
      let (k, checked, h') = >>=-eq-ok (check_sources primitives input) h in
      let (limit, events, episodes, planned) =
        plan_of-IsPlanned input.options k.limit k.events k.episodes p h' in
      record {
        checked =
            subst (IsChecked input) (checked_eq k p limit events episodes)
              (check_sources-IsChecked input k checked);
        planned = planned;
      }

  -- A candidate that `compileVccCandidate` returns is that of a complete source, whose events it takes
  -- in order. It lists as protected, once each, exactly the identities that the caller names, those of
  -- what humans said, of what events supersede and of the events in episodes that stay, which are the
  -- pending ones and those that the caller names; and as live exactly the episodes that stay. Its bytes
  -- are the canonical text of an object that shows the protected events with their contract and
  -- correction chains, the goals, the episodes that stay with those of them that are blocked or
  -- uncertain, the handles for recall, and the selected episodes; they are within the limit and have
  -- the digest that it tells. The selected ones are completed ones without a protected event: with
  -- them the object fits, and with another one added it would not.
  pub compile_vcc_candidate-IsCandidate :
      (input : CompileInput) (c : VccCandidate)
      → compile_vcc_candidate primitives input ≡ ok c
      → (p : Plan) × IsPlan input p × IsCandidate primitives p input.source.digest c
  unfolding compile_vcc_candidate
  compile_vcc_candidate-IsCandidate input c h =
      let (p, prepared, h') = >>=-eq-ok (prepare primitives input) h in
      let plan = prepare-IsPlan input p prepared in
      (p, plan, finish-IsCandidate primitives p input.source.digest c plan.planned.once h')
