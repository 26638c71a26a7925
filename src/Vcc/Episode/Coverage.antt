-- ===== src/Vcc/Episode/Coverage.antt =====
-- src/vcc.ts: the episodes of `formCausalEpisodes` hold each event once.
use opencode_better_compact.Base.{
  ok_inj, ◌≡◌, refl, sym, subst, List, [], ◌∷◌, ◌++◌, map, arith, Text, ok, >>=-eq-ok,
}
use opencode_better_compact.Base.JsMap
use opencode_better_compact.Base.Results.{traverse, traverse-nil, traverse-cons}
use opencode_better_compact.Base.Sort.{
  Perm, Perm_refl, Perm_sym, Perm_middle, Perm-append, Perm-map, skip, trans, sort, sort-Perm,
}
use opencode_better_compact.Base.Sort
use mathlib.Core.List.{map-append}
use opencode_better_compact.Vcc.Event.{CanonicalEvent, Primitives, compare_events, event_ids}
use opencode_better_compact.Vcc.Serialize.{canonical_serialize}
use opencode_better_compact.Vcc.Episode.{
  CausalEpisode, episode_body, body_value, compare_episodes, mark, build_causal_episode,
  form_causal_episodes, flat_map, group_from,
}
use opencode_better_compact.Vcc.Episode.Groups.{group_from-IsGrouping}

Perm_exchange {ℓ} : {A : Type ℓ} (xs ys zs : List A) → Perm (xs ++ (ys ++ zs)) (ys ++ (xs ++ zs))
Perm_exchange [] ys zs = Perm_refl (ys ++ zs)
Perm_exchange (x ∷ xs) ys zs =
    trans (skip x (Perm_exchange xs ys zs)) (Perm_sym (Perm_middle x ys (xs ++ zs)))

pub Perm-flat_map {ℓ κ} :
    {A : Type ℓ} {B : Type κ} (f : A → List B) {xs ys : List A}
    → Perm xs ys
    → Perm (flat_map f xs) (flat_map f ys)
Perm-flat_map f Sort.nil = Sort.nil
Perm-flat_map f (Sort.skip x p) = Perm-append (f x) (Perm-flat_map f p)
Perm-flat_map f (Sort.swap x y xs) = Perm_exchange (f x) (f y) (flat_map f xs)
Perm-flat_map f (Sort.trans p q) = trans (Perm-flat_map f p) (Perm-flat_map f q)

Perm-append_right {ℓ} :
    {A : Type ℓ} {xs ys : List A} (zs : List A) → Perm xs ys → Perm (xs ++ zs) (ys ++ zs)
Perm-append_right zs Sort.nil = Perm_refl zs
Perm-append_right zs (Sort.skip x p) = skip x (Perm-append_right zs p)
Perm-append_right zs (Sort.swap x y xs) = Sort.swap x y (xs ++ zs)
Perm-append_right zs (Sort.trans p q) = trans (Perm-append_right zs p) (Perm-append_right zs q)

map-flat_map {ℓ κ} :
    {A : Type ℓ} {B : Type κ} (f : A → B) (xss : List (List A))
    → map f (flat_map (λ xs. xs) xss) ≡ flat_map (map f) xss
map-flat_map f [] = refl
map-flat_map f (xs ∷ xss) = rw (map-append f xs (flat_map (λ xs. xs) xss), map-flat_map f xss)

mark-event_ids : (ids : List Text) (e : CausalEpisode) → (mark ids e).event_ids ≡ e.event_ids
unfolding mark
mark-event_ids ids e = ground arith

flat_map-mark :
    (ids : List Text) (es : List CausalEpisode)
    → flat_map (λ e. e.event_ids) (map (mark ids) es) ≡ flat_map (λ e. e.event_ids) es
flat_map-mark ids [] = refl
flat_map-mark ids (e ∷ es) = rw (mark-event_ids ids e, flat_map-mark ids es)

episode_body-event_ids :
    (events : List CanonicalEvent) → (episode_body events).event_ids ≡ event_ids events
unfolding episode_body
episode_body-event_ids events = refl

module _ (primitives : Primitives) where
  -- An episode is the body of the sorted group, with an identity.
  pub build_causal_episode-eq :
      (group : List CanonicalEvent) (e : CausalEpisode)
      → build_causal_episode primitives group ≡ ok e
      → (id : Text) × (record (episode_body (sort compare_events group)) { id = id } ≡ e)
  unfolding build_causal_episode
  build_causal_episode-eq group e h =
      let (text, _, h') =
        >>=-eq-ok
          (canonical_serialize primitives.print_double
            (body_value (episode_body (sort compare_events group))))
          h in
      (_, ok_inj h')

  build-Perm :
      (group : List CanonicalEvent) (e : CausalEpisode)
      → build_causal_episode primitives group ≡ ok e
      → Perm e.event_ids (event_ids group)
  build-Perm group e h =
      let (id, same) = build_causal_episode-eq group e h in
      subst (λ x. Perm x.event_ids (event_ids group)) same
        (subst (λ l. Perm l (event_ids group))
          (sym (episode_body-event_ids (sort compare_events group)))
          (Perm-map (λ e. e.id) (sort-Perm compare_events group)))

  traverse-Perm_ids :
      (groups : List (List CanonicalEvent)) (es : List CausalEpisode)
      → traverse (build_causal_episode primitives) groups ≡ ok es
      → Perm (flat_map (λ e. e.event_ids) es) (flat_map event_ids groups)
  traverse-Perm_ids [] es h =
      subst (λ l. Perm (flat_map (λ e. e.event_ids) l) [])
        (traverse-nil (build_causal_episode primitives) es h) (Perm_refl [])
  traverse-Perm_ids (group ∷ groups) es h =
      let (e, rest, first, later, same) =
        traverse-cons (build_causal_episode primitives) group groups es h in
      subst
        (λ l. Perm (flat_map (λ e. e.event_ids) l) (event_ids group ++ flat_map event_ids groups))
        same
        (trans (Perm-append e.event_ids (traverse-Perm_ids groups rest later))
          (Perm-append_right (flat_map event_ids groups) (build-Perm group e first)))

  -- The episodes hold the identities of the events, each as often as the events do.
  pub form_causal_episodes-Perm :
      (events : List CanonicalEvent) (es : List CausalEpisode)
      → form_causal_episodes primitives events ≡ ok es
      → Perm (flat_map (λ e. e.event_ids) es) (event_ids events)
  unfolding form_causal_episodes
  form_causal_episodes-Perm events es h =
      let groups = JsMap.values (group_from [] events) in
      let (built, each, h') = >>=-eq-ok (traverse (build_causal_episode primitives) groups) h in
      let ids = flat_map (λ e. e.supersedes_event_ids) events in
      let same : sort compare_episodes (map (mark ids) built) ≡ es = ok_inj h' in
      let sorted : Perm es (map (mark ids) built) =
        subst (λ l. Perm l (map (mark ids) built)) same
          (sort-Perm compare_episodes (map (mark ids) built)) in
      let marked =
        subst (λ l. Perm (flat_map (λ e. e.event_ids) es) l) (flat_map-mark ids built)
          (Perm-flat_map (λ e. e.event_ids) sorted) in
      let grouped =
        subst (λ l. Perm l (event_ids events)) (map-flat_map (λ e. e.id) groups)
          (Perm-map (λ e. e.id) (group_from-IsGrouping events).whole) in
      trans marked (trans (traverse-Perm_ids groups built each) grouped)
