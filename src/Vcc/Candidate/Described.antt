-- ===== src/Vcc/Candidate/Described.antt =====
-- src/vcc.ts: what a candidate has to hold, said of its source's events and episodes
-- (`compileVccCandidate`).
use opencode_better_compact.Base.{
  ◌≡◌, refl, sym, ap, ◌∙◌, Bool, true, false, not, ◌&&◌, ◌||◌, List, [], ◌∷◌, ◌++◌, keep, any,
  arith, is_empty, Text, codes, eq_text, member, if◌then◌else◌,
}
use opencode_better_compact.Vcc.Order.Distinct.{member-append}
use opencode_better_compact.Vcc.Event.{CanonicalEvent}
use opencode_better_compact.Vcc.Episode.{
  CausalEpisode, Status, opened, completed, blocked, superseded, uncertain, flat_map,
}
use opencode_better_compact.Vcc.Candidate.{
  is_human, is_live, protected_by, needs_attention, blocks, is_completed,
}

-- A human said this.
abbrev pub said : CanonicalEvent → Bool
said e = member e.provenance (
    codes "human_direct"
    ∷ codes "human_tool_answer"
    ∷ codes "human_approval"
    ∷ codes "human_rejection"
    ∷ [])

-- Not yet completed, and not superseded.
abbrev pub pending : Status → Bool
pending completed = false
pending superseded = false
pending _ = true

-- Pending, or named by the caller.
abbrev pub stays : List Text → CausalEpisode → Bool
stays named e = pending e.status || member e.id named

-- Pending, and more than open.
abbrev pub stuck : Status → Bool
stuck opened = false
stuck completed = false
stuck superseded = false
stuck blocked = true
stuck uncertain = true

abbrev pub done : Status → Bool
done completed = true
done _ = false

-- Completed, with no protected event.
abbrev pub optional : List Text → CausalEpisode → Bool
optional protected e = done e.status && not (any (λ id. member id protected) e.event_ids)

-- The event supersedes another one, or is superseded.
abbrev pub revises : List CanonicalEvent → CanonicalEvent → Bool
revises events e =
    not (is_empty e.supersedes_event_ids) || any (λ c. member e.id c.supersedes_event_ids) events

pub stuck-blocks : (s : Status) → blocks s ≡ stuck s
stuck-blocks opened = refl
stuck-blocks completed = refl
stuck-blocks superseded = refl
stuck-blocks blocked = refl
stuck-blocks uncertain = refl

-- Protected are the identities that the caller names, those of what humans said, of what events
-- supersede, and of the events in episodes that stay.
abbrev pub protects : List Text → List Text → List CanonicalEvent → List CausalEpisode → Text → Bool
protects explicit named events episodes x =
    member x explicit
    || (any (λ e. said e && eq_text x e.id || member x e.supersedes_event_ids) events
        || any (λ e. stays named e && member x e.event_ids) episodes)

-- The goals are those that the caller names, those of protected events and of episodes that stay.
abbrev pub pursues :
    List Text → List Text → List Text → List CanonicalEvent → List CausalEpisode → Text → Bool
pursues active named protected events episodes x =
    member x active
    || (any (λ e. member e.id protected && member x e.goal_ids) events
        || any (λ e. stays named e && member x e.goal_ids) episodes)

pub stays-is_live : (named : List Text) (e : CausalEpisode) → is_live named e ≡ stays named e
stays-is_live named e = ap (λ b. b || member e.id named) (same e.status)
  where
    same : (s : Status) → needs_attention s ≡ pending s
    same opened = refl
    same completed = refl
    same blocked = refl
    same superseded = refl
    same uncertain = refl

pub said-is_human : (e : CanonicalEvent) → is_human e ≡ said e
unfolding member
said-is_human e = ground arith

member-protected_by :
    (x : Text) (e : CanonicalEvent)
    → member x (protected_by e) ≡ (said e && eq_text x e.id || member x e.supersedes_event_ids)
unfolding member
member-protected_by x e =
    member-append x (if is_human e then e.id ∷ [] else []) e.supersedes_event_ids
    ∙ ap (λ b. b || member x e.supersedes_event_ids)
        (by_human (is_human e) (said e) (said-is_human e))
  where
    by_human : (a b : Bool) → a ≡ b → member x (if a then e.id ∷ [] else []) ≡ (b && eq_text x e.id)
    by_human a b h = ground arith

pub any-eq {ℓ} :
    {A : Type ℓ} (p q : A → Bool) → ((a : A) → p a ≡ q a) → (xs : List A) → any p xs ≡ any q xs
any-eq p q h [] = refl
any-eq p q h (x ∷ xs) = λ i. h x i || any-eq p q h xs i

pub member-flat_map {ℓ} :
    {A : Type ℓ} (x : Text) (f : A → List Text) (xs : List A)
    → member x (flat_map f xs) ≡ any (λ a. member x (f a)) xs
unfolding member
member-flat_map x f [] = refl
member-flat_map x f (a ∷ xs) =
    member-append x (f a) (flat_map f xs) ∙ ap (λ b. member x (f a) || b) (member-flat_map x f xs)

member-flat_keep {ℓ} :
    {A : Type ℓ} (x : Text) (p : A → Bool) (f : A → List Text) (xs : List A)
    → member x (flat_map f (keep p xs)) ≡ any (λ a. p a && member x (f a)) xs
unfolding member
member-flat_keep x p f [] = refl
member-flat_keep x p f (a ∷ xs) =
    ground (arith, member-flat_keep x p f xs, member-append x (f a) (flat_map f (keep p xs)))

or_three : {a a' b b' c c' : Bool} → a ≡ a' → b ≡ b' → c ≡ c' → (a || (b || c)) ≡ (a' || (b' || c'))
or_three p q r = λ i. p i || (q i || r i)

member_three :
    (x : Text) (us vs ws : List Text)
    → member x (us ++ (vs ++ ws)) ≡ (member x us || (member x vs || member x ws))
member_three x us vs ws = rw (member-append x us (vs ++ ws), member-append x vs ws)

pub member-protected :
    (explicit named : List Text) (events : List CanonicalEvent) (episodes : List CausalEpisode)
    (x : Text)
    → member x (
        explicit
        ++ (flat_map protected_by events
            ++ flat_map (λ e. e.event_ids) (keep (is_live named) episodes)))
      ≡ protects explicit named events episodes x
member-protected explicit named events episodes x =
    member_three x explicit (flat_map protected_by events)
      (flat_map (λ e. e.event_ids) (keep (is_live named) episodes))
    ∙ or_three refl
        (member-flat_map x protected_by events ∙ any-eq _ _ (member-protected_by x) events)
        (member-flat_keep x (is_live named) (λ e. e.event_ids) episodes
          ∙ any-eq _ _ (λ e. ap (λ b. b && member x e.event_ids) (stays-is_live named e)) episodes)

pub member-goals :
    (active named protected : List Text) (events : List CanonicalEvent)
    (episodes : List CausalEpisode) (x : Text)
    → member x (
        active
        ++ (flat_map (λ e. e.goal_ids) (keep (λ e. member e.id protected) events)
            ++ flat_map (λ e. e.goal_ids) (keep (is_live named) episodes)))
      ≡ pursues active named protected events episodes x
member-goals active named protected events episodes x =
    member_three x active (flat_map (λ e. e.goal_ids) (keep (λ e. member e.id protected) events))
      (flat_map (λ e. e.goal_ids) (keep (is_live named) episodes))
    ∙ or_three refl (member-flat_keep x (λ e. member e.id protected) (λ e. e.goal_ids) events) (
        member-flat_keep x (is_live named) (λ e. e.goal_ids) episodes
        ∙ any-eq _ _ (λ e. ap (λ b. b && member x e.goal_ids) (stays-is_live named e)) episodes)

pub keep-eq {ℓ} :
    {A : Type ℓ} (p q : A → Bool) → ((a : A) → p a ≡ q a) → (xs : List A) → keep p xs ≡ keep q xs
keep-eq p q h [] = refl
keep-eq p q h (x ∷ xs) = λ i. if h x i then x ∷ keep-eq p q h xs i else keep-eq p q h xs i

pub optional-eq :
    (protected ids : List Text) (e : CausalEpisode)
    → ((x : Text) → member x ids ≡ member x protected)
    → (is_completed e.status && not (any (λ id. member id protected) e.event_ids)) ≡ optional ids e
optional-eq protected ids e exact = λ i.
    same e.status i
    && not (
        any-eq (λ id. member id protected) (λ id. member id ids) (λ x. sym (exact x)) e.event_ids i)
  where
    same : (s : Status) → is_completed s ≡ done s
    same completed = refl
    same opened = refl
    same blocked = refl
    same superseded = refl
    same uncertain = refl
