-- ===== src/Vcc/Episode/Keys.antt =====
-- src/vcc.ts: the keys of the groups of `formCausalEpisodes`: one for each pair of a scope, and one for each
-- event of no pair.
use opencode_better_compact.Base.{
  ℕ, ◌≡◌, ◌≢◌, ◌↔◌, refl, ap, sym, ◌∙◌, Option, none, some, [], ◌∷◌, ◌++◌, append_assoc, arith,
  Text, codes, All,
}
use opencode_better_compact.Vcc.Event.{CanonicalEvent}
use opencode_better_compact.Vcc.Episode.{scope_key, pair_key, group_key}

abbrev pub NulFree : Text → Type 0
NulFree t = All (λ c. c ≢ 0) t

split_at_nul :
    (s t u v : Text) → NulFree s → NulFree t → s ++ 0 ∷ u ≡ t ++ 0 ∷ v → (s ≡ t) × (u ≡ v)
split_at_nul [] [] u v h k e = (refl, cc e)
split_at_nul [] (c ∷ t) u v h (p, k) e = ground arith
split_at_nul (c ∷ s) [] u v (p, h) k e = ground arith
split_at_nul (c ∷ s) (d ∷ t) u v (p, h) (q, k) e =
    let tails : s ++ 0 ∷ u ≡ t ++ 0 ∷ v = cc e in
    let heads : c ≡ d = cc e in
    let (same, rest) = split_at_nul s t u v h k tails in (cc (heads, same), rest)

-- The same host, session and lineage.
pub record SameScope (a b : CanonicalEvent) : Type 0 where
  pub host : a.host ≡ b.host
  pub session : a.session_id ≡ b.session_id
  pub lineage : a.lineage_id ≡ b.lineage_id

-- One pair, or one event of no pair.
pub record SameUnit (a b : CanonicalEvent) : Type 0 where
  pub pair : a.pair_id ≡ b.pair_id
  pub alone : a.pair_id ≡ none → a.id ≡ b.id

-- The names of an event's scope contain no NUL.
pub record HasScope (e : CanonicalEvent) : Type 0 where
  pub host : NulFree e.host
  pub session : NulFree e.session_id
  pub lineage : NulFree e.lineage_id

group_key-parts :
    (e : CanonicalEvent)
    → group_key e ≡ e.host ++ 0 ∷ (e.session_id ++ 0 ∷ (e.lineage_id ++ 0 ∷ pair_key e e.pair_id))
unfolding group_key scope_key
group_key-parts e = simp append_assoc

heads_eq : {c d : ℕ} {s t : Text} → c ∷ s ≡ d ∷ t → c ≡ d
heads_eq e = cc

SameUnit-pair_key :
    (a b : CanonicalEvent) (p q : Option Text)
    → p ≡ q
    → (p ≡ none → a.id ≡ b.id)
    → pair_key a p ≡ pair_key b q
SameUnit-pair_key a b none none e h = ap (λ id. codes "event:" ++ id) (h refl)
SameUnit-pair_key a b none (some q) e h = cc
SameUnit-pair_key a b (some p) none e h = cc
SameUnit-pair_key a b (some p) (some q) e h = ground arith

pair_key-SameUnit :
    (a b : CanonicalEvent) (p q : Option Text)
    → pair_key a p ≡ pair_key b q
    → (p ≡ q) × (p ≡ none → a.id ≡ b.id)
unfolding codes
pair_key-SameUnit a b none none e = (refl, λ _. cc e)
pair_key-SameUnit a b none (some q) e = absurd (omega (arith, heads_eq e))
pair_key-SameUnit a b (some p) none e = absurd (omega (arith, heads_eq e))
pair_key-SameUnit a b (some p) (some q) e = ground arith

-- Two events whose scopes have names without NUL have one key exactly when they are of one scope and
-- one pair, or are one event of one scope that is of no pair.
pub group_key_iff :
    (a b : CanonicalEvent)
    → HasScope a
    → HasScope b
    → (group_key a ≡ group_key b) ↔ (SameScope a b × SameUnit a b)
group_key_iff a b h k = (to, from)
  where
    to : group_key a ≡ group_key b → SameScope a b × SameUnit a b
    to e =
        let parts = sym (group_key-parts a) ∙ e ∙ group_key-parts b in
        let (host, e1) = split_at_nul a.host b.host _ _ h.host k.host parts in
        let (session, e2) = split_at_nul a.session_id b.session_id _ _ h.session k.session e1 in
        let (lineage, e3) = split_at_nul a.lineage_id b.lineage_id _ _ h.lineage k.lineage e2 in
        let (pair, alone) = pair_key-SameUnit a b a.pair_id b.pair_id e3 in
        (
          record { host = host; session = session; lineage = lineage },
          record { pair = pair; alone = alone },
        )

    from : SameScope a b × SameUnit a b → group_key a ≡ group_key b
    from (s, u) =
        let unit = SameUnit-pair_key a b a.pair_id b.pair_id u.pair u.alone in
        let whole : a.host ++ 0 ∷ (a.session_id ++ 0 ∷ (a.lineage_id ++ 0 ∷ pair_key a a.pair_id))
            ≡ b.host ++ 0 ∷ (b.session_id ++ 0 ∷ (b.lineage_id ++ 0 ∷ pair_key b b.pair_id)) =
          cc (s.host, s.session, s.lineage, unit) in
        group_key-parts a ∙ whole ∙ sym (group_key-parts b)
