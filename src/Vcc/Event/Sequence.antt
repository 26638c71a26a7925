-- ===== src/Vcc/Event/Sequence.antt =====
-- src/vcc.ts: the events of `normalizeCanonicalEvents` stand in one order, whatever the order of the
-- inputs.
use Prim.Native.Nat.{Ordering}
use opencode_better_compact.Base.{
  ◌≡◌, ◌≢◌, sym, ◌∙◌, subst, true, false, List, [], ◌∷◌, arith, Text, ok, >>=-eq-ok, >>-eq-ok, All,
  member, member_later, member_here,
}
use opencode_better_compact.Base.Results.{traverse, traverse-Perm}
use opencode_better_compact.Base.Sort.{IsPreorder, Perm, Apart, Ascending, sort, sort-Perm}
use opencode_better_compact.Base.Sort.Laws.{sort_of_Perm, Perm-Apart, sort-Ascending}
use opencode_better_compact.Vcc.Order.{compare_code_points}
use opencode_better_compact.Vcc.Order.Laws.{
  IsText, compare_code_points-IsPreorder, compare_code_points-eq,
}
use opencode_better_compact.Vcc.Event.{
  CanonicalEvent, CanonicalEventInput, Primitives, compare_events, require_distinct,
  normalize_canonical_event, normalize_canonical_events,
}

pub compare_events-IsPreorder : IsPreorder CanonicalEvent compare_events
unfolding compare_events
compare_events-IsPreorder = record {
  flip = λ a b h. ground (arith, compare_code_points-IsPreorder.flip a.id b.id);
  flop = λ a b h. ground (arith, compare_code_points-IsPreorder.flop a.id b.id);
  le_trans = λ a b c h k. ground (arith, compare_code_points-IsPreorder.le_trans a.id b.id c.id);
}

pub compare_events-eq :
    (a b : CanonicalEvent)
    → compare_events a b ≡ Ordering.eq
    → compare_code_points a.id b.id ≡ Ordering.eq
unfolding compare_events
compare_events-eq a b h = ground arith

-- One step of the loop that throws at a repeated identity.
require_distinct-cons :
    (e : CanonicalEvent) (seen : List Text) (es : List CanonicalEvent)
    → require_distinct seen (e ∷ es) ≡ ok tt
    → (member e.id seen ≡ false) × (require_distinct (e.id ∷ seen) es ≡ ok tt)
unfolding require_distinct
require_distinct-cons e seen es h = ground arith

abbrev pub HasText : CanonicalEvent → Type 0
HasText e = IsText e.id

require_distinct-unseen :
    (a : CanonicalEvent) (seen : List Text) (es : List CanonicalEvent)
    → member a.id seen ≡ true
    → HasText a
    → All HasText es
    → require_distinct seen es ≡ ok tt
    → All (λ b. compare_events a b ≢ Ordering.eq) es
require_distinct-unseen a seen [] m t h d = tt
require_distinct-unseen a seen (b ∷ es) m t (u, h) d =
    let (new, rest) = require_distinct-cons b seen es d in
    (
      (λ e. ground (arith, compare_code_points-eq a.id b.id t u (compare_events-eq a b e))),
      require_distinct-unseen a (b.id ∷ seen) es (member_later a.id b.id seen m) t h rest,
    )

pub require_distinct-Apart :
    (seen : List Text) (es : List CanonicalEvent)
    → All HasText es
    → require_distinct seen es ≡ ok tt
    → Apart compare_events es
require_distinct-Apart seen [] h d = tt
require_distinct-Apart seen (e ∷ es) (t, h) d =
    let (new, rest) = require_distinct-cons e seen es d in
    (
      require_distinct-unseen e (e.id ∷ seen) es (member_here e.id seen) t h rest,
      require_distinct-Apart (e.id ∷ seen) es h rest,
    )

Apart-of :
    (es events : List CanonicalEvent)
    → All HasText events
    → require_distinct [] events ≡ ok tt
    → sort compare_events es ≡ events
    → Apart compare_events es
Apart-of es events t distinct sorted =
    Perm-Apart compare_events compare_events-IsPreorder (sort-Perm compare_events es)
      (subst (Apart compare_events) (sym sorted) (require_distinct-Apart [] events t distinct))

module _ (primitives : Primitives) where
  -- The parts of a successful call.
  normalized :
      (inputs : List CanonicalEventInput) (events : List CanonicalEvent)
      → normalize_canonical_events primitives inputs ≡ ok events
      → (es : List CanonicalEvent) × (traverse (normalize_canonical_event primitives) inputs
          ≡ ok es)
        × (require_distinct [] events ≡ ok tt)
        × (sort compare_events es ≡ events)
  unfolding normalize_canonical_events
  normalized inputs events h =
      let (es, each, h') = >>=-eq-ok (traverse (normalize_canonical_event primitives) inputs) h in
      let (distinct, same) = >>-eq-ok (require_distinct [] (sort compare_events es)) h' in
      let sorted : sort compare_events es ≡ events = cc same in
      (es, each, subst (λ l. require_distinct [] l ≡ ok tt) sorted distinct, sorted)

  -- Where inputs are normalized to events whose identities are strings, the same inputs in another
  -- order are normalized to the same events in the same order.
  pub normalize_canonical_events-Perm :
      {inputs inputs' : List CanonicalEventInput} (events : List CanonicalEvent)
      → All HasText events
      → Perm inputs inputs'
      → normalize_canonical_events primitives inputs ≡ ok events
      → normalize_canonical_events primitives inputs' ≡ ok events
  unfolding normalize_canonical_events
  normalize_canonical_events-Perm {inputs} {inputs'} events t p h =
      let (es, each, distinct, sorted) = normalized inputs events h in
      let (es', each', q) = traverse-Perm (normalize_canonical_event primitives) es p each in
      let apart = Apart-of es events t distinct sorted in
      let same : sort compare_events es' ≡ events =
        sym (sort_of_Perm compare_events compare_events-IsPreorder q apart) ∙ sorted in
      rw (each', same, distinct)

  -- The events are the normal forms of the inputs, one of each; if their identities are strings, they
  -- ascend strictly by sequence and then identity.
  pub normalize_canonical_events-Ascending :
      (inputs : List CanonicalEventInput) (events : List CanonicalEvent)
      → normalize_canonical_events primitives inputs ≡ ok events
      → ((es : List CanonicalEvent) × (traverse (normalize_canonical_event primitives) inputs
            ≡ ok es)
          × Perm events es)
        × (All HasText events → Ascending compare_events events)
  normalize_canonical_events-Ascending inputs events h =
      let (es, each, distinct, sorted) = normalized inputs events h in
      (
        (es, each, subst (λ l. Perm l es) sorted (sort-Perm compare_events es)),
        λ t. subst (Ascending compare_events) sorted (
            sort-Ascending compare_events compare_events-IsPreorder es
              (Apart-of es events t distinct sorted)),
      )
