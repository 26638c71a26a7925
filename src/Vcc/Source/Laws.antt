-- ===== src/Vcc/Source/Laws.antt =====
-- src/vcc.ts: what the scan of a source finds: events of another scope and repeated identities.
use opencode_better_compact.Base.{
  ◌≡◌, ◌≢◌, refl, sym, ◌↔◌, true, false, Option, none, List, [], ◌∷◌, arith, Text, member,
  eq_text_iff, member_later, member_here, All,
}
use opencode_better_compact.Base.Sort.{
  Perm, Perm_sym, Perm-All, Pairwise, Perm-Pairwise, sort, sort-Perm,
}
use opencode_better_compact.Vcc.Reason.{SourceIncompleteReason}
use opencode_better_compact.Vcc.Event.{CanonicalEvent, compare_events}
use opencode_better_compact.Vcc.Source.{
  Cursor, SourceInput, is_terminal, initial_reason, in_scope, scan,
}

abbrev pub InScope : SourceInput → CanonicalEvent → Type 0
InScope input e = in_scope input e ≡ true

abbrev pub Differ : CanonicalEvent → CanonicalEvent → Type 0
Differ a b = a.id ≢ b.id

-- No event has an identity that was seen.
abbrev Fresh : List Text → List CanonicalEvent → Type 0
Fresh seen [] = Unit
Fresh seen (e ∷ es) = (member e.id seen ≡ false) × Fresh (e.id ∷ seen) es

scan-none :
    (input : SourceInput) (seen : List Text) (r : Option SourceIncompleteReason)
    (es : List CanonicalEvent)
    → scan input seen r es ≡ none
    → (r ≡ none) × All (InScope input) es × Fresh seen es
unfolding scan
scan-none input seen r [] h = (h, tt, tt)
scan-none input seen r (e ∷ es) h = ground (arith, scan-none input (e.id ∷ seen) _ es h)

scan-Fresh :
    (input : SourceInput) (seen : List Text) (es : List CanonicalEvent)
    → All (InScope input) es
    → Fresh seen es
    → scan input seen none es ≡ none
unfolding scan
scan-Fresh input seen [] h f = refl
scan-Fresh input seen (e ∷ es) (s, h) (f, g) = rw (s, f) (scan-Fresh input (e.id ∷ seen) es h g)

Fresh-unseen :
    (x : Text) (seen : List Text) (es : List CanonicalEvent)
    → member x seen ≡ true
    → Fresh seen es
    → All (λ e. x ≢ e.id) es
Fresh-unseen x seen [] m f = tt
Fresh-unseen x seen (e ∷ es) m (f, g) = (
  (λ same. absurd_seen e.id seen f (rw same at m)),
  Fresh-unseen x (e.id ∷ seen) es (member_later x e.id seen m) g,
)
  where
    absurd_seen : (k : Text) (s : List Text) → member k s ≡ false → member k s ≡ true → ⊥
    absurd_seen k s p q = cc

Fresh-Pairwise : (seen : List Text) (es : List CanonicalEvent) → Fresh seen es → Pairwise Differ es
Fresh-Pairwise seen [] f = tt
Fresh-Pairwise seen (e ∷ es) (f, g) = (
  Fresh-unseen e.id (e.id ∷ seen) es (member_here e.id seen) g,
  Fresh-Pairwise (e.id ∷ seen) es g,
)

-- The other way, one needs that no event's identity is among those seen.
abbrev Unseen : List Text → List CanonicalEvent → Type 0
Unseen seen es = All (λ e. member e.id seen ≡ false) es

Unseen-cons :
    (x : Text) (seen : List Text) (es : List CanonicalEvent)
    → Unseen seen es
    → All (λ e. x ≢ e.id) es
    → Unseen (x ∷ seen) es
unfolding member
Unseen-cons x seen [] h k = tt
Unseen-cons x seen (e ∷ es) (p, h) (q, k) =
    (ground (arith, eq_text_iff e.id x), Unseen-cons x seen es h k)

Pairwise-Fresh :
    (seen : List Text) (es : List CanonicalEvent)
    → Unseen seen es
    → Pairwise Differ es
    → Fresh seen es
Pairwise-Fresh seen [] h k = tt
Pairwise-Fresh seen (e ∷ es) (p, h) (q, k) =
    (p, Pairwise-Fresh (e.id ∷ seen) es (Unseen-cons e.id seen es h q) k)

Unseen-nil : (es : List CanonicalEvent) → Unseen [] es
unfolding member
Unseen-nil [] = tt
Unseen-nil (e ∷ es) = (refl, Unseen-nil es)

-- The whole of a source: no reason against it is given, the last page was reached, and its events
-- are all of the session and lineage, no identity twice.
pub record IsWhole (input : SourceInput) : Type 0 where
  pub no_reason : input.reason ≡ none
  pub at_end : is_terminal input.terminal_cursor ≡ true
  pub scoped : All (InScope input) input.events
  pub nodup : Pairwise Differ input.events

initial_reason-none :
    (given : Option SourceIncompleteReason) (cursor : Cursor)
    → initial_reason given cursor ≡ none
    → (given ≡ none) × (is_terminal cursor ≡ true)
initial_reason-none given cursor h = ground arith

pub scan_sorted_iff :
    (input : SourceInput) (given : Option SourceIncompleteReason)
    → (scan input [] (initial_reason given input.terminal_cursor) (sort compare_events input.events)
        ≡ none)
      ↔ ((given ≡ none)
          × (is_terminal input.terminal_cursor ≡ true)
          × All (InScope input) input.events
          × Pairwise Differ input.events)
scan_sorted_iff input given = (to, from)
  where
    order : Perm (sort compare_events input.events) input.events
    order = sort-Perm compare_events input.events

    to :
        scan input []
            (initial_reason given input.terminal_cursor)
            (sort compare_events input.events)
          ≡ none
        → (given ≡ none)
          × (is_terminal input.terminal_cursor ≡ true)
          × All (InScope input) input.events
          × Pairwise Differ input.events
    to h =
        let (start, scoped, fresh) = scan-none input [] _ (sort compare_events input.events) h in
        let (none_given, at_end) = initial_reason-none given input.terminal_cursor start in
        (
          none_given,
          at_end,
          Perm-All (InScope input) order scoped,
          Perm-Pairwise Differ (λ a b d e. d (sym e)) order (Fresh-Pairwise [] _ fresh),
        )

    from :
        (given ≡ none)
          × (is_terminal input.terminal_cursor ≡ true)
          × All (InScope input) input.events
          × Pairwise Differ input.events
        → scan input []
            (initial_reason given input.terminal_cursor)
            (sort compare_events input.events)
          ≡ none
    from (none_given, at_end, scoped, nodup) =
        rw (none_given, at_end)
          (scan-Fresh input [] (sort compare_events input.events)
            (Perm-All (InScope input) (Perm_sym order) scoped)
            (Pairwise-Fresh [] _ (Unseen-nil _)
              (Perm-Pairwise Differ (λ a b d e. d (sym e)) (Perm_sym order) nodup)))
