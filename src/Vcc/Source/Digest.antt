-- ===== src/Vcc/Source/Digest.antt =====
-- src/vcc.ts: what the digest of a manifest covers: the events, not their paging nor their order.
use Prim.Native.Nat.{Ordering}
use opencode_better_compact.Base.{
  ℕ, ◌≡◌, ◌≢◌, refl, ap, sym, ◌∙◌, Option, List, [], ◌∷◌, Text, ok, All,
}
use opencode_better_compact.Base.Sort.{Perm, Pairwise, Apart, sort}
use opencode_better_compact.Base.Sort.Laws.{sort_of_Perm}
use opencode_better_compact.Base.Value.{Number}
use opencode_better_compact.Vcc.Order.Laws.{compare_code_points-eq}
use opencode_better_compact.Vcc.Reason.{SourceIncompleteReason}
use opencode_better_compact.Vcc.Event.{CanonicalEvent, Primitives, compare_events}
use opencode_better_compact.Vcc.Event.Sequence.{
  HasText, compare_events-eq, compare_events-IsPreorder,
}
use opencode_better_compact.Vcc.Source.{
  SourceInput, SourceCompleteness, initial_reason, scan, manifest_of, stable_identity,
  source_completeness_digest, build_source_completeness,
}
use opencode_better_compact.Vcc.Source.Laws.{IsWhole, Differ}
use opencode_better_compact.Vcc.Source.Complete.{build-IsBuilt, found}

Differ-Apart :
    (a : CanonicalEvent) (es : List CanonicalEvent)
    → HasText a
    → All HasText es
    → All (Differ a) es
    → All (λ b. compare_events a b ≢ Ordering.eq) es
Differ-Apart a [] t h d = tt
Differ-Apart a (b ∷ es) t (u, h) (p, d) = (
  (λ e. p (compare_code_points-eq a.id b.id t u (compare_events-eq a b e))),
  Differ-Apart a es t h d,
)

Pairwise-Apart :
    (es : List CanonicalEvent) → All HasText es → Pairwise Differ es → Apart compare_events es
Pairwise-Apart [] h d = tt
Pairwise-Apart (e ∷ es) (t, h) (p, d) = (Differ-Apart e es t h p, Pairwise-Apart es h d)

-- The source as another reading of it finds it: the events in another order, other pages and sizes.
abbrev pub reread : SourceInput → List CanonicalEvent → Option Number → Option Number → SourceInput
reread input events page_count byte_count = record input {
  events = events;
  page_count = page_count;
  byte_count = byte_count;
}

scan-reread :
    (input : SourceInput) (events : List CanonicalEvent) (pages sizes : Option Number)
    (es : List CanonicalEvent) (seen : List Text) (r : Option SourceIncompleteReason)
    → scan input seen r es ≡ scan (reread input events pages sizes) seen r es
unfolding scan
scan-reread input events pages sizes [] seen r = refl
scan-reread input events pages sizes (e ∷ es) seen r =
    scan-reread input events pages sizes es (e.id ∷ seen) _

found-reread :
    (input : SourceInput) (events : List CanonicalEvent) (pages sizes : Option Number)
    (given : Option SourceIncompleteReason)
    → sort compare_events input.events ≡ sort compare_events events
    → found input given ≡ found (reread input events pages sizes) given
found-reread input events pages sizes given h = rw h (
    scan-reread input events pages sizes (sort compare_events events) []
      (initial_reason given input.terminal_cursor))

module _ (primitives : Primitives) where
  digest_of_manifest :
      (input : SourceInput) (events es : List CanonicalEvent) (pages sizes : Option Number)
      (r : Option SourceIncompleteReason) (p p' : Option ℕ) (b b' : ℕ)
      → source_completeness_digest primitives (manifest_of input es r p b)
        ≡ source_completeness_digest primitives
            (manifest_of (reread input events pages sizes) es r p' b')
  unfolding source_completeness_digest stable_identity
  digest_of_manifest input events es pages sizes r p p' b b' = refl

  -- A whole source, with strings as identities: the digest of its manifest is the same if its events
  -- come in another order, in other pages and with another count of bytes.
  pub build_source_completeness-reread :
      (input : SourceInput) (events : List CanonicalEvent) (pages sizes : Option Number)
      (m m' : SourceCompleteness)
      → IsWhole input
      → All HasText input.events
      → Perm input.events events
      → build_source_completeness primitives input ≡ ok m
      → build_source_completeness primitives (reread input events pages sizes) ≡ ok m'
      → m.digest ≡ m'.digest
  build_source_completeness-reread input events pages sizes m m' w t p h h' =
      let b = build-IsBuilt primitives input m h in
      let b' = build-IsBuilt primitives (reread input events pages sizes) m' h' in
      let order : sort compare_events input.events ≡ sort compare_events events =
        sort_of_Perm compare_events compare_events-IsPreorder p
          (Pairwise-Apart input.events t w.nodup) in
      let given : b.given ≡ b'.given = cc (b.checked, b'.checked) in
      let events' = sort compare_events events in
      let same_found : found input b.given ≡ found (reread input events pages sizes) b'.given =
        found-reread input events pages sizes b.given order
        ∙ ap (found (reread input events pages sizes)) given in
      let digests : ok b.digest ≡ ok b'.digest =
        sym b.digested
        ∙ digest_of_manifest input events (sort compare_events input.events) pages sizes
            (found input b.given) b.page_count b'.page_count b.bytes b'.bytes
        ∙ ap
            (λ l. source_completeness_digest primitives (
              manifest_of (reread input events pages sizes) l (found input b.given) b'.page_count
                b'.bytes))
            order
        ∙ ap
            (λ r.
              source_completeness_digest primitives
                (manifest_of (reread input events pages sizes) events' r b'.page_count b'.bytes))
            same_found
        ∙ b'.digested in
      sym (ap (λ x. x.digest) b.made) ∙ cc digests ∙ ap (λ x. x.digest) b'.made
