-- ===== src/Utf8/Prefix.antt =====
-- src/ledger.ts: what `utf8PrefixEnd` returns.
use opencode_better_compact.Base.{
  ℕ, zero, suc, ◌+◌, ◌-◌, ◌≤◌, ◌≡◌, refl, Bool, true, false, [], ◌∷◌, arith, length, take, Text,
  inl, inr, Bool-cases, ltb, ltb→lt, ltb→le, if◌then◌else◌,
}
use opencode_better_compact.Utf8.{
  has_surrogate_pair, unit_bytes, bytes_from, utf8_bytes, prefix_end_from, utf8_prefix_end,
}

abbrev pub offset : Bool → ℕ
offset true = 1
offset false = 0

-- A shorter text starts with a pair if its first two units are those of one.
pub has_surrogate_pair-take :
    (c n : ℕ) (r : Text)
    → offset (has_surrogate_pair (c ∷ r)) ≤ n
    → has_surrogate_pair (c ∷ take n r) ≡ has_surrogate_pair (c ∷ r)
unfolding has_surrogate_pair
has_surrogate_pair-take c zero [] h = refl
has_surrogate_pair-take c zero (d ∷ r) h = ground arith
has_surrogate_pair-take c (suc n) [] h = refl
has_surrogate_pair-take c (suc n) (d ∷ r) h = refl

pub offset-pair-le : (c : ℕ) (r : Text) → offset (has_surrogate_pair (c ∷ r)) ≤ length r
unfolding has_surrogate_pair
offset-pair-le c [] = omega arith
offset-pair-le c (d ∷ r) = ground arith

-- How many code units fit into the bytes that are left.
fit : ℕ → Bool → Text → ℕ
fit left skip [] = 0
fit left true (c ∷ r) = suc (fit left false r)
fit left false (c ∷ r) =
    let pair = has_surrogate_pair (c ∷ r) in
    let onward = suc (fit (left - unit_bytes c pair) pair r) in
    if ltb left (unit_bytes c pair) then 0 else onward

prefix_end_from-eq-fit :
    (v : Text) (skip : Bool) (m b i : ℕ)
    → b ≤ m
    → offset skip ≤ length v
    → prefix_end_from m b i skip v + offset skip ≡ i + fit (m - b) skip v
unfolding prefix_end_from fit
prefix_end_from-eq-fit [] true m b i h k = absurd (omega arith)
prefix_end_from-eq-fit [] false m b i h k = omega arith
prefix_end_from-eq-fit (c ∷ r) true m b i h k =
    omega (arith, prefix_end_from-eq-fit r false m b i h)
prefix_end_from-eq-fit (c ∷ r) false m b i h k =
    let pair = has_surrogate_pair (c ∷ r) in
    let size = unit_bytes c pair in
    let e : m - b - size ≡ m - (b + size) = omega arith in
    rw e (
      ground (
        arith,
        offset-pair-le c r,
        prefix_end_from-eq-fit r pair m (b + size) (if pair then i + 2 else i + 1),
      ))

offset-le-fit :
    (l : ℕ) (skip : Bool) (v : Text) → offset skip ≤ length v → offset skip ≤ fit l skip v
unfolding fit
offset-le-fit l true [] h = absurd (omega arith)
offset-le-fit l true (c ∷ r) h = omega arith
offset-le-fit l false v h = omega arith

-- The pair at the head is seen in the units that fit, too.
pair-take-fit :
    (c l : ℕ) (r : Text)
    → let pair = has_surrogate_pair (c ∷ r) in has_surrogate_pair (c ∷ take (fit l pair r) r) ≡ pair
pair-take-fit c l r =
    has_surrogate_pair-take c _ r
      (offset-le-fit l (has_surrogate_pair (c ∷ r)) r (offset-pair-le c r))

bytes_from-take-fit : (v : Text) (skip : Bool) (l : ℕ) → bytes_from skip (take (fit l skip v) v) ≤ l
unfolding fit bytes_from
bytes_from-take-fit [] true l = omega arith
bytes_from-take-fit [] false l = omega arith
bytes_from-take-fit (c ∷ r) true l = bytes_from-take-fit r false l
bytes_from-take-fit (c ∷ r) false l =
    let pair = has_surrogate_pair (c ∷ r) in
    let size = unit_bytes c pair in
    elim (Bool-cases (ltb l size)) [
      | inl full ↦ rw full (omega arith)
      | inr room ↦
          rw (room, pair-take-fit c (l - size) r)
            (omega (arith, ltb→le l size room, bytes_from-take-fit r pair (l - size)))
    ]

-- A cut after `n` units falls between the halves of a pair.
unfoldable pub splits_from : Bool → ℕ → Text → Bool
splits_from skip n [] = false
splits_from skip zero (c ∷ r) = skip
splits_from true (suc n) (c ∷ r) = splits_from false n r
splits_from false (suc n) (c ∷ r) = splits_from (has_surrogate_pair (c ∷ r)) n r

fit-whole : (v : Text) (skip : Bool) (l : ℕ) → splits_from skip (fit l skip v) v ≡ false
unfolding fit splits_from
fit-whole [] true l = refl
fit-whole [] false l = refl
fit-whole (c ∷ r) true l = fit-whole r false l
fit-whole (c ∷ r) false l =
    let pair = has_surrogate_pair (c ∷ r) in
    ground (arith, fit-whole r pair (l - unit_bytes c pair))

pub offset-le-whole :
    (n : ℕ) (skip : Bool) (v : Text)
    → offset skip ≤ length v
    → splits_from skip n v ≡ false
    → offset skip ≤ n
unfolding splits_from
offset-le-whole n false v len h = omega arith
offset-le-whole n true [] len h = absurd (omega arith)
offset-le-whole zero true (c ∷ r) len h = cc
offset-le-whole (suc n) true (c ∷ r) len h = omega arith

-- A whole prefix within the bytes is no longer than what fits.
fit-longest :
    (v : Text) (skip : Bool) (l n : ℕ)
    → n ≤ length v
    → splits_from skip n v ≡ false
    → bytes_from skip (take n v) ≤ l
    → n ≤ fit l skip v
unfolding fit splits_from bytes_from
fit-longest [] skip l n len whole small = absurd_zero n len
  where
    absurd_zero : (n : ℕ) → n ≤ 0 → n ≤ fit l skip []
    absurd_zero n h = omega arith
fit-longest (c ∷ r) skip l zero len whole small = omega arith
fit-longest (c ∷ r) true l (suc n) len whole small =
    omega (arith, fit-longest r false l n (omega arith) whole small)
fit-longest (c ∷ r) false l (suc n) len whole small =
    let pair = has_surrogate_pair (c ∷ r) in
    let size = unit_bytes c pair in
    let seen =
      has_surrogate_pair-take c n r (offset-le-whole n pair r (offset-pair-le c r) whole) in
    let bytes : size + bytes_from pair (take n r) ≤ l = rw seen at small in
    let onward = fit-longest r pair (l - size) n (omega arith) whole (omega arith) in
    elim (Bool-cases (ltb l size)) [
      | inl full ↦ absurd (omega (arith, ltb→lt l size full))
      | inr room ↦ rw room (omega (arith, onward))
    ]

-- A cut after the first `n` units splits a surrogate pair of the text.
abbrev pub SplitsPair : Text → ℕ → Type 0
SplitsPair v n = splits_from false n v ≡ true

utf8_prefix_end-eq-fit : (v : Text) (m : ℕ) → utf8_prefix_end v m ≡ fit m false v
unfolding utf8_prefix_end
utf8_prefix_end-eq-fit v m =
    let e : m - 0 ≡ m = omega arith in
    omega (arith, rw e at (prefix_end_from-eq-fit v false m 0 0 (omega arith) (omega arith)))

-- The end that `utf8PrefixEnd` returns is the best one: the prefix up to it takes at most
-- `max_bytes` bytes and splits no surrogate pair, and any prefix with these two properties is no
-- longer.
pub utf8_prefix_end-best :
    (v : Text) (max_bytes : ℕ)
    → (utf8_bytes (take (utf8_prefix_end v max_bytes) v) ≤ max_bytes)
      × (¬ SplitsPair v (utf8_prefix_end v max_bytes))
      × ((n : ℕ)
          → n ≤ length v
          → ¬ SplitsPair v n
          → utf8_bytes (take n v) ≤ max_bytes
          → n ≤ utf8_prefix_end v max_bytes)
unfolding utf8_bytes
utf8_prefix_end-best v m = rw (utf8_prefix_end-eq-fit v m) (
  bytes_from-take-fit v false m,
  (λ e. cc (e, fit-whole v false m)),
  λ n len whole small. fit-longest v false m n len (ground arith) small,
)
