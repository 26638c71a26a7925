-- ===== src/Utf8/Truncate.antt =====
-- src/ledger.ts: `truncateUtf8` and `boundedSource` keep within their bound, and cut between code
-- points.
use opencode_better_compact.Base.{
  ℕ, zero, suc, ◌+◌, ◌-◌, ◌≤◌, ◌<◌, ◌≡◌, refl, sym, Bool, true, false, not, ◌&&◌, ◌||◌, [], ◌∷◌,
  ◌++◌, arith, length, take, take-all, Text, codes, inl, inr, Bool-cases, leb, leb→le, &&-eq-true,
}
use opencode_better_compact.Utf8.{
  is_high, is_low, has_surrogate_pair, unit_bytes, bytes_from, utf8_bytes, utf8_prefix_end,
  truncation_marker, truncate_utf8, bounded_source,
}
use opencode_better_compact.Utf8.Prefix.{
  offset, offset-pair-le, has_surrogate_pair-take, offset-le-whole, splits_from, SplitsPair,
  utf8_prefix_end-best,
}

abbrev starts_low : Text → Bool
starts_low [] = false
starts_low (c ∷ r) = is_low c

has_surrogate_pair-append :
    (c : ℕ) (r t : Text)
    → starts_low t ≡ false
    → has_surrogate_pair (c ∷ (r ++ t)) ≡ has_surrogate_pair (c ∷ r)
unfolding has_surrogate_pair
has_surrogate_pair-append c [] [] h = refl
has_surrogate_pair-append c [] (d ∷ t) h = ground arith
has_surrogate_pair-append c (d ∷ r) t h = refl

bytes_from-append :
    (skip : Bool) (s t : Text)
    → offset skip ≤ length s
    → starts_low t ≡ false
    → bytes_from skip (s ++ t) ≡ bytes_from skip s + bytes_from false t
unfolding bytes_from
bytes_from-append true [] t len h = absurd (omega arith)
bytes_from-append false [] t len h = omega arith
bytes_from-append true (c ∷ s) t len h = bytes_from-append false s t (omega arith) h
bytes_from-append false (c ∷ s) t len h =
    rw (has_surrogate_pair-append c s t h)
      (omega (arith, bytes_from-append (has_surrogate_pair (c ∷ s)) s t (offset-pair-le c s) h))

marker-bytes : (utf8_bytes truncation_marker ≡ 14) × (starts_low truncation_marker ≡ false)
unfolding utf8_bytes codes
marker-bytes = (refl, refl)

utf8_bytes-marked : (s : Text) → utf8_bytes (s ++ truncation_marker) ≡ utf8_bytes s + 14
unfolding utf8_bytes
utf8_bytes-marked s = omega (
  arith,
  bytes_from-append false s truncation_marker (omega arith) marker-bytes.1,
  marker-bytes.0,
)

-- What `truncateUtf8` may return: the text itself if it fits; otherwise its longest prefix of whole
-- code points that leaves room for the marker, and the marker; or, where the marker itself has no
-- room, a prefix of the marker.
pub data Truncation (value : Text) (max_bytes : ℕ) : Text → Type 0 where
  whole : {t : Text} → utf8_bytes value ≤ max_bytes → t ≡ value → Truncation value max_bytes t
  marked :
      {t : Text} (n : ℕ)
      → max_bytes < utf8_bytes value
      → ¬ SplitsPair value n
      → utf8_bytes (take n value) + 14 ≤ max_bytes
      → ((k : ℕ)
          → k ≤ length value
          → ¬ SplitsPair value k
          → utf8_bytes (take k value) + 14 ≤ max_bytes
          → k ≤ n)
      → t ≡ take n value ++ truncation_marker
      → Truncation value max_bytes t
  marker_only :
      {t : Text} (n : ℕ)
      → max_bytes < utf8_bytes value
      → max_bytes ≤ 14
      → ¬ SplitsPair truncation_marker n
      → utf8_bytes (take n truncation_marker) ≤ max_bytes
      → t ≡ take n truncation_marker
      → Truncation value max_bytes t

-- A text within the bound is left as it is. Of a longer one `truncateUtf8` returns the longest start
-- that splits no pair and leaves room for the marker, with the marker after it; or, where the bound is
-- at most the marker's 14 bytes, a start of the marker within the bound.
pub truncate_utf8-Truncation :
    (value : Text) (max_bytes : ℕ) → Truncation value max_bytes (truncate_utf8 value max_bytes)
unfolding truncate_utf8
truncate_utf8-Truncation v m = elim (Bool-cases (leb (utf8_bytes v) m)) [
  | inl fits ↦ whole (leb→le _ m fits) (rw fits)
  | inr over ↦ elim (Bool-cases (leb m (utf8_bytes truncation_marker))) [
    | inl short ↦
        marker_only (utf8_prefix_end truncation_marker m) (ground arith)
          (omega (arith, leb→le m _ short, marker-bytes.0))
          (utf8_prefix_end-best truncation_marker m).1 (utf8_prefix_end-best truncation_marker m).0
          (rw (over, short))
    | inr room ↦
        let budget = m - utf8_bytes truncation_marker in
        let lt : utf8_bytes truncation_marker < m = ground arith in
        let best = utf8_prefix_end-best v budget in
        marked (utf8_prefix_end v budget) (ground arith) best.1
          (omega (arith, best.0, marker-bytes.0))
          (λ k len cut small. best.2 k len cut (omega (arith, marker-bytes.0))) (rw (over, room))
  ]
]

Truncation-bytes : {v t : Text} {m : ℕ} → Truncation v m t → utf8_bytes t ≤ m
Truncation-bytes (whole h e) = rw e h
Truncation-bytes (marked n over cut small longest e) = rw (e, utf8_bytes-marked) small
Truncation-bytes (marker_only n over short cut small e) = rw e small

-- Whatever the text and the bound, the result of `truncateUtf8` has at most `max_bytes` bytes.
pub utf8_bytes-truncate_utf8 :
    (value : Text) (max_bytes : ℕ) → utf8_bytes (truncate_utf8 value max_bytes) ≤ max_bytes
utf8_bytes-truncate_utf8 value m = Truncation-bytes (truncate_utf8-Truncation value m)

-- No half of a surrogate pair stands alone.
unfoldable pub well_formed_from : Bool → Text → Bool
well_formed_from skip [] = true
well_formed_from true (c ∷ r) = well_formed_from false r
well_formed_from false (c ∷ r) =
    let pair = has_surrogate_pair (c ∷ r) in
    (pair || not (is_high c || is_low c)) && well_formed_from pair r

abbrev pub IsWellFormed : Text → Type 0
IsWellFormed t = well_formed_from false t ≡ true

splits-false : (v : Text) (n : ℕ) → ¬ SplitsPair v n → splits_from false n v ≡ false
splits-false v n h = elim (Bool-cases (splits_from false n v)) [
  | inl split ↦ absurd (h split)
  | inr uncut ↦ uncut
]

abbrev sound_head : ℕ → Text → Bool
sound_head c r = has_surrogate_pair (c ∷ r) || not (is_high c || is_low c)

well_formed-take :
    (v : Text) (skip : Bool) (n : ℕ)
    → splits_from skip n v ≡ false
    → well_formed_from skip v ≡ true
    → well_formed_from skip (take n v) ≡ true
unfolding well_formed_from splits_from
well_formed-take [] skip zero cut h = refl
well_formed-take [] skip (suc n) cut h = refl
well_formed-take (c ∷ r) skip zero cut h = refl
well_formed-take (c ∷ r) true (suc n) cut h = well_formed-take r false n cut h
well_formed-take (c ∷ r) false (suc n) cut h =
    let pair = has_surrogate_pair (c ∷ r) in
    let seen = has_surrogate_pair-take c n r (offset-le-whole n pair r (offset-pair-le c r) cut) in
    let (here, later) = &&-eq-true (sound_head c r) (well_formed_from pair r) h in
    rw (seen, here) (well_formed-take r pair n cut later)

well_formed-append :
    (skip : Bool) (s t : Text)
    → offset skip ≤ length s
    → starts_low t ≡ false
    → well_formed_from skip s ≡ true
    → well_formed_from false t ≡ true
    → well_formed_from skip (s ++ t) ≡ true
unfolding well_formed_from
well_formed-append true [] t len low h k = absurd (omega arith)
well_formed-append false [] t len low h k = k
well_formed-append true (c ∷ s) t len low h k = well_formed-append false s t (omega arith) low h k
well_formed-append false (c ∷ s) t len low h k =
    let pair = has_surrogate_pair (c ∷ s) in
    let (here, later) = &&-eq-true (sound_head c s) (well_formed_from pair s) h in
    rw (has_surrogate_pair-append c s t low, here)
      (well_formed-append pair s t (offset-pair-le c s) low later k)

marker-IsWellFormed : IsWellFormed truncation_marker
unfolding well_formed_from codes has_surrogate_pair
marker-IsWellFormed = refl

-- Truncating a text with no lone surrogate gives a text with no lone surrogate.
pub truncate_utf8-IsWellFormed :
    (value : Text) (max_bytes : ℕ)
    → IsWellFormed value
    → IsWellFormed (truncate_utf8 value max_bytes)
truncate_utf8-IsWellFormed value m w = by_cases (truncate_utf8-Truncation value m)
  where
    by_cases : {t : Text} → Truncation value m t → IsWellFormed t
    by_cases (whole h e) = rw e w
    by_cases (marked n over cut small longest e) = rw e (
        well_formed-append false (take n value) truncation_marker (omega arith) marker-bytes.1
          (well_formed-take value false n (splits-false value n cut) w) marker-IsWellFormed)
    by_cases (marker_only n over short cut small e) = rw e (
        well_formed-take truncation_marker false n (splits-false truncation_marker n cut)
          marker-IsWellFormed)

length-le-bytes : (v : Text) (skip : Bool) → length v ≤ bytes_from skip v + offset skip
unfolding bytes_from unit_bytes has_surrogate_pair
length-le-bytes [] skip = omega arith
length-le-bytes (c ∷ r) true = omega (arith, length-le-bytes r false)
length-le-bytes (c ∷ []) false = ground arith
length-le-bytes (c ∷ d ∷ r) false =
    ground (arith, length-le-bytes (d ∷ r) true, length-le-bytes (d ∷ r) false)

length-le-utf8_bytes : (v : Text) → length v ≤ utf8_bytes v
unfolding utf8_bytes
length-le-utf8_bytes v = omega (arith, length-le-bytes v false)

utf8_bytes-nil : utf8_bytes [] ≡ 0
unfolding utf8_bytes
utf8_bytes-nil = refl

no_room : (v : Text) (m : ℕ) → m ≤ 0 → utf8_bytes v ≤ m → [] ≡ v
no_room [] m h k = refl
no_room (c ∷ r) m h k = absurd (omega (arith, length-le-utf8_bytes (c ∷ r)))

-- `boundedSource` returns a prefix of its argument that is within the bound, and the whole of an
-- argument that is.
pub bounded_source-prefix :
    (value : Text) (max_bytes : ℕ)
    → (utf8_bytes (bounded_source value max_bytes) ≤ max_bytes)
      × ((n : ℕ) × (bounded_source value max_bytes ≡ take n value))
      × (utf8_bytes value ≤ max_bytes → bounded_source value max_bytes ≡ value)
unfolding bounded_source
bounded_source-prefix value m = elim (Bool-cases (leb m 0)) [
  | inl zero_bound ↦
      rw zero_bound
        (omega (arith, utf8_bytes-nil), (0, refl), no_room value m (leb→le m 0 zero_bound))
  | inr some_room ↦ elim (Bool-cases (leb (length value) m && leb (utf8_bytes value) m)) [
    | inl fits ↦
        rw (some_room, fits)
          (ground arith, (length value, sym (take-all _ value (omega arith))), λ h. refl)
    | inr over ↦
        rw (some_room, over)
          (
            (utf8_prefix_end-best value m).0,
            (utf8_prefix_end value m, refl),
            λ h. absurd (ground (arith, length-le-utf8_bytes value)),
          )
  ]
]
