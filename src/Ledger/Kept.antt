-- ===== src/Ledger/Kept.antt =====
-- src/ledger.ts: the lists that are filled up to a limit (`pushReverseUnique`, `addBoundedPath`).
use opencode_better_compact.Base.{
  ◌≡◌, refl, inl, inr, ℕ, suc, ◌≤◌, ◌<◌, Bool, true, false, not, ◌||◌, Bool-cases, List, [], ◌∷◌,
  ◌++◌, length, keep, leb, leb→le, length-append, length-keep-le, arith, Text, eq_text,
  eq_text_refl, eq_text_iff, member, distinct, is_empty,
}
use opencode_better_compact.Ledger.Wording.{compact}
use opencode_better_compact.Ledger.Parts.{
  push_unique, is_real_path, without_trailing_slashes, largest, drop_largest, add_bounded_path,
  max_touched_paths,
}

-- So many values at most, and none of them twice.
abbrev pub Kept : ℕ → List Text → Type 0
Kept limit xs = (length xs ≤ limit) × (distinct xs ≡ true)

pub member_snoc :
    (x v : Text) (xs : List Text) → member x (xs ++ v ∷ []) ≡ (member x xs || eq_text x v)
unfolding member
member_snoc x v [] = ground arith
member_snoc x v (y ∷ ys) = ground (arith, member_snoc x v ys)

pub distinct_snoc :
    (v : Text) (xs : List Text)
    → member v xs ≡ false
    → distinct xs ≡ true
    → distinct (xs ++ v ∷ []) ≡ true
unfolding distinct member
distinct_snoc v [] h d = refl
distinct_snoc v (x ∷ xs) h d =
    ground (arith, distinct_snoc v xs, member_snoc x v xs, eq_text_iff v x, eq_text_iff x v)

member-keep :
    (x : Text) (p : Text → Bool) (xs : List Text)
    → member x xs ≡ false
    → member x (keep p xs) ≡ false
unfolding member
member-keep x p [] h = refl
member-keep x p (y ∷ ys) h = ground (arith, member-keep x p ys)

distinct-keep :
    (p : Text → Bool) (xs : List Text) → distinct xs ≡ true → distinct (keep p xs) ≡ true
unfolding distinct
distinct-keep p [] h = refl
distinct-keep p (x ∷ xs) h = ground (arith, distinct-keep p xs, member-keep x p xs)

pub push_unique-Kept :
    (limit : ℕ) (v : Text) (xs : List Text) → Kept limit xs → Kept limit (push_unique limit v xs)
unfolding push_unique
push_unique-Kept limit v xs (short, d) =
    elim (Bool-cases (is_empty v || member v xs || leb limit (length xs))) [
      | inl e ↦ rw e (short, d)
      | inr e ↦
          let new : member v xs ≡ false = ground arith in
          let room : leb limit (length xs) ≡ false = ground arith in
          rw e (ground (arith, length-append xs (v ∷ [])), distinct_snoc v xs new d)
    ]

-- A value of the list that is filtered out makes it shorter.
keep_shorter :
    (v : Text) (xs : List Text)
    → member v xs ≡ true
    → length (keep (λ p. not (eq_text p v)) xs) < length xs
unfolding member
keep_shorter v [] h = cc
keep_shorter v (x ∷ xs) h = ground (
  arith,
  keep_shorter v xs,
  length-keep-le (λ p. not (eq_text p v)) xs,
  eq_text_iff v x,
  eq_text_iff x v,
)

member-largest : (best : Text) (xs : List Text) → member (largest best xs) (best ∷ xs) ≡ true
unfolding member largest
member-largest best [] = ground (arith, eq_text_refl best)
member-largest best (x ∷ xs) = ground (arith, member-largest best xs, member-largest x xs)

drop_largest-Kept :
    (xs : List Text)
    → length xs ≤ suc max_touched_paths
    → distinct xs ≡ true
    → Kept max_touched_paths (drop_largest xs)
unfolding drop_largest
drop_largest-Kept [] h d = (omega arith, d)
drop_largest-Kept (x ∷ xs) h d = elim (Bool-cases (leb (length (x ∷ xs)) max_touched_paths)) [
  | inl e ↦ rw e (leb→le (length (x ∷ xs)) max_touched_paths e, d)
  | inr e ↦
      let shorter = keep_shorter (largest x xs) (x ∷ xs) (member-largest x xs) in
      rw e
        (omega (arith, shorter, h), distinct-keep (λ p. not (eq_text p (largest x xs))) (x ∷ xs) d)
]

pub add_bounded_path-Kept :
    (redact : Text → Text) (value : Text) (xs : List Text)
    → Kept max_touched_paths xs
    → Kept max_touched_paths (add_bounded_path redact value xs)
unfolding add_bounded_path
add_bounded_path-Kept redact value xs (short, d) =
    let path = compact redact (without_trailing_slashes value) 300 in
    elim (Bool-cases (not (is_real_path path) || member path xs)) [
      | inl e ↦ rw e (short, d)
      | inr e ↦
          let new : member path xs ≡ false = ground arith in
          rw e (
            drop_largest-Kept (xs ++ path ∷ []) (omega (arith, length-append xs (path ∷ []), short))
              (distinct_snoc path xs new d))
    ]
