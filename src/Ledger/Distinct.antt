-- ===== src/Ledger/Distinct.antt =====
-- src/ledger.ts: lists without repetitions, merged, cut and sorted (`unique`, `mergeStrings`).
use opencode_better_compact.Base.{
  ◌≡◌, refl, sym, subst, ℕ, zero, suc, ◌≤◌, true, false, List, [], ◌∷◌, length, take, drop, arith,
  Text, member, distinct, length-take, length-drop,
}
use opencode_better_compact.Ledger.Kept.{Kept}
use opencode_better_compact.Ledger.Part.{IsTail, IsStart}

distinct-drop : (n : ℕ) (xs : List Text) → distinct xs ≡ true → distinct (drop n xs) ≡ true
unfolding distinct
distinct-drop zero xs h = h
distinct-drop (suc n) [] h = h
distinct-drop (suc n) (x ∷ xs) h = ground (arith, distinct-drop n xs)

member-take :
    (x : Text) (n : ℕ) (xs : List Text) → member x xs ≡ false → member x (take n xs) ≡ false
unfolding member
member-take x zero xs h = refl
member-take x (suc n) [] h = h
member-take x (suc n) (y ∷ ys) h = ground (arith, member-take x n ys)

distinct-take : (n : ℕ) (xs : List Text) → distinct xs ≡ true → distinct (take n xs) ≡ true
unfolding distinct
distinct-take zero xs h = refl
distinct-take (suc n) [] h = h
distinct-take (suc n) (x ∷ xs) h = ground (arith, distinct-take n xs, member-take x n xs)

pub Kept-drop :
    (limit n : ℕ) (xs : List Text)
    → length (drop n xs) ≤ limit
    → distinct xs ≡ true
    → Kept limit (drop n xs)
Kept-drop limit n xs h d = (h, distinct-drop n xs d)

pub Kept-take : (limit : ℕ) (xs : List Text) → distinct xs ≡ true → Kept limit (take limit xs)
Kept-take limit xs d = (omega (arith, length-take limit xs), distinct-take limit xs d)

pub Kept-tail : (limit : ℕ) {xs ys : List Text} → IsTail xs ys → Kept limit ys → Kept limit xs
Kept-tail limit {ys = ys} (n, e) (h, d) =
    subst (Kept limit) (sym e) (omega (arith, length-drop n ys), distinct-drop n ys d)

pub Kept-start : (limit : ℕ) {xs ys : List Text} → IsStart xs ys → Kept limit ys → Kept limit xs
Kept-start limit {ys = ys} (n, e) (h, d) =
    subst (Kept limit) (sym e) (omega (arith, length-take n ys), distinct-take n ys d)
