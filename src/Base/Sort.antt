-- ===== src/Base/Sort.antt =====
-- `Array.prototype.sort` with a comparator that is a preorder: the stable sort. A comparator's result
-- is read by its sign.
pub mod Laws
use Prim.Native.Nat.{ℕ, Ordering, compare}
use mathlib.Core.Path.{◌≡◌, refl, ◌∙◌}
use mathlib.Core.Logic.{◌≢◌, ◌⊎◌, inl, inr}
use mathlib.Core.Bool.{Bool, true, false, ◌||◌}
use mathlib.Core.List.{List, [], ◌∷◌, ◌++◌, map}
use native.Mathlib.Omega.{arith}
use opencode_better_compact.Base.Bools.{if◌then◌else◌}
use opencode_better_compact.Base.Lists.{any, All}

abbrev pub is_gt : Ordering → Bool
is_gt Ordering.gt = true
is_gt _ = false

pub record IsPreorder {ℓ} (A : Type ℓ) (cmp : A → A → Ordering) : Type ℓ where
  pub flip : (a b : A) → cmp a b ≡ Ordering.gt → cmp b a ≡ Ordering.lt
  pub flop : (a b : A) → cmp a b ≡ Ordering.lt → cmp b a ≡ Ordering.gt
  pub le_trans :
      (a b c : A) → is_gt (cmp a b) ≡ false → is_gt (cmp b c) ≡ false → is_gt (cmp a c) ≡ false

-- `left || right` of two results of comparators.
abbrev pub or_then : Ordering → Ordering → Ordering
or_then Ordering.lt later = Ordering.lt
or_then Ordering.gt later = Ordering.gt
or_then Ordering.eq later = later

-- By a number, and then by another order.
pub or_then-IsPreorder {ℓ κ} :
    {A : Type ℓ} {B : Type κ} {cmp : B → B → Ordering}
    → IsPreorder B cmp
    → (rank : A → ℕ) (label : A → B)
    → IsPreorder A (λ a b. or_then (compare (rank a) (rank b)) (cmp (label a) (label b)))
or_then-IsPreorder order rank label = record {
  flip = λ a b h. ground (arith, order.flip (label a) (label b));
  flop = λ a b h. ground (arith, order.flop (label a) (label b));
  le_trans = λ a b c h k. ground (arith, order.le_trans (label a) (label b) (label c));
}

-- One list is the other in another order.
pub data Perm {ℓ} {A : Type ℓ} : List A → List A → Type ℓ where
  nil : Perm [] []
  skip : (x : A) {xs ys : List A} → Perm xs ys → Perm (x ∷ xs) (x ∷ ys)
  swap : (x y : A) (xs : List A) → Perm (x ∷ y ∷ xs) (y ∷ x ∷ xs)
  trans : {xs ys zs : List A} → Perm xs ys → Perm ys zs → Perm xs zs

pub Perm_refl {ℓ} : {A : Type ℓ} (xs : List A) → Perm xs xs
Perm_refl [] = nil
Perm_refl (x ∷ xs) = skip x (Perm_refl xs)

pub Perm_sym {ℓ} : {A : Type ℓ} {xs ys : List A} → Perm xs ys → Perm ys xs
Perm_sym nil = nil
Perm_sym (skip x p) = skip x (Perm_sym p)
Perm_sym (swap x y xs) = swap y x xs
Perm_sym (trans p q) = trans (Perm_sym q) (Perm_sym p)

module _ {ℓ} {A : Type ℓ} (cmp : A → A → Ordering) where
  -- Before the first element that is not smaller.
  unfoldable pub insert : A → List A → List A
  insert x [] = x ∷ []
  insert x (y ∷ ys) = let later = y ∷ insert x ys in if is_gt (cmp x y) then later else x ∷ y ∷ ys

  unfoldable pub sort : List A → List A
  unfolding insert
  sort [] = []
  sort (x ∷ xs) = insert x (sort xs)

  insert-Perm : (x : A) (xs : List A) → Perm (insert x xs) (x ∷ xs)
  unfolding insert
  insert-Perm x [] = skip x nil
  insert-Perm x (y ∷ ys) =
      elim (is_gt (cmp x y))
        as (λ b. Perm (if b then y ∷ insert x ys else x ∷ y ∷ ys) (x ∷ y ∷ ys)) [
          | true ↦ trans (skip y (insert-Perm x ys)) (swap y x ys)
          | false ↦ Perm_refl (x ∷ y ∷ ys)
        ]

  pub sort-Perm : (xs : List A) → Perm (sort xs) xs
  unfolding sort
  sort-Perm [] = nil
  sort-Perm (x ∷ xs) = trans (insert-Perm x (sort xs)) (skip x (sort-Perm xs))

  -- No element is greater than a later one.
  abbrev pub Sorted : List A → Type ℓ
  Sorted [] = Unit
  Sorted (x ∷ xs) = All (λ y. is_gt (cmp x y) ≡ false) xs × Sorted xs

  -- No two elements are equal in the order.
  abbrev pub Apart : List A → Type ℓ
  Apart [] = Unit
  Apart (x ∷ xs) = All (λ y. cmp x y ≢ Ordering.eq) xs × Apart xs

  -- Each element is smaller than the later ones.
  abbrev pub Ascending : List A → Type ℓ
  Ascending [] = Unit
  Ascending (x ∷ xs) = All (λ y. cmp x y ≡ Ordering.lt) xs × Ascending xs

pub Perm-All {ℓ κ} :
    {A : Type ℓ} (P : A → Type κ) {xs ys : List A} → Perm xs ys → All P xs → All P ys
Perm-All P nil h = h
Perm-All P (skip x p) (q, h) = (q, Perm-All P p h)
Perm-All P (swap x y xs) (p, (q, h)) = (q, (p, h))
Perm-All P (trans p q) h = Perm-All P q (Perm-All P p h)

pub Perm-any {ℓ} : {A : Type ℓ} (p : A → Bool) {xs ys : List A} → Perm xs ys → any p xs ≡ any p ys
Perm-any p nil = refl
Perm-any p (skip x q) = rw (Perm-any p q)
Perm-any p (swap x y xs) = ground arith
Perm-any p (trans q r) = Perm-any p q ∙ Perm-any p r

-- The relation holds of each element and the later ones.
abbrev pub Pairwise {ℓ κ} : {A : Type ℓ} → (A → A → Type κ) → List A → Type κ
Pairwise R [] = Unit
Pairwise R (x ∷ xs) = All (R x) xs × Pairwise R xs

pub Perm-Pairwise {ℓ κ} :
    {A : Type ℓ} (R : A → A → Type κ) {xs ys : List A}
    → ((x y : A) → R x y → R y x)
    → Perm xs ys
    → Pairwise R xs
    → Pairwise R ys
Perm-Pairwise R sym nil h = tt
Perm-Pairwise R sym (skip x p) (q, h) = (Perm-All (R x) p q, Perm-Pairwise R sym p h)
Perm-Pairwise R sym (swap x y xs) ((xy, q), (r, h)) = ((sym x y xy, r), (q, h))
Perm-Pairwise R sym (trans p q) h = Perm-Pairwise R sym q (Perm-Pairwise R sym p h)

pub Perm_middle {ℓ} : {A : Type ℓ} (x : A) (xs ys : List A) → Perm (xs ++ x ∷ ys) (x ∷ xs ++ ys)
Perm_middle x [] ys = Perm_refl (x ∷ ys)
Perm_middle x (y ∷ xs) ys = trans (skip y (Perm_middle x xs ys)) (swap y x (xs ++ ys))

pub Perm-append {ℓ} :
    {A : Type ℓ} (xs : List A) {ys zs : List A} → Perm ys zs → Perm (xs ++ ys) (xs ++ zs)
Perm-append [] p = p
Perm-append (x ∷ xs) p = skip x (Perm-append xs p)

pub Perm-map {ℓ κ} :
    {A : Type ℓ} {B : Type κ} (f : A → B) {xs ys : List A} → Perm xs ys → Perm (map f xs) (map f ys)
Perm-map f nil = nil
Perm-map f (skip x p) = skip (f x) (Perm-map f p)
Perm-map f (swap x y xs) = swap (f x) (f y) (map f xs)
Perm-map f (trans p q) = trans (Perm-map f p) (Perm-map f q)
