-- ===== src/Base/Sort/Laws.antt =====
-- What sorting gives by a preorder, and when the order of the input does not matter.
use Prim.Native.Nat.{Ordering}
use mathlib.Core.Path.{◌≡◌, refl, ◌∙◌}
use mathlib.Core.Logic.{◌≢◌, inl, inr}
use mathlib.Core.Bool.{false}
use mathlib.Core.List.{List, [], ◌∷◌}
use native.Mathlib.Omega.{arith}
use opencode_better_compact.Base.Bools.{Bool-cases}
use opencode_better_compact.Base.Lists.{All}
use opencode_better_compact.Base.Sort.{
  is_gt, IsPreorder, Perm, nil, skip, swap, trans, Perm-All, insert, sort, sort-Perm, Sorted, Apart,
  Ascending, Perm_sym,
}

module _ {ℓ} {A : Type ℓ} (cmp : A → A → Ordering) (order : IsPreorder A cmp) where
  All-le_trans :
      (x y : A) (ys : List A)
      → is_gt (cmp x y) ≡ false
      → All (λ z. is_gt (cmp y z) ≡ false) ys
      → All (λ z. is_gt (cmp x z) ≡ false) ys
  All-le_trans x y [] h k = tt
  All-le_trans x y (z ∷ ys) h (q, k) = (order.le_trans x y z h q, All-le_trans x y ys h k)

  All-insert {κ} : (P : A → Type κ) (x : A) (ys : List A) → P x → All P ys → All P (insert cmp x ys)
  unfolding insert
  All-insert P x [] p h = (p, tt)
  All-insert P x (y ∷ ys) p (q, h) = elim (Bool-cases (is_gt (cmp x y))) [
    | inl later ↦ rw later (q, All-insert P x ys p h)
    | inr here ↦ rw here (p, (q, h))
  ]

  insert-Sorted : (x : A) (ys : List A) → Sorted cmp ys → Sorted cmp (insert cmp x ys)
  unfolding insert
  insert-Sorted x [] h = (tt, tt)
  insert-Sorted x (y ∷ ys) (below, h) = elim (Bool-cases (is_gt (cmp x y))) [
    | inl later ↦ rw later (
      All-insert (λ z. is_gt (cmp y z) ≡ false) x ys (ground (arith, order.flip x y)) below,
      insert-Sorted x ys h,
    )
    | inr here ↦ rw here ((here, All-le_trans x y ys here below), (below, h))
  ]

  pub sort-Sorted : (xs : List A) → Sorted cmp (sort cmp xs)
  unfolding sort
  sort-Sorted [] = tt
  sort-Sorted (x ∷ xs) = insert-Sorted x (sort cmp xs) (sort-Sorted xs)

  eq_sym : (x y : A) → cmp x y ≢ Ordering.eq → cmp y x ≢ Ordering.eq
  eq_sym x y h e = ground (arith, order.flip x y, order.flop x y)

  insert_comm :
      (x y : A) (zs : List A)
      → cmp x y ≢ Ordering.eq
      → insert cmp x (insert cmp y zs) ≡ insert cmp y (insert cmp x zs)
  unfolding insert
  insert_comm x y [] h = ground (arith, order.flip x y, order.flop x y)
  insert_comm x y (z ∷ zs) h = ground (
    arith,
    order.flip x y,
    order.flop x y,
    order.le_trans x z y,
    order.le_trans y z x,
    order.flip x z,
    order.flip y z,
    order.le_trans y x z,
    order.le_trans x y z,
    insert_comm x y zs h,
  )

  pub Perm-Apart : {xs ys : List A} → Perm xs ys → Apart cmp xs → Apart cmp ys
  Perm-Apart nil h = tt
  Perm-Apart (skip x p) (q, h) = (Perm-All (λ z. cmp x z ≢ Ordering.eq) p q, Perm-Apart p h)
  Perm-Apart (swap x y xs) ((xy, q), (r, h)) = ((eq_sym x y xy, r), (q, h))
  Perm-Apart (trans p q) h = Perm-Apart q (Perm-Apart p h)

  -- Elements that are apart sort into one list, whatever their order.
  pub sort_of_Perm : {xs ys : List A} → Perm xs ys → Apart cmp xs → sort cmp xs ≡ sort cmp ys
  unfolding sort
  sort_of_Perm nil h = refl
  sort_of_Perm (skip x p) (q, h) = rw (sort_of_Perm p h)
  sort_of_Perm (swap x y xs) ((xy, q), (r, h)) = insert_comm x y (sort cmp xs) xy
  sort_of_Perm (trans p q) h = sort_of_Perm p h ∙ sort_of_Perm q (Perm-Apart p h)

  lt-All :
      (x : A) (ys : List A)
      → All (λ y. is_gt (cmp x y) ≡ false) ys
      → All (λ y. cmp x y ≢ Ordering.eq) ys
      → All (λ y. cmp x y ≡ Ordering.lt) ys
  lt-All x [] h k = tt
  lt-All x (y ∷ ys) (p, h) (q, k) = (ground arith, lt-All x ys h k)

  Sorted-Ascending : (xs : List A) → Sorted cmp xs → Apart cmp xs → Ascending cmp xs
  Sorted-Ascending [] h k = tt
  Sorted-Ascending (x ∷ xs) (p, h) (q, k) = (lt-All x xs p q, Sorted-Ascending xs h k)

  pub sort-Ascending : (xs : List A) → Apart cmp xs → Ascending cmp (sort cmp xs)
  sort-Ascending xs h =
      Sorted-Ascending (sort cmp xs) (sort-Sorted xs) (Perm-Apart (Perm_sym (sort-Perm cmp xs)) h)
