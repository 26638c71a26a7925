-- ===== src/Base/Results.antt =====
-- `values.map(f)` where `f` may throw: the first exception ends it.
use mathlib.Core.Path.{◌≡◌, ap, ◌∙◌, subst}
use mathlib.Core.List.{List, [], ◌∷◌}
use opencode_better_compact.Base.Bools.{Result, ok, ◌>>=◌, >>=-eq-ok}
use opencode_better_compact.Base.Sort
use opencode_better_compact.Base.Sort.{Perm}

module _ {ℓ κ} {A : Type ℓ} {B : Type κ} (f : A → Result B) where
  unfoldable pub traverse : List A → Result (List B)
  traverse [] = ok []
  traverse (x ∷ xs) = do y ← f x; ys ← traverse xs; ok (y ∷ ys)

  pub traverse-cons :
      (x : A) (xs : List A) (zs : List B)
      → traverse (x ∷ xs) ≡ ok zs
      → (y : B) × (ys : List B) × (f x ≡ ok y) × (traverse xs ≡ ok ys) × (y ∷ ys ≡ zs)
  unfolding traverse
  traverse-cons x xs zs h =
      let (y, first, h') = >>=-eq-ok (f x) h in
      let (ys, later, h'') = >>=-eq-ok (traverse xs) h' in (y, ys, first, later, cc h'')

  traverse-intro :
      (x : A) (xs : List A) (y : B) (ys : List B)
      → f x ≡ ok y
      → traverse xs ≡ ok ys
      → traverse (x ∷ xs) ≡ ok (y ∷ ys)
  unfolding traverse
  traverse-intro x xs y ys e h = rw (e, h)

  -- In another order the results are the same, in another order.
  pub traverse-Perm :
      (zs : List B) {xs ys : List A}
      → Perm xs ys
      → traverse xs ≡ ok zs
      → (zs' : List B) × (traverse ys ≡ ok zs') × Perm zs zs'
  traverse-Perm zs Sort.nil h = (zs, h, Sort.Perm_refl zs)
  traverse-Perm zs (Sort.skip x {xs} {ys} p) h =
      let (y, rest, first, later, same) = traverse-cons x xs zs h in
      let (rest', later', q) = traverse-Perm rest p later in
      (
        y ∷ rest',
        traverse-intro x ys y rest' first later',
        subst (λ l. Perm l (y ∷ rest')) same (Sort.skip y q),
      )
  traverse-Perm zs (Sort.swap x x' xs) h =
      let (y, rest, first, later, same) = traverse-cons x (x' ∷ xs) zs h in
      let (y', rest', first', later', same') = traverse-cons x' xs rest later in
      (
        y' ∷ y ∷ rest',
        traverse-intro x' (x ∷ xs) y' (y ∷ rest') first' (traverse-intro x xs y rest' first later'),
        subst (λ l. Perm l (y' ∷ y ∷ rest')) (ap (λ l. y ∷ l) same' ∙ same) (Sort.swap y y' rest'),
      )
  traverse-Perm zs (Sort.trans p q) h =
      let (zs', h', r) = traverse-Perm zs p h in
      let (zs'', h'', r') = traverse-Perm zs' q h' in (zs'', h'', Sort.trans r r')

  pub traverse-nil : (zs : List B) → traverse [] ≡ ok zs → [] ≡ zs
  unfolding traverse
  traverse-nil zs h = cc h
