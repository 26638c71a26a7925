-- ===== src/Vcc/Order/Distinct.antt =====
-- src/vcc.ts: a set of identities has each of them once (`uniqueSorted`).
use opencode_better_compact.Base.{
  ◌≡◌, refl, sym, ◌∙◌, Bool, true, false, ◌||◌, List, [], ◌∷◌, ◌++◌, map, any, arith, Text, eq_text,
  eq_text_iff, member, member_here, distinct,
}
use opencode_better_compact.Base.Sort.{
  Perm, nil, skip, swap, trans, Perm-any, Sorted, sort, sort-Perm,
}
use opencode_better_compact.Base.Sort.Laws.{sort-Sorted}
use opencode_better_compact.Vcc.Order.{compare_code_points, unique, unique_from, unique_sorted}
use opencode_better_compact.Vcc.Order.Laws.{compare_code_points-IsPreorder}
use opencode_better_compact.Vcc.Order.Sets.{member-any, member-unique}

unique_from-fresh :
    (x : Text) (seen xs : List Text) → member x seen ≡ true → member x (unique_from seen xs) ≡ false
unfolding unique_from member
unique_from-fresh x seen [] h = refl
unique_from-fresh x seen (y ∷ ys) h =
    ground (arith, unique_from-fresh x seen ys, unique_from-fresh x (y ∷ seen) ys, eq_text_iff x y)

distinct-unique_from : (seen xs : List Text) → distinct (unique_from seen xs) ≡ true
unfolding unique_from distinct
distinct-unique_from seen [] = refl
distinct-unique_from seen (x ∷ xs) = ground (
  arith,
  distinct-unique_from seen xs,
  distinct-unique_from (x ∷ seen) xs,
  unique_from-fresh x (x ∷ seen) xs (member_here x seen),
)

pub distinct-unique : (xs : List Text) → distinct (unique xs) ≡ true
unfolding unique
distinct-unique xs = distinct-unique_from [] xs

pub Perm-member : (x : Text) {xs ys : List Text} → Perm xs ys → member x xs ≡ member x ys
Perm-member x {xs = xs} {ys = ys} p =
    member-any x xs ∙ Perm-any (eq_text x) p ∙ sym (member-any x ys)

pub Perm-distinct : {xs ys : List Text} → Perm xs ys → distinct xs ≡ distinct ys
unfolding distinct member
Perm-distinct nil = refl
Perm-distinct (skip x p) = ground (arith, Perm-member x p, Perm-distinct p)
Perm-distinct (swap x y xs) = ground (arith, eq_text_iff x y, eq_text_iff y x)
Perm-distinct (trans p q) = Perm-distinct p ∙ Perm-distinct q

pub member-append :
    (x : Text) (xs ys : List Text) → member x (xs ++ ys) ≡ (member x xs || member x ys)
unfolding member
member-append x [] ys = refl
member-append x (y ∷ xs) ys = ground (arith, member-append x xs ys)

pub member-map {ℓ} :
    {A : Type ℓ} (x : Text) (f : A → Text) (xs : List A)
    → member x (map f xs) ≡ any (λ a. eq_text x (f a)) xs
unfolding member
member-map x f [] = refl
member-map x f (a ∷ xs) = ground (arith, member-map x f xs)

-- The list is in order of code points and holds each member once.
pub record Lists (xs : List Text) (holds : Text → Bool) : Type 0 where
  pub sorted : Sorted compare_code_points xs
  pub once : distinct xs ≡ true
  pub exact : (x : Text) → member x xs ≡ holds x

-- A sorted list of a set.
pub sort-Lists :
    (xs : List Text) (holds : Text → Bool)
    → distinct xs ≡ true
    → ((x : Text) → member x xs ≡ holds x)
    → Lists (sort compare_code_points xs) holds
sort-Lists xs holds once exact = record {
  sorted = sort-Sorted compare_code_points compare_code_points-IsPreorder xs;
  once = Perm-distinct (sort-Perm compare_code_points xs) ∙ once;
  exact = λ x. Perm-member x (sort-Perm compare_code_points xs) ∙ exact x;
}

pub unique_sorted-Lists : (xs : List Text) → Lists (unique_sorted xs) (λ x. member x xs)
unfolding unique_sorted
unique_sorted-Lists xs = sort-Lists (unique xs) _ (distinct-unique xs) (λ x. member-unique x xs)
