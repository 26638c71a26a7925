-- ===== src/Vcc/Order/Sets.antt =====
-- src/vcc.ts: `uniqueSorted` lists a set in its one ascending order.
use Prim.Native.Nat.{Ordering}
use opencode_better_compact.Base.{
  ◌≡◌, ◌≢◌, refl, ap, sym, ◌∙◌, Bool, true, false, not, ◌&&◌, List, [], ◌∷◌, arith, Text,
  Bool-cases, inl, inr, All, any, member, eq_text, eq_text_iff, member_later, member_here, subst,
}
use opencode_better_compact.Base.Sort.{Apart, Ascending, sort-Perm, Perm-any}
use opencode_better_compact.Base.Sort.Laws.{sort-Ascending}
use opencode_better_compact.Vcc.Order.{compare_code_points, unique_from, unique, unique_sorted}
use opencode_better_compact.Vcc.Order.Laws.{
  IsText, compare_code_points-IsPreorder, compare_code_points-eq,
}

pub member-any : (x : Text) (xs : List Text) → member x xs ≡ any (eq_text x) xs
unfolding member
member-any x [] = refl
member-any x (y ∷ ys) = ground (arith, member-any x ys)

member-unique_from :
    (y : Text) (seen xs : List Text)
    → member y (unique_from seen xs) ≡ (member y xs && not (member y seen))
unfolding unique_from member
member-unique_from y seen [] = refl
member-unique_from y seen (x ∷ xs) =
    ground
      (arith, member-unique_from y seen xs, member-unique_from y (x ∷ seen) xs, eq_text_iff y x)

unique_from-old :
    (x : Text) (seen xs : List Text)
    → member x seen ≡ true
    → unique_from seen (x ∷ xs) ≡ unique_from seen xs
unfolding unique_from
unique_from-old x seen xs h = rw (h, unique_from)

unique_from-new :
    (x : Text) (seen xs : List Text)
    → member x seen ≡ false
    → unique_from seen (x ∷ xs) ≡ x ∷ unique_from (x ∷ seen) xs
unfolding unique_from
unique_from-new x seen xs h = rw (h, unique_from)

member_nil : (x : Text) → member x [] ≡ false
unfolding member
member_nil x = refl

unique_from-apart :
    (x : Text) (seen xs : List Text)
    → member x seen ≡ true
    → IsText x
    → All IsText xs
    → All (λ y. compare_code_points x y ≢ Ordering.eq) (unique_from seen xs)
unfolding unique_from
unique_from-apart x seen [] m t h = tt
unique_from-apart x seen (y ∷ ys) m t (u, h) = elim (Bool-cases (member y seen)) [
  | inl old ↦
      subst (All _) (sym (unique_from-old y seen ys old)) (unique_from-apart x seen ys m t h)
  | inr new ↦ subst (All _) (sym (unique_from-new y seen ys new)) (
    (λ e. ground (arith, compare_code_points-eq x y t u e)),
    unique_from-apart x (y ∷ seen) ys (member_later x y seen m) t h,
  )
]

unique_from-Apart :
    (seen xs : List Text) → All IsText xs → Apart compare_code_points (unique_from seen xs)
unfolding unique_from
unique_from-Apart seen [] h = tt
unique_from-Apart seen (x ∷ xs) (t, h) = elim (Bool-cases (member x seen)) [
  | inl old ↦
      subst (Apart compare_code_points) (sym (unique_from-old x seen xs old))
        (unique_from-Apart seen xs h)
  | inr new ↦ subst (Apart compare_code_points) (sym (unique_from-new x seen xs new)) (
    unique_from-apart x (x ∷ seen) xs (member_here x seen) t h,
    unique_from-Apart (x ∷ seen) xs h,
  )
]

and_true : (b : Bool) → (b && true) ≡ b
and_true b = ground arith

-- For strings: the result of `uniqueSorted` is in strictly ascending order by code points, and has the members of
-- its argument.
pub unique_sorted-Ascending :
    (values : List Text)
    → All IsText values
    → Ascending compare_code_points (unique_sorted values)
      × ((x : Text) → member x (unique_sorted values) ≡ member x values)
unfolding unique_sorted unique member
unique_sorted-Ascending values h = (
  sort-Ascending compare_code_points compare_code_points-IsPreorder (unique_from [] values)
      (unique_from-Apart [] values h),
  λ x.
      member-any x _
      ∙ Perm-any (eq_text x) (sort-Perm compare_code_points (unique_from [] values))
      ∙ sym (member-any x _)
      ∙ member-unique_from x [] values
      ∙ and_true (member x values),
)

below_member :
    (x z : Text) (ys : List Text)
    → All (λ y. compare_code_points x y ≡ Ordering.lt) ys
    → member z ys ≡ true
    → compare_code_points x z ≡ Ordering.lt
unfolding member
below_member x z [] h m = cc
below_member x z (y ∷ ys) (p, h) m = ground (arith, eq_text_iff z y, below_member x z ys h)

lt_irrefl : (x : Text) → compare_code_points x x ≢ Ordering.lt
lt_irrefl x e = ground (arith, compare_code_points-IsPreorder.flop x x)

heads_eq :
    (x y : Text) (xs ys : List Text)
    → Ascending compare_code_points (x ∷ xs)
    → Ascending compare_code_points (y ∷ ys)
    → member x (y ∷ ys) ≡ true
    → member y (x ∷ xs) ≡ true
    → x ≡ y
unfolding member
heads_eq x y xs ys (p, h) (q, k) m n = ground (
  arith,
  eq_text_iff x y,
  eq_text_iff y x,
  below_member x y xs p,
  below_member y x ys q,
  compare_code_points-IsPreorder.flop x y,
)

tail_member :
    (x z : Text) (xs ys : List Text)
    → All (λ y. compare_code_points x y ≡ Ordering.lt) xs
    → All (λ y. compare_code_points x y ≡ Ordering.lt) ys
    → member z (x ∷ xs) ≡ member z (x ∷ ys)
    → member z xs ≡ member z ys
unfolding member
tail_member x z xs ys p q e =
    ground (arith, eq_text_iff z x, below_member x z xs p, below_member x z ys q, lt_irrefl x)

pub member-unique : (x : Text) (xs : List Text) → member x (unique xs) ≡ member x xs
unfolding unique member
member-unique x xs = member-unique_from x [] xs ∙ and_true (member x xs)

-- Ascending lists with the same members are equal.
pub Ascending-ext :
    (xs ys : List Text)
    → Ascending compare_code_points xs
    → Ascending compare_code_points ys
    → ((z : Text) → member z xs ≡ member z ys)
    → xs ≡ ys
Ascending-ext [] [] h k e = refl
Ascending-ext [] (y ∷ ys) h k e = cc (e y, member_here y ys, member_nil y)
Ascending-ext (x ∷ xs) [] h k e = cc (e x, member_here x xs, member_nil x)
Ascending-ext (x ∷ xs) (y ∷ ys) (p, h) (q, k) e =
    let same : x ≡ y =
      heads_eq x y xs ys (p, h) (q, k) (sym (e x) ∙ member_here x xs) (e y ∙ member_here y ys) in
    let q' : All (λ z. compare_code_points x z ≡ Ordering.lt) ys =
      subst (λ v. All (λ z. compare_code_points v z ≡ Ordering.lt) ys) (sym same) q in
    let rest : xs ≡ ys =
      Ascending-ext xs ys h k
        (λ z. tail_member x z xs ys p q' (e z ∙ ap (λ v. member z (v ∷ ys)) (sym same))) in
    cc (same, rest)

-- For strings: what `uniqueSorted` returns depends on the set of the values alone, neither on their
-- order nor on how often they occur.
pub unique_sorted-ext :
    (xs ys : List Text)
    → All IsText xs
    → All IsText ys
    → ((z : Text) → member z xs ≡ member z ys)
    → unique_sorted xs ≡ unique_sorted ys
unique_sorted-ext xs ys h k e =
    let (up, same) = unique_sorted-Ascending xs h in
    let (up', same') = unique_sorted-Ascending ys k in
    Ascending-ext (unique_sorted xs) (unique_sorted ys) up up' (λ z. same z ∙ e z ∙ sym (same' z))
