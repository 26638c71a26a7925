-- ===== src/Vcc/Order/Laws.antt =====
-- src/vcc.ts: `compareCodePoints` orders strings.
use Prim.Native.Nat.{Ordering}
use opencode_better_compact.Base.{
  ℕ, ◌+◌, ◌-◌, ◌/◌, ◌%◌, ◌<◌, ◌≡◌, refl, ap, sym, ◌∙◌, true, false, ◌&&◌, List, [], ◌∷◌, arith,
  Text, ltb, leb, leb→le, lt→ltb, &&-eq-true, ◌≤◌, Bool-cases, inl, inr, All, if◌then◌else◌,
}
use opencode_better_compact.Utf8.{is_high, is_low}
use opencode_better_compact.Base.Sort.{is_gt, IsPreorder}
use opencode_better_compact.Vcc.Order.{combine, code_points, compare_points, compare_code_points}

compare_points-flip :
    (s t : List ℕ) → compare_points s t ≡ Ordering.gt → compare_points t s ≡ Ordering.lt
unfolding compare_points
compare_points-flip [] [] h = cc
compare_points-flip [] (b ∷ t) h = cc
compare_points-flip (a ∷ s) [] h = refl
compare_points-flip (a ∷ s) (b ∷ t) h = ground (arith, compare_points-flip s t)

compare_points-flop :
    (s t : List ℕ) → compare_points s t ≡ Ordering.lt → compare_points t s ≡ Ordering.gt
unfolding compare_points
compare_points-flop [] [] h = cc
compare_points-flop [] (b ∷ t) h = refl
compare_points-flop (a ∷ s) [] h = cc
compare_points-flop (a ∷ s) (b ∷ t) h = ground (arith, compare_points-flop s t)

compare_points_trans :
    (s t u : List ℕ)
    → is_gt (compare_points s t) ≡ false
    → is_gt (compare_points t u) ≡ false
    → is_gt (compare_points s u) ≡ false
unfolding compare_points
compare_points_trans [] t [] h k = refl
compare_points_trans [] t (c ∷ u) h k = refl
compare_points_trans (a ∷ s) [] u h k = cc
compare_points_trans (a ∷ s) (b ∷ t) [] h k = cc
compare_points_trans (a ∷ s) (b ∷ t) (c ∷ u) h k = ground (arith, compare_points_trans s t u)

compare_points-eq : (s t : List ℕ) → compare_points s t ≡ Ordering.eq → s ≡ t
unfolding compare_points
compare_points-eq [] [] h = refl
compare_points-eq [] (b ∷ t) h = cc
compare_points-eq (a ∷ s) [] h = cc
compare_points-eq (a ∷ s) (b ∷ t) h = ground (arith, compare_points-eq s t)

pub compare_code_points-IsPreorder : IsPreorder Text compare_code_points
unfolding compare_code_points
compare_code_points-IsPreorder = record {
  flip = λ a b. compare_points-flip (code_points a) (code_points b);
  flop = λ a b. compare_points-flop (code_points a) (code_points b);
  le_trans = λ a b c. compare_points_trans (code_points a) (code_points b) (code_points c);
}

-- Every string of JavaScript: its code units have 16 bits.
abbrev pub IsText : Text → Type 0
IsText t = All (λ c. c < 0x10000) t

le→ltb : (a b : ℕ) → b ≤ a → ltb a b ≡ false
le→ltb a b h = ground arith

-- The code units of code points.
units : List ℕ → Text
units [] = []
units (p ∷ ps) =
    if ltb p 0x10000
    then p ∷ units ps
    else (0xd800 + (p - 0x10000) / 0x400) ∷ (0xdc00 + (p - 0x10000) % 0x400) ∷ units ps

units-pair :
    (c d : ℕ) (ps : List ℕ)
    → is_high c ≡ true
    → is_low d ≡ true
    → units (combine c d ∷ ps) ≡ c ∷ d ∷ units ps
unfolding units
units-pair c d ps h k =
    let (a, b) = &&-eq-true (leb 0xd800 c) (leb c 0xdbff) h in
    let (a', b') = &&-eq-true (leb 0xdc00 d) (leb d 0xdfff) k in
    let low = leb→le 0xd800 c a in
    let high = leb→le c 0xdbff b in
    let low' = leb→le 0xdc00 d a' in
    let high' = leb→le d 0xdfff b' in
    let first : 0xd800 + (combine c d - 0x10000) / 0x400 ≡ c = omega arith in
    let second : 0xdc00 + (combine c d - 0x10000) % 0x400 ≡ d = omega arith in
    let long : 0x10000 ≤ combine c d = omega arith in
    rw (le→ltb (combine c d) 0x10000 long, first, second)

units-single : (c : ℕ) (ps : List ℕ) → c < 0x10000 → units (c ∷ ps) ≡ c ∷ units ps
unfolding units
units-single c ps h = rw (lt→ltb c 0x10000 h)

units-code_points : (t : Text) → IsText t → units (code_points t) ≡ t
unfolding units code_points
units-code_points [] h = refl
units-code_points (c ∷ []) (p, h) = units-single c [] p
units-code_points (c ∷ d ∷ r) (p, (q, h)) = elim (Bool-cases (is_high c && is_low d)) [
  | inl pair ↦
      let (high, low) = &&-eq-true (is_high c) (is_low d) pair in
      rw pair
        (units-pair c d (code_points r) high low ∙ ap (λ u. c ∷ d ∷ u) (units-code_points r h))
  | inr single ↦
      rw single (
        units-single c (code_points (d ∷ r)) p ∙ ap (λ u. c ∷ u) (units-code_points (d ∷ r) (q, h)))
]

-- Strings that are equal in the order are equal.
pub compare_code_points-eq :
    (s t : Text) → IsText s → IsText t → compare_code_points s t ≡ Ordering.eq → s ≡ t
unfolding compare_code_points
compare_code_points-eq s t h k e =
    sym (units-code_points s h)
    ∙ ap units (compare_points-eq (code_points s) (code_points t) e)
    ∙ units-code_points t k
