-- ===== src/Vcc/Json/Fuel.antt =====
-- src/vcc.ts: the reader ends on every text (`StrictJsonReader`): its fuel is enough.
use opencode_better_compact.Base.{
  ◌≡◌, refl, ◌∙◌, ap, ℕ, zero, suc, ◌+◌, ◌*◌, ◌<◌, true, Option, none, some, List, [], ◌∷◌, arith,
  length, Bool-cases, inl, inr, Text, ltb,
}
use opencode_better_compact.Base.Value.{Fields, end, Items, nil, cons, Number, ◌>>=◌, ◌>>◌}
use opencode_better_compact.Vcc.Json.Tokens.{skip_space}
use opencode_better_compact.Vcc.Json.{
  max_array_length, is_next, rest_of, put_field, read_key, value_at, read_value, read_members,
  read_items, delimited, add_field, add_item, enough,
}
use opencode_better_compact.Vcc.Json.Rests.{Leaves-eq, length-skip_space-le}
use opencode_better_compact.Vcc.Json.Shorter.{read_key-Leaves, rest_of-lt, read_value-Leaves}

-- Two blocks that agree on what their step has.
>>=-cong {ℓ κ} :
    {A : Type ℓ} {B : Type κ} (step : Option A) (next next' : A → Option B)
    → ((a : A) → step ≡ some a → next a ≡ next' a)
    → (step >>= next) ≡ (step >>= next')
>>=-cong none next next' h = refl
>>=-cong (some a) next next' h = h a refl

delimited-cong {ℓ} :
    {A : Type ℓ} (close : ℕ) (s : Text) (last : A) (more more' : Option (A × Text))
    → (is_next b',' s ≡ true → more ≡ more')
    → delimited close s last more ≡ delimited close s last more'
delimited-cong close s last more more' h = elim (Bool-cases (is_next b',' s)) [
  | inl e ↦ ap (delimited close s last) (h e)
  | inr e ↦ rw e
]

module _ (read_double : Text → Number) where
  value_at-cong :
      (depth : ℕ) (s : Text) (m m' : Option (Fields × Text)) (e e' : Option (Items × Text))
      → (is_next b'{' s ≡ true → m ≡ m')
      → (is_next b'[' s ≡ true → e ≡ e')
      → value_at read_double depth s m e ≡ value_at read_double depth s m' e'
  unfolding value_at
  value_at-cong depth s m m' e e' h k = elim (Bool-cases (is_next b'{' s)) [
    | inl o ↦ rw (o, h o)
    | inr o ↦ elim (Bool-cases (is_next b'[' s)) [ inl a ↦ rw (o, a, k a) | inr a ↦ rw (o, a) ]
  ]

  mutual
    unfolding read_value

    read_value_enough :
        (f g depth : ℕ) (s : Text)
        → 2 * length s < f
        → 2 * length s < g
        → read_value read_double f depth s ≡ read_value read_double g depth s
    read_value_enough zero g depth s h k = absurd (omega arith)
    read_value_enough (suc f) zero depth s h k = absurd (omega arith)
    read_value_enough (suc f) (suc g) depth s h k =
        let t = skip_space s in
        let le = length-skip_space-le s in
        value_at-cong depth t _ _ _ _
          (λ o.
            read_members_enough f g (suc depth) [] (rest_of t)
              (omega (arith, le, rest_of-lt b'{' t o, h))
              (omega (arith, le, rest_of-lt b'{' t o, k)))
          (λ o.
            read_items_enough f g (suc depth) 0 (rest_of t)
              (omega (arith, le, rest_of-lt b'[' t o, h))
              (omega (arith, le, rest_of-lt b'[' t o, k)))

    read_members_enough :
        (f g depth : ℕ) (seen : List Text) (s : Text)
        → 2 * length s + 1 < f
        → 2 * length s + 1 < g
        → read_members read_double f depth seen s ≡ read_members read_double g depth seen s
    read_members_enough zero g depth seen s h k = absurd (omega arith)
    read_members_enough (suc f) zero depth seen s h k = absurd (omega arith)
    read_members_enough (suc f) (suc g) depth seen s h k = >>=-cong (read_key seen s) _ _ (λ key e.
        let key_lt =
          Leaves-eq (length s) (read_key seen s) key.0 key.1 (read_key-Leaves seen s) e in
        ap
          (λ step. step >>= (λ value.
            delimited b'}' (skip_space value.1) (put_field key.0 value.0 end) (
              add_field key.0 value.0
                (read_members read_double f depth (key.0 ∷ seen) (rest_of (skip_space value.1))))))
          (read_value_enough f g depth key.1 (omega (arith, key_lt, h)) (omega (arith, key_lt, k)))
        ∙ >>=-cong (read_value read_double g depth key.1) _ _ (λ value e'.
          let after = skip_space value.1 in
          let value_lt =
            Leaves-eq (length key.1) (read_value read_double g depth key.1) value.0 value.1
              (read_value-Leaves read_double g depth key.1) e' in
          let le = length-skip_space-le value.1 in
          delimited-cong b'}' after _ _ _ (λ o. ap (add_field key.0 value.0) (
            read_members_enough f g depth (key.0 ∷ seen) (rest_of after)
              (omega (arith, le, rest_of-lt b',' after o, key_lt, value_lt, h))
              (omega (arith, le, rest_of-lt b',' after o, key_lt, value_lt, k))))))

    read_items_enough :
        (f g depth count : ℕ) (s : Text)
        → 2 * length s + 1 < f
        → 2 * length s + 1 < g
        → read_items read_double f depth count s ≡ read_items read_double g depth count s
    read_items_enough zero g depth count s h k = absurd (omega arith)
    read_items_enough (suc f) zero depth count s h k = absurd (omega arith)
    read_items_enough (suc f) (suc g) depth count s h k =
        ap (λ o. ltb count max_array_length >> o)
          (ap
              (λ step. step >>= (λ value. delimited b']' (skip_space value.1) (cons value.0 nil) (
                add_item value.0
                  (read_items read_double f depth (suc count) (rest_of (skip_space value.1))))))
              (read_value_enough f g depth s (omega (arith, h)) (omega (arith, k)))
            ∙ >>=-cong (read_value read_double g depth s) _ _ (λ value e.
              let after = skip_space value.1 in
              let value_lt =
                Leaves-eq (length s) (read_value read_double g depth s) value.0 value.1
                  (read_value-Leaves read_double g depth s) e in
              let le = length-skip_space-le value.1 in
              delimited-cong b']' after _ _ _ (λ o. ap (add_item value.0) (
                read_items_enough f g depth (suc count) (rest_of after)
                  (omega (arith, le, rest_of-lt b',' after o, value_lt, h))
                  (omega (arith, le, rest_of-lt b',' after o, value_lt, k))))))

  -- The reader ends on every text: with the fuel that it is given, or with any more, it reads the same.
  pub read_value-enough :
      (text : Text) (depth more : ℕ)
      → read_value read_double (enough text + more) depth text
        ≡ read_value read_double (enough text) depth text
  read_value-enough text depth more =
      read_value_enough (enough text + more) (enough text) depth text (omega arith) (omega arith)
