-- ===== src/Vcc/Json/Limits.antt =====
-- src/vcc.ts: the size of a value that is read (`StrictJsonReader`).
use opencode_better_compact.Base.{
  ◌≡◌, ℕ, zero, suc, Option, none, some, List, [], ◌∷◌, arith, ltb, ltb→lt, Text, is_empty,
}
use opencode_better_compact.Base.Ensures.{Ensures, Ensures-if, Ensures->>, Ensures->>=, Ensures-eq}
use opencode_better_compact.Base.Value.{Value, arr, obj, Items, nil, Fields, end, Number}
use opencode_better_compact.Vcc.Json.Tokens.{skip_space, read_string}
use opencode_better_compact.Vcc.Json.{
  max_array_length, is_next, rest_of, read_key, value_at, read_value, read_members, read_items,
  as_object, as_array, parse, enough,
}
use opencode_better_compact.Vcc.Json.Sizes.{
  IsLimited, read_string-bounded, read_scalar-IsLimited, read_key-new, AreMembers,
  put_field-AreMembers, end-AreMembers, add_field-AreMembers, AreElements, add_item-AreElements,
  open_block-IsLimited, as_object-IsLimited, as_array-IsLimited, as_string-IsLimited,
}

module _ (read_double : Text → Number) where
  value_at-IsLimited :
      (depth : ℕ) (s : Text) (members : Option (Fields × Text)) (elements : Option (Items × Text))
      → Ensures (λ p. AreMembers (suc depth) [] p.0) members
      → Ensures (λ p. AreElements (suc depth) 0 p.0) elements
      → Ensures (λ p. IsLimited depth p.0) (value_at read_double depth s members elements)
  unfolding value_at
  value_at-IsLimited depth s members elements m e =
      Ensures-if (λ p. IsLimited depth p.0) (is_next b'{' s) _ _
        (open_block-IsLimited b'}' depth (obj end) (rest_of s) (as_object members)
          (λ below. (below, (end-AreMembers (suc depth) []).once, tt))
          (λ below. as_object-IsLimited depth members below m))
        (Ensures-if (λ p. IsLimited depth p.0) (is_next b'[' s) _ _
          (open_block-IsLimited b']' depth (arr nil) (rest_of s) (as_array elements)
            (λ below. (below, omega arith, tt))
            (λ below. as_array-IsLimited depth elements below e))
          (Ensures-if (λ p. IsLimited depth p.0) (is_next b'"' s) _ _
            (as_string-IsLimited depth (read_string (rest_of s)) (read_string-bounded (rest_of s)))
            (read_scalar-IsLimited read_double depth s)))

  mutual
    unfolding read_value

    read_value-IsLimited :
        (fuel depth : ℕ) (s : Text)
        → Ensures (λ p. IsLimited depth p.0) (read_value read_double fuel depth s)
    read_value-IsLimited zero depth s = tt
    read_value-IsLimited (suc fuel) depth s =
        let t = skip_space s in
        value_at-IsLimited depth t _ _ (read_members-AreMembers fuel (suc depth) [] (rest_of t))
          (read_items-AreElements fuel (suc depth) 0 (rest_of t))

    read_members-AreMembers :
        (fuel depth : ℕ) (seen : List Text) (s : Text)
        → Ensures (λ p. AreMembers depth seen p.0) (read_members read_double fuel depth seen s)
    read_members-AreMembers zero depth seen s = tt
    read_members-AreMembers (suc fuel) depth seen s =
        Ensures->>= (λ p. AreMembers depth seen p.0) (read_key seen s) _
          (λ key e.
            Ensures->>= (λ p. AreMembers depth seen p.0) (read_value read_double fuel depth key.1) _
              (λ value e'.
                let after = skip_space value.1 in
                let (new, bounded) = Ensures-eq _ (read_key seen s) key (read_key-new seen s) e in
                let limited =
                  Ensures-eq (λ p. IsLimited depth p.0) (read_value read_double fuel depth key.1)
                    value (read_value-IsLimited fuel depth key.1) e' in
                let more = read_members read_double fuel depth (key.0 ∷ seen) (rest_of after) in
                Ensures-if (λ p. AreMembers depth seen p.0) (is_next b'}' after) _ _
                  (put_field-AreMembers depth seen key.0 value.0 end new bounded limited
                    (end-AreMembers depth (key.0 ∷ seen)))
                  (Ensures-if (λ p. AreMembers depth seen p.0) (is_next b',' after) _ _
                    (add_field-AreMembers depth seen key.0 value.0 more new bounded limited
                      (read_members-AreMembers fuel depth (key.0 ∷ seen) (rest_of after)))
                    tt)))

    read_items-AreElements :
        (fuel depth count : ℕ) (s : Text)
        → Ensures (λ p. AreElements depth count p.0) (read_items read_double fuel depth count s)
    read_items-AreElements zero depth count s = tt
    read_items-AreElements (suc fuel) depth count s =
        Ensures->> (λ p. AreElements depth count p.0) (ltb count max_array_length) _
          (λ room.
            Ensures->>= (λ p. AreElements depth count p.0) (read_value read_double fuel depth s) _
              (λ value e.
                let after = skip_space value.1 in
                let limited =
                  Ensures-eq (λ p. IsLimited depth p.0) (read_value read_double fuel depth s) value
                    (read_value-IsLimited fuel depth s) e in
                let more = read_items read_double fuel depth (suc count) (rest_of after) in
                Ensures-if (λ p. AreElements depth count p.0) (is_next b']' after) _ _
                  (omega (arith, ltb→lt count 128 room), (limited, tt))
                  (Ensures-if (λ p. AreElements depth count p.0) (is_next b',' after) _ _
                    (add_item-AreElements depth count value.0 more limited
                      (read_items-AreElements fuel depth (suc count) (rest_of after)))
                    tt)))

  -- A value that is read is small: at most eight levels, arrays of at most 128 elements, strings and
  -- keys of at most 4096 bytes, and no key twice in an object.
  pub parse-IsLimited : (text : Text) (v : Value) → parse read_double text ≡ some v → IsLimited 0 v
  unfolding parse
  parse-IsLimited text v h =
      Ensures-eq (IsLimited 0) (parse read_double text) v
        (Ensures->>= (IsLimited 0) (read_value read_double (enough text) 0 text) _ (λ found e.
          Ensures-if (IsLimited 0) (is_empty (skip_space found.1)) (some found.0) none
            (Ensures-eq (λ p. IsLimited 0 p.0) (read_value read_double (enough text) 0 text) found
              (read_value-IsLimited (enough text) 0 text) e)
            tt))
        h
