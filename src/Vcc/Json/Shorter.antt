-- ===== src/Vcc/Json/Shorter.antt =====
-- src/vcc.ts: a value that is read leaves a shorter text (`StrictJsonReader.value`).
use opencode_better_compact.Base.{
  ◌≡◌, ℕ, zero, suc, ◌≤◌, ◌<◌, true, false, not, Option, none, some, List, [], ◌∷◌, arith, length,
  drop, length-drop, Text, codes, starts_with, member, ltb,
}
use opencode_better_compact.Base.Ensures.{Ensures-if, Ensures-cases, Ensures->>, Ensures->>=}
use opencode_better_compact.Base.Value.{
  Value, null, bool, Fields, Items, Number, end, nil, arr, obj,
}
use opencode_better_compact.Vcc.Json.Tokens.{skip_space, read_string, read_number}
use opencode_better_compact.Vcc.Json.{
  max_depth, max_array_length, expect, is_next, rest_of, read_key, read_scalar, value_at,
  read_value, read_members, read_items, open_block, as_object, as_array, as_string, delimited,
  add_field, add_item,
}
use opencode_better_compact.Vcc.Json.Rests.{
  IsShorter, Leaves, Leaves-mono, Leaves-eq, length-skip_space-le, read_string-Leaves,
  read_number-Leaves,
}

starts_with-le : (s p : Text) → starts_with s p ≡ true → length p ≤ length s
unfolding starts_with
starts_with-le s [] h = omega arith
starts_with-le [] (c ∷ p) h = cc
starts_with-le (d ∷ s) (c ∷ p) h = ground (arith, starts_with-le s p)

word-Leaves :
    (s word : Text) (v : Value)
    → starts_with s word ≡ true
    → 0 < length word
    → Leaves (length s) (some (v, drop (length word) s))
word-Leaves s word v h k = omega (arith, starts_with-le s word h, length-drop (length word) s)

read_scalar-Leaves :
    (read_double : Text → Number) (s : Text) → Leaves (length s) (read_scalar read_double s)
unfolding read_scalar
read_scalar-Leaves read_double s =
    Ensures-cases (IsShorter (length s)) (starts_with s (codes "true")) _ _
      (λ h. word-Leaves s (codes "true") (bool true) h (omega arith))
      (λ _.
        Ensures-cases (IsShorter (length s)) (starts_with s (codes "false")) _ _
          (λ h. word-Leaves s (codes "false") (bool false) h (omega arith))
          (λ _.
            Ensures-cases (IsShorter (length s)) (starts_with s (codes "null")) _ _
              (λ h. word-Leaves s (codes "null") null h (omega arith))
              (λ _. Ensures->>= (IsShorter (length s)) (read_number read_double s) _ (λ found e.
                Leaves-eq (length s) (read_number read_double s) found.0 found.1
                  (read_number-Leaves read_double s) e))))

expect-lt : (c : ℕ) (s rest : Text) → expect c s ≡ some rest → length rest < length s
expect-lt c [] rest h = cc
expect-lt c (d ∷ s) rest h = ground arith

pub read_key-Leaves : (seen : List Text) (s : Text) → Leaves (length s) (read_key seen s)
unfolding read_key
read_key-Leaves seen s = Ensures->>= (IsShorter (length s)) (expect b'"' (skip_space s)) _ (λ s1 e1.
    Ensures->>= (IsShorter (length s)) (read_string s1) _ (λ found e2.
      Ensures->> (IsShorter (length s)) (not (member found.0 seen)) _ (λ _.
        Ensures->>= (IsShorter (length s)) (expect b':' (skip_space found.1)) _ (λ s3 e3. omega (
          arith,
          length-skip_space-le s,
          expect-lt b'"' (skip_space s) s1 e1,
          Leaves-eq (length s1) (read_string s1) found.0 found.1 (read_string-Leaves s1) e2,
          length-skip_space-le found.1,
          expect-lt b':' (skip_space found.1) s3 e3,
        )))))

pub rest_of-lt : (c : ℕ) (s : Text) → is_next c s ≡ true → length (rest_of s) < length s
rest_of-lt c [] h = cc
rest_of-lt c (d ∷ s) h = omega arith

pub rest_of-le : (s : Text) → length (rest_of s) ≤ length s
rest_of-le [] = omega arith
rest_of-le (d ∷ s) = omega arith

open_block-Leaves :
    (n close depth : ℕ) (empty : Value) (s : Text) (content : Option (Value × Text))
    → length s < n
    → Leaves n content
    → Leaves n (open_block close empty depth s content)
open_block-Leaves n close depth empty s content h l =
    Ensures-if (IsShorter n) (ltb max_depth depth) none _ tt (
      Ensures-if (IsShorter n) (is_next close (skip_space s)) (some (empty, rest_of (skip_space s)))
        content (omega (arith, rest_of-le (skip_space s), length-skip_space-le s, h)) l)

as_object-Leaves : (n : ℕ) (o : Option (Fields × Text)) → Leaves n o → Leaves n (as_object o)
as_object-Leaves n none l = tt
as_object-Leaves n (some (fs, rest)) l = l

as_array-Leaves : (n : ℕ) (o : Option (Items × Text)) → Leaves n o → Leaves n (as_array o)
as_array-Leaves n none l = tt
as_array-Leaves n (some (fs, rest)) l = l

as_string-Leaves : (n : ℕ) (o : Option (Text × Text)) → Leaves n o → Leaves n (as_string o)
as_string-Leaves n none l = tt
as_string-Leaves n (some (t, rest)) l = l

add_field-Leaves :
    (n : ℕ) (key : Text) (v : Value) (o : Option (Fields × Text))
    → Leaves n o
    → Leaves n (add_field key v o)
add_field-Leaves n key v none l = tt
add_field-Leaves n key v (some (fs, rest)) l = l

add_item-Leaves :
    (n : ℕ) (v : Value) (o : Option (Items × Text)) → Leaves n o → Leaves n (add_item v o)
add_item-Leaves n v none l = tt
add_item-Leaves n v (some (fs, rest)) l = l

delimited-Leaves {ℓ} :
    {A : Type ℓ} (n close : ℕ) (s : Text) (last : A) (more : Option (A × Text))
    → length s < n
    → Leaves n more
    → Leaves n (delimited close s last more)
delimited-Leaves n close s last more h l =
    Ensures-if (IsShorter n) (is_next close s) (some (last, rest_of s)) _
      (omega (arith, rest_of-le s, h)) (Ensures-if (IsShorter n) (is_next b',' s) more none l tt)

module _ (read_double : Text → Number) where
  value_at-Leaves :
      (depth : ℕ) (s : Text) (members : Option (Fields × Text)) (elements : Option (Items × Text))
      → Leaves (length s) members
      → Leaves (length s) elements
      → Leaves (length s) (value_at read_double depth s members elements)
  unfolding value_at
  value_at-Leaves depth s members elements l k =
      let n = length s in
      Ensures-cases (IsShorter n) (is_next b'{' s) _ _
        (λ h.
          open_block-Leaves n b'}' (suc depth) (obj end) (rest_of s) (as_object members)
            (rest_of-lt b'{' s h) (as_object-Leaves n members l))
        (λ _.
          Ensures-cases (IsShorter n) (is_next b'[' s) _ _
            (λ h.
              open_block-Leaves n b']' (suc depth) (arr nil) (rest_of s) (as_array elements)
                (rest_of-lt b'[' s h) (as_array-Leaves n elements k))
            (λ _.
              Ensures-cases (IsShorter n) (is_next b'"' s) _ _
                (λ h. as_string-Leaves n (read_string (rest_of s)) (
                  Leaves-mono (length (rest_of s)) n (read_string (rest_of s)) (rest_of-le s)
                    (read_string-Leaves (rest_of s))))
                (λ _. read_scalar-Leaves read_double s)))

  mutual
    unfolding read_value

    pub read_value-Leaves :
        (fuel depth : ℕ) (s : Text) → Leaves (length s) (read_value read_double fuel depth s)
    read_value-Leaves zero depth s = tt
    read_value-Leaves (suc fuel) depth s =
        let t = skip_space s in
        let members = read_members read_double fuel (suc depth) [] (rest_of t) in
        let elements = read_items read_double fuel (suc depth) 0 (rest_of t) in
        Leaves-mono (length t) (length s) (value_at read_double depth t members elements)
          (length-skip_space-le s)
          (value_at-Leaves depth t members elements
            (Leaves-mono (length (rest_of t)) (length t) members (rest_of-le t)
              (read_members-Leaves fuel (suc depth) [] (rest_of t)))
            (Leaves-mono (length (rest_of t)) (length t) elements (rest_of-le t)
              (read_items-Leaves fuel (suc depth) 0 (rest_of t))))

    read_members-Leaves :
        (fuel depth : ℕ) (seen : List Text) (s : Text)
        → Leaves (length s) (read_members read_double fuel depth seen s)
    read_members-Leaves zero depth seen s = tt
    read_members-Leaves (suc fuel) depth seen s =
        Ensures->>= (IsShorter (length s)) (read_key seen s) _ (λ key e.
          Ensures->>= (IsShorter (length s)) (read_value read_double fuel depth key.1) _
            (λ value e'.
              let after = skip_space value.1 in
              let key_lt =
                Leaves-eq (length s) (read_key seen s) key.0 key.1 (read_key-Leaves seen s) e in
              let value_lt =
                Leaves-eq (length key.1) (read_value read_double fuel depth key.1) value.0 value.1
                  (read_value-Leaves fuel depth key.1) e' in
              let more = read_members read_double fuel depth (key.0 ∷ seen) (rest_of after) in
              delimited-Leaves (length s) b'}' after _ (add_field key.0 value.0 more)
                (omega (arith, length-skip_space-le value.1, key_lt, value_lt))
                (add_field-Leaves (length s) key.0 value.0 more (
                  Leaves-mono (length (rest_of after)) (length s) more
                    (omega
                      (arith, rest_of-le after, length-skip_space-le value.1, key_lt, value_lt))
                    (read_members-Leaves fuel depth (key.0 ∷ seen) (rest_of after))))))

    read_items-Leaves :
        (fuel depth count : ℕ) (s : Text)
        → Leaves (length s) (read_items read_double fuel depth count s)
    read_items-Leaves zero depth count s = tt
    read_items-Leaves (suc fuel) depth count s =
        Ensures->> (IsShorter (length s)) (ltb count max_array_length) _ (λ _.
          Ensures->>= (IsShorter (length s)) (read_value read_double fuel depth s) _ (λ value e.
            let after = skip_space value.1 in
            let value_lt =
              Leaves-eq (length s) (read_value read_double fuel depth s) value.0 value.1
                (read_value-Leaves fuel depth s) e in
            let more = read_items read_double fuel depth (suc count) (rest_of after) in
            delimited-Leaves (length s) b']' after _ (add_item value.0 more)
              (omega (arith, length-skip_space-le value.1, value_lt))
              (add_item-Leaves (length s) value.0 more (
                Leaves-mono (length (rest_of after)) (length s) more
                  (omega (arith, rest_of-le after, length-skip_space-le value.1, value_lt))
                  (read_items-Leaves fuel depth (suc count) (rest_of after))))))
