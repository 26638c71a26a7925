-- ===== src/Vcc/Json/Sizes.antt =====
-- src/vcc.ts: the size of what the parts of the reader read (`StrictJsonReader`).
use opencode_better_compact.Base.{
  ◌≡◌, refl, ℕ, suc, ◌+◌, ◌≤◌, ◌<◌, true, false, not, Option, none, some, List, [], ◌∷◌, arith,
  length, leb, leb→le, ltb, ltb→le, All, Text, codes, eq_text, eq_text_iff, member, distinct,
  starts_with, if◌then◌else◌,
}
use opencode_better_compact.Base.Ensures.{
  Ensures, Ensures-if, Ensures-cases, Ensures->>, Ensures->>=, Ensures-eq,
}
use opencode_better_compact.Base.Value.{
  Value, null, bool, num, str, arr, obj, Items, nil, cons, Fields, end, field, Number, items, keys,
}
use opencode_better_compact.Utf8.{utf8_bytes}
use opencode_better_compact.Vcc.Json.Tokens.{
  skip_space, plain, max_string_bytes, scan_string, unescape, read_string, read_number,
}
use opencode_better_compact.Vcc.Json.{
  max_depth, expect, is_next, rest_of, put_field, read_key, read_scalar, open_block, as_object,
  as_array, as_string, add_field, add_item,
}

abbrev mutual
  -- Within so many objects and arrays: no more than eight levels, no array of more than 128 elements,
  -- no string of more than 4096 bytes, and no key twice.
  pub IsLimited : ℕ → Value → Type 0
  IsLimited depth null = Unit
  IsLimited depth (bool b) = Unit
  IsLimited depth (num n) = Unit
  IsLimited depth (str t) = utf8_bytes t ≤ 4096
  IsLimited depth (arr vs) = (depth < 8) × (length (items vs) ≤ 128) × AreLimited (suc depth) vs
  IsLimited depth (obj fs) = (depth < 8) × (distinct (keys fs) ≡ true) × HasLimited (suc depth) fs

  pub AreLimited : ℕ → Items → Type 0
  AreLimited depth nil = Unit
  AreLimited depth (cons v vs) = IsLimited depth v × AreLimited depth vs

  pub HasLimited : ℕ → Fields → Type 0
  HasLimited depth end = Unit
  HasLimited depth (field k v fs) = (utf8_bytes k ≤ 4096) × IsLimited depth v × HasLimited depth fs

pub read_string-bounded : (s : Text) → Ensures (λ p. utf8_bytes p.0 ≤ 4096) (read_string s)
unfolding read_string
read_string-bounded s = Ensures->>= _ (scan_string s) _ (λ found e.
    Ensures->>= _ (unescape plain found.0) _ (λ value e'.
      Ensures-cases (λ p. utf8_bytes p.0 ≤ 4096) (leb (utf8_bytes value) max_string_bytes)
        (some (value, found.1)) none (λ h. leb→le (utf8_bytes value) 4096 h) (λ _. tt)))

pub read_scalar-IsLimited :
    (read_double : Text → Number) (depth : ℕ) (s : Text)
    → Ensures (λ p. IsLimited depth p.0) (read_scalar read_double s)
unfolding read_scalar
read_scalar-IsLimited read_double depth s = Ensures-if _ (starts_with s (codes "true")) _ _ tt (
    Ensures-if _ (starts_with s (codes "false")) _ _ tt (
      Ensures-if _ (starts_with s (codes "null")) _ _ tt
        (Ensures->>= _ (read_number read_double s) _ (λ found e. tt))))

-- A key that is read is new, and bounded.
pub read_key-new :
    (seen : List Text) (s : Text)
    → Ensures (λ p. (member p.0 seen ≡ false) × (utf8_bytes p.0 ≤ 4096)) (read_key seen s)
unfolding read_key
read_key-new seen s = Ensures->>= _ (expect b'"' (skip_space s)) _ (λ s1 e1.
    Ensures->>= _ (read_string s1) _ (λ found e2. Ensures->> _ (not (member found.0 seen)) _ (λ new.
      Ensures->>= _ (expect b':' (skip_space found.1)) _ (λ s3 e3.
        (ground (arith, new), Ensures-eq _ (read_string s1) found (read_string-bounded s1) e2)))))

-- What the loop of an object has read, after the keys that it has seen.
pub record AreMembers (depth : ℕ) (seen : List Text) (fs : Fields) : Type 0 where
  pub once : distinct (keys fs) ≡ true
  pub new : All (λ k. member k seen ≡ false) (keys fs)
  pub limited : HasLimited depth fs

pub keys_apart :
    (key : Text) (seen ks : List Text)
    → All (λ k. member k (key ∷ seen) ≡ false) ks
    → (member key ks ≡ false) × All (λ k. member k seen ≡ false) ks
unfolding member
keys_apart key seen [] h = (refl, tt)
keys_apart key seen (k ∷ ks) (here, later) =
    let (apart, rest) = keys_apart key seen ks later in
    (
      ground (arith, eq_text_iff key k, eq_text_iff k key, here, apart),
      (ground (arith, here), rest),
    )

pub distinct-field :
    (key : Text) (v : Value) (fs : Fields)
    → member key (keys fs) ≡ false
    → distinct (keys fs) ≡ true
    → distinct (keys (field key v fs)) ≡ true
unfolding distinct keys
distinct-field key v fs absent h = rw (absent, distinct) h

pub keys-field :
    (key : Text) (v : Value) (fs : Fields) (seen : List Text)
    → member key seen ≡ false
    → All (λ k. member k seen ≡ false) (keys fs)
    → All (λ k. member k seen ≡ false) (keys (field key v fs))
unfolding keys
keys-field key v fs seen new others = (new, others)

pub put_field-AreMembers :
    (depth : ℕ) (seen : List Text) (key : Text) (v : Value) (fs : Fields)
    → member key seen ≡ false
    → utf8_bytes key ≤ 4096
    → IsLimited depth v
    → AreMembers depth (key ∷ seen) fs
    → AreMembers depth seen (put_field key v fs)
put_field-AreMembers depth seen key v fs new bounded value h =
    let (absent, others) = keys_apart key seen (keys fs) h.new in
    elim (eq_text key (codes "__proto__"))
      as (λ b. AreMembers depth seen (if b then fs else field key v fs)) [
        | true ↦ record { once = h.once; new = others; limited = h.limited }
        | false ↦ record {
          once = distinct-field key v fs absent h.once;
          new = keys-field key v fs seen new others;
          limited = (bounded, value, h.limited);
        }
      ]

pub end-AreMembers : (depth : ℕ) (seen : List Text) → AreMembers depth seen end
unfolding keys distinct
end-AreMembers depth seen = record { once = refl; new = tt; limited = tt }

pub add_field-AreMembers :
    (depth : ℕ) (seen : List Text) (key : Text) (v : Value) (more : Option (Fields × Text))
    → member key seen ≡ false
    → utf8_bytes key ≤ 4096
    → IsLimited depth v
    → Ensures (λ p. AreMembers depth (key ∷ seen) p.0) more
    → Ensures (λ p. AreMembers depth seen p.0) (add_field key v more)
add_field-AreMembers depth seen key v none new bounded value h = tt
add_field-AreMembers depth seen key v (some (fs, rest)) new bounded value h =
    put_field-AreMembers depth seen key v fs new bounded value h

-- What the loop of an array has read, after so many elements.
abbrev pub AreElements : ℕ → ℕ → Items → Type 0
AreElements depth count vs = (count + length (items vs) ≤ 128) × AreLimited depth vs

pub add_item-AreElements :
    (depth count : ℕ) (v : Value) (more : Option (Items × Text))
    → IsLimited depth v
    → Ensures (λ p. AreElements depth (suc count) p.0) more
    → Ensures (λ p. AreElements depth count p.0) (add_item v more)
add_item-AreElements depth count v none value h = tt
add_item-AreElements depth count v (some (vs, rest)) value (few, limited) =
    (omega (arith, few), (value, limited))

pub open_block-IsLimited :
    (close depth : ℕ) (empty : Value) (s : Text) (content : Option (Value × Text))
    → (depth < 8 → IsLimited depth empty)
    → (depth < 8 → Ensures (λ p. IsLimited depth p.0) content)
    → Ensures (λ p. IsLimited depth p.0) (open_block close empty (suc depth) s content)
open_block-IsLimited close depth empty s content h l =
    Ensures-cases (λ p. IsLimited depth p.0) (ltb max_depth (suc depth)) none _ (λ _. tt)
      (λ shallow.
        let below : depth < 8 = omega (arith, ltb→le 8 (suc depth) shallow) in
        Ensures-if (λ p. IsLimited depth p.0) (is_next close (skip_space s))
          (some (empty, rest_of (skip_space s))) content (h below) (l below))

pub as_object-IsLimited :
    (depth : ℕ) (members : Option (Fields × Text))
    → depth < 8
    → Ensures (λ p. AreMembers (suc depth) [] p.0) members
    → Ensures (λ p. IsLimited depth p.0) (as_object members)
as_object-IsLimited depth none below h = tt
as_object-IsLimited depth (some (fs, rest)) below h = (below, h.once, h.limited)

pub as_array-IsLimited :
    (depth : ℕ) (elements : Option (Items × Text))
    → depth < 8
    → Ensures (λ p. AreElements (suc depth) 0 p.0) elements
    → Ensures (λ p. IsLimited depth p.0) (as_array elements)
as_array-IsLimited depth none below h = tt
as_array-IsLimited depth (some (vs, rest)) below (few, limited) =
    (below, omega (arith, few), limited)

pub as_string-IsLimited :
    (depth : ℕ) (o : Option (Text × Text))
    → Ensures (λ p. utf8_bytes p.0 ≤ 4096) o
    → Ensures (λ p. IsLimited depth p.0) (as_string o)
as_string-IsLimited depth none h = tt
as_string-IsLimited depth (some (t, rest)) h = h
