-- ===== src/Vcc/Json/Rests.antt =====
-- src/vcc.ts: what each part of the reader leaves of its text (`StrictJsonReader`).
use opencode_better_compact.Base.{
  ◌≡◌, ◌++◌, ◌==◌, ◌&&◌, ◌||◌, leb, ℕ, suc, ◌≤◌, ◌<◌, Bool, true, false, Option, none, some, [],
  ◌∷◌, arith, length, Text, if◌then◌else◌,
}
use opencode_better_compact.Base.Ensures.{Ensures, Ensures-if, Ensures->>=, Ensures-eq}
use opencode_better_compact.Base.Value.{Number}
use opencode_better_compact.Utf8.{utf8_bytes}
use opencode_better_compact.Vcc.Json.Tokens.{
  plain, max_string_bytes, skip_space, before, scan_string, unescape, read_string, take_digits,
  take_sign, take_integer, take_fraction, take_exponent, with_digits, read_number,
}

abbrev pub IsShorter {ℓ} : {A : Type ℓ} → ℕ → A × Text → Type 0
IsShorter n (a, rest) = length rest < n

-- What is read, if anything, leaves a text shorter than the bound.
abbrev pub Leaves {ℓ} : {A : Type ℓ} → ℕ → Option (A × Text) → Type 0
Leaves n o = Ensures (IsShorter n) o

module _ {ℓ} {A : Type ℓ} where
  pub Leaves-mono : (m n : ℕ) (o : Option (A × Text)) → m ≤ n → Leaves m o → Leaves n o
  Leaves-mono m n none h l = tt
  Leaves-mono m n (some (a, rest)) h l = omega (arith, h, l)

  pub Leaves-eq :
      (n : ℕ) (o : Option (A × Text)) (a : A) (rest : Text)
      → Leaves n o
      → o ≡ some (a, rest)
      → length rest < n
  Leaves-eq n o a rest l e = Ensures-eq (IsShorter n) o (a, rest) l e

pub length-skip_space-le : (s : Text) → length (skip_space s) ≤ length s
unfolding skip_space
length-skip_space-le [] = omega arith
length-skip_space-le (c ∷ s) = ground (arith, length-skip_space-le s)

Leaves-before :
    (n : ℕ) (units : Text) (o : Option (Text × Text)) → Leaves n o → Leaves n (before units o)
Leaves-before n units none l = tt
Leaves-before n units (some (raw, rest)) l = l

scan_string-Leaves : (s : Text) → Leaves (length s) (scan_string s)
unfolding scan_string
scan_string-Leaves [] = tt
scan_string-Leaves (c ∷ []) =
    Ensures-if (IsShorter 1) (c == b'"') (some ([], [])) none (omega arith) tt
scan_string-Leaves (c ∷ d ∷ s) =
    let n = suc (suc (length s)) in
    let skipped = before (c ∷ d ∷ []) (scan_string s) in
    let plain = before (c ∷ []) (scan_string (d ∷ s)) in
    Ensures-if (IsShorter n) (c == b'"') (some ([], d ∷ s)) (if c == b'\\' then skipped else plain)
      (omega arith)
      (Ensures-if (IsShorter n) (c == b'\\') skipped plain
        (Leaves-before n (c ∷ d ∷ []) (scan_string s)
          (Leaves-mono (length s) n (scan_string s) (omega arith) (scan_string-Leaves s)))
        (Leaves-before n (c ∷ []) (scan_string (d ∷ s)) (
          Leaves-mono (suc (length s)) n (scan_string (d ∷ s)) (omega arith)
            (scan_string-Leaves (d ∷ s)))))

pub read_string-Leaves : (s : Text) → Leaves (length s) (read_string s)
unfolding read_string
read_string-Leaves s = Ensures->>= (IsShorter (length s)) (scan_string s) _ (λ found e.
    Ensures->>= (IsShorter (length s)) (unescape plain found.0) _ (λ value e'.
      Ensures-if (IsShorter (length s)) (leb (utf8_bytes value) max_string_bytes)
        (some (value, found.1)) none
        (Leaves-eq (length s) (scan_string s) found.0 found.1 (scan_string-Leaves s) e) tt))

take_digits-le : (s : Text) → length (take_digits s).1 ≤ length s
unfolding take_digits
take_digits-le [] = omega arith
take_digits-le (c ∷ s) = ground (arith, take_digits-le s)

take_integer-Leaves : (s : Text) → Leaves (length s) (take_integer s)
unfolding take_integer
take_integer-Leaves [] = tt
take_integer-Leaves (c ∷ s) =
    let n = suc (length s) in
    let long : Option (Text × Text) = some (c ∷ (take_digits s).0, (take_digits s).1) in
    Ensures-if (IsShorter n) (c == b'0') (some (c ∷ [], s))
      (if leb b'1' c && leb c b'9' then long else none) (omega arith)
      (Ensures-if (IsShorter n) (leb b'1' c && leb c b'9') long none
        (omega (arith, take_digits-le s)) tt)

with_digits-le :
    (mark digits_text whole : Text)
    → length digits_text ≤ length whole
    → length (with_digits mark digits_text whole).1 ≤ length whole
with_digits-le mark digits_text whole h =
    elim (take_digits digits_text).0
      as (λ l.
        length (
          (elim l as (λ _. Text × Text) [
            | [] ↦ ([], whole)
            | d ∷ ds ↦ (mark ++ d ∷ ds, (take_digits digits_text).1)
          ]).1)
        ≤ length whole) [ [] ↦ omega arith | d ∷ ds ↦ omega (arith, take_digits-le digits_text, h) ]

length-if-le :
    (n : ℕ) (b : Bool) (p q : Text × Text)
    → length p.1 ≤ n
    → length q.1 ≤ n
    → length (if b then p else q).1 ≤ n
length-if-le n true p q h k = h
length-if-le n false p q h k = k

take_fraction-le : (s : Text) → length (take_fraction s).1 ≤ length s
unfolding take_fraction
take_fraction-le [] = omega arith
take_fraction-le (c ∷ s) =
    length-if-le (suc (length s)) (c == b'.') (with_digits (c ∷ []) s (c ∷ s)) ([], c ∷ s)
      (with_digits-le (c ∷ []) s (c ∷ s) (omega arith)) (omega arith)

take_exponent-le : (s : Text) → length (take_exponent s).1 ≤ length s
unfolding take_exponent
take_exponent-le [] = omega arith
take_exponent-le (c ∷ []) = omega arith
take_exponent-le (c ∷ d ∷ s) =
    let n = suc (suc (length s)) in
    let signed = with_digits (c ∷ d ∷ []) s (c ∷ d ∷ s) in
    let unsigned = with_digits (c ∷ []) (d ∷ s) (c ∷ d ∷ s) in
    length-if-le n (c == b'e' || c == b'E') (if d == b'+' || d == b'-' then signed else unsigned)
      ([], c ∷ d ∷ s)
      (length-if-le n (d == b'+' || d == b'-') signed unsigned
        (with_digits-le (c ∷ d ∷ []) s (c ∷ d ∷ s) (omega arith))
        (with_digits-le (c ∷ []) (d ∷ s) (c ∷ d ∷ s) (omega arith)))
      (omega arith)

take_sign-le : (s : Text) → length (take_sign s).1 ≤ length s
take_sign-le [] = omega arith
take_sign-le (c ∷ s) =
    length-if-le (suc (length s)) (c == b'-') (c ∷ [], s) ([], c ∷ s) (omega arith) (omega arith)

pub read_number-Leaves :
    (read_double : Text → Number) (s : Text) → Leaves (length s) (read_number read_double s)
unfolding read_number
read_number-Leaves read_double s =
    Ensures->>= (IsShorter (length s)) (take_integer (take_sign s).1) _ (λ found e. omega (
      arith,
      take_sign-le s,
      Leaves-eq (length (take_sign s).1) (take_integer (take_sign s).1) found.0 found.1
          (take_integer-Leaves (take_sign s).1) e,
      take_fraction-le found.1,
      take_exponent-le (take_fraction found.1).1,
    ))
