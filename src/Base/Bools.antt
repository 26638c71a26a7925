-- ===== src/Base/Bools.antt =====
-- Boolean tests on numbers, the conditional, and splits on computed values.
use Prim.Native.Nat.{ℕ, ◌≤◌, ◌<◌, compare, Ordering}
use mathlib.Core.Path.{◌≡◌, refl}
use mathlib.Core.Logic.{◌↔◌, ◌⊎◌, inl, inr}
use mathlib.Core.Bool.{Bool, true, false, ◌&&◌}
use mathlib.Core.Option.{Option, none, some}
use native.Mathlib.Omega.{arith}

abbrev pub ltb : ℕ → ℕ → Bool
ltb a b = elim (compare a b) [ Ordering.lt ↦ true | _ ↦ false ]

abbrev pub leb : ℕ → ℕ → Bool
leb a b = elim (compare a b) [ Ordering.gt ↦ false | _ ↦ true ]

infix 50 ◌==◌
abbrev pub ◌==◌ : ℕ → ℕ → Bool
a == b = elim (compare a b) [ Ordering.eq ↦ true | _ ↦ false ]

infix 1 if◌then◌else◌
abbrev pub if◌then◌else◌ {ℓ} : {A : Type ℓ} → Bool → A → A → A
if true then x else y = x
if false then x else y = y

pub ltb→lt : (a b : ℕ) → ltb a b ≡ true → a < b
ltb→lt a b h = ground arith

pub ltb→le : (a b : ℕ) → ltb a b ≡ false → b ≤ a
ltb→le a b h = ground arith

pub lt→ltb : (a b : ℕ) → a < b → ltb a b ≡ true
lt→ltb a b h = ground arith

pub leb→le : (a b : ℕ) → leb a b ≡ true → a ≤ b
leb→le a b h = ground arith

pub le→leb : (a b : ℕ) → a ≤ b → leb a b ≡ true
le→leb a b h = ground arith

pub lt→leb : (a b : ℕ) → b < a → leb a b ≡ false
lt→leb a b h = ground arith

pub ==_iff : (a b : ℕ) → ((a == b) ≡ true) ↔ (a ≡ b)
==_iff a b = ground arith

pub ruleset tests = (arith, ltb→lt, ltb→le, lt→ltb, leb→le)

-- To split on a computed value and keep the equation.
pub Bool-cases : (b : Bool) → (b ≡ true) ⊎ (b ≡ false)
Bool-cases true = inl refl
Bool-cases false = inr refl

pub Option-cases {ℓ} : {A : Type ℓ} (o : Option A) → (o ≡ none) ⊎ ((a : A) × (o ≡ some a))
Option-cases none = inl refl
Option-cases (some a) = inr (a, refl)

pub &&-eq-true : (a b : Bool) → (a && b) ≡ true → (a ≡ true) × (b ≡ true)
&&-eq-true a b h = ground arith

abbrev pub is_some {ℓ} : {A : Type ℓ} → Option A → Bool
is_some none = false
is_some (some a) = true

-- Errors that the code throws, as values.
pub data Thrown : Type 0 where
  type_error range_error plain_error : Thrown

pub data Result {ℓ} (Value : Type ℓ) : Type ℓ where
  throw : Thrown → Result Value
  ok : Value → Result Value

-- An exception ends the statements that follow.
infixl 5 ◌>>=◌
abbrev pub ◌>>=◌ {κ ℓ} :
    {Next : Type κ} {Value : Type ℓ} → Result Value → (Value → Result Next) → Result Next
throw thrown >>= next = throw thrown
ok value >>= next = next value

infixl 5 ◌>>◌
abbrev pub ◌>>◌ {κ} : {Next : Type κ} → Result (Unit {0}) → Result Next → Result Next
throw thrown >> next = throw thrown
ok done >> next = next

-- `if (bad) throw e`
abbrev pub reject_if : Bool → Thrown → Result (Unit {0})
reject_if true e = throw e
reject_if false e = ok tt

-- What has a result after a step that may throw: the step has one, and so has the rest.
pub >>=-eq-ok {κ ℓ} :
    {Value : Type ℓ} {Next : Type κ} {next : Value → Result Next} {result : Next}
    → (step : Result Value) → (step >>= next) ≡ ok result
    → (value : Value) × (step ≡ ok value) × (next value ≡ ok result)
>>=-eq-ok (throw thrown) reached = cc
>>=-eq-ok (ok value) reached = (value, refl, reached)

pub reject_if-ok : (b : Bool) (e : Thrown) {u : Unit {0}} → reject_if b e ≡ ok u → b ≡ false
reject_if-ok true e h = cc
reject_if-ok false e h = refl

pub >>-eq-ok {κ} :
    {Next : Type κ} {rest : Result Next} {result : Next}
    → (step : Result (Unit {0})) → (step >> rest) ≡ ok result
    → (step ≡ ok tt) × (rest ≡ ok result)
>>-eq-ok (throw thrown) reached = cc
>>-eq-ok (ok done) reached = (refl, reached)

pub some_inj {ℓ} : {A : Type ℓ} {a b : A} → some a ≡ some b → a ≡ b
some_inj e = cc

pub ok_inj {ℓ} : {A : Type ℓ} {a b : A} → ok a ≡ ok b → a ≡ b
ok_inj e = cc
