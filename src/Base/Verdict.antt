-- ===== src/Base/Verdict.antt =====
-- A chain of tests that ends with the reason of the first one that fails.
use opencode_better_compact.Base.{◌≡◌, refl, Bool, true, false, Option, none, some, Text}

-- A value, or the reason of the first test that failed.
pub data Verdict {ℓ} (A : Type ℓ) : Type ℓ where
  because : Text → Verdict A
  passed : A → Verdict A

infixl 5 ◌>>=◌
abbrev pub ◌>>=◌ {κ ℓ} : {B : Type κ} {A : Type ℓ} → Verdict A → (A → Verdict B) → Verdict B
because why >>= next = because why
passed a >>= next = next a

-- `if (!value) return reason`
abbrev pub need {ℓ} : {A : Type ℓ} → Option A → Text → Verdict A
need none why = because why
need (some a) why = passed a

abbrev pub test : Bool → Text → Verdict (Unit {0})
test false why = because why
test true why = passed tt

-- A block that passes: its step does, and so does the rest.
pub >>=-eq-passed {ℓ κ} :
    {A : Type ℓ} {B : Type κ} {next : A → Verdict B} {b : B}
    → (step : Verdict A) → (step >>= next) ≡ passed b
    → (a : A) × (step ≡ passed a) × (next a ≡ passed b)
>>=-eq-passed (because why) h = cc
>>=-eq-passed (passed a) h = (a, refl, h)

pub need-passed {ℓ} :
    {A : Type ℓ} (o : Option A) (why : Text) (a : A) → need o why ≡ passed a → o ≡ some a
need-passed none why a h = cc
need-passed (some b) why a h = cc

pub test-passed : (b : Bool) (why : Text) {u : Unit {0}} → test b why ≡ passed u → b ≡ true
test-passed false why h = cc
test-passed true why h = refl

pub passed_inj {ℓ} : {A : Type ℓ} {a b : A} → passed a ≡ passed b → a ≡ b
passed_inj e = cc
