-- ===== src/Base/Ensures.antt =====
-- What holds of the value of a computation that may have none, by the way it is computed.
use opencode_better_compact.Base.{
  ◌≡◌, refl, subst, Bool, true, false, Option, none, some, if◌then◌else◌,
}
use opencode_better_compact.Base.Value.{◌>>=◌, ◌>>◌}

abbrev pub Ensures {ℓ} : {A : Type ℓ} → (A → Type 0) → Option A → Type 0
Ensures P none = Unit
Ensures P (some a) = P a

module _ {ℓ} {A : Type ℓ} (P : A → Type 0) where
  pub Ensures-if :
      (b : Bool) (o p : Option A) → Ensures P o → Ensures P p → Ensures P (if b then o else p)
  Ensures-if true o p l k = l
  Ensures-if false o p l k = k

  pub Ensures-cases :
      (b : Bool) (o p : Option A)
      → (b ≡ true → Ensures P o)
      → (b ≡ false → Ensures P p)
      → Ensures P (if b then o else p)
  Ensures-cases true o p l k = l refl
  Ensures-cases false o p l k = k refl

  pub Ensures->> : (b : Bool) (o : Option A) → (b ≡ true → Ensures P o) → Ensures P (b >> o)
  Ensures->> true o l = l refl
  Ensures->> false o l = tt

  pub Ensures-eq : (o : Option A) (a : A) → Ensures P o → o ≡ some a → P a
  Ensures-eq none a l e = cc
  Ensures-eq (some b) a l e = subst (Ensures P) e l

module _ {ℓ κ} {A : Type ℓ} {B : Type κ} (P : B → Type 0) where
  pub Ensures->>= :
      (step : Option A) (next : A → Option B)
      → ((a : A) → step ≡ some a → Ensures P (next a))
      → Ensures P (step >>= next)
  Ensures->>= none next l = tt
  Ensures->>= (some a) next l = l a refl
