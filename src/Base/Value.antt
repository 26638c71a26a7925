-- ===== src/Base/Value.antt =====
-- A value of unknown type, as `JSON.parse` and the code that builds plain objects make them. A
-- property that an object lacks reads as `undefined`, here `none`.
use opencode_better_compact.Base.{
  ◌≡◌, refl, ℕ, zero, Bool, true, false, Option, none, some, List, [], ◌∷◌, ◌++◌, Text, eq_text,
  leb, if◌then◌else◌,
}

-- A double: an integer by its sign (`true` is negative) and magnitude, any other by its bits.
pub data Number : Type 0 where
  int : Bool → ℕ → Number
  other : ℕ → Number

mutual
  pub data Value : Type 0 where
    null : Value
    bool : Bool → Value
    num : Number → Value
    str : Text → Value
    arr : Items → Value
    obj : Fields → Value

  pub data Items : Type 0 where
    nil : Items
    cons : Value → Items → Items

  pub data Fields : Type 0 where
    end : Fields
    field : Text → Value → Fields → Fields

abbrev pub items : Items → List Value
items nil = []
items (cons v vs) = v ∷ items vs

-- `Object.keys(value)`
unfoldable pub keys : Fields → List Text
keys end = []
keys (field k v fs) = k ∷ keys fs

-- `value[key]`
unfoldable pub get_field : Text → Fields → Option Value
get_field k end = none
get_field k (field j v fs) = if eq_text j k then some v else get_field k fs

abbrev pub max_safe_integer : ℕ
max_safe_integer = 9007199254740991

-- `Number.isSafeInteger(value) && value >= 0`, with the number; -0 is one of these.
unfoldable pub safe_natural : Option Value → Option ℕ
safe_natural (some (num (int true zero))) = some 0
safe_natural (some (num (int false n))) = if leb n max_safe_integer then some n else none
safe_natural _ = none

unfoldable pub as_text : Option Value → Option Text
as_text (some (str t)) = some t
as_text _ = none

unfoldable pub as_bool : Option Value → Option Bool
as_bool (some (bool b)) = some b
as_bool _ = none

infixl 5 ◌>>=◌
abbrev pub ◌>>=◌ {ℓ κ} : {A : Type ℓ} {B : Type κ} → Option A → (A → Option B) → Option B
none >>= f = none
some a >>= f = f a

-- A test that ends the block where it fails.
infixl 5 ◌>>◌
abbrev pub ◌>>◌ {κ} : {B : Type κ} → Bool → Option B → Option B
true >> rest = rest
false >> rest = none

-- `[...parts].join(separator)`
unfoldable pub join : Text → List Text → Text
join sep [] = []
join sep (t ∷ []) = t
join sep (t ∷ ts) = t ++ (sep ++ join sep ts)

-- A block that has a value: its step has one, and so has the rest.
pub >>=-eq-some {ℓ κ} :
    {A : Type ℓ} {B : Type κ} {next : A → Option B} {b : B}
    → (step : Option A) → (step >>= next) ≡ some b
    → (a : A) × (step ≡ some a) × (next a ≡ some b)
>>=-eq-some none reached = cc
>>=-eq-some (some a) reached = (a, refl, reached)

pub >>-eq-some {κ} :
    {B : Type κ} {rest : Option B} {b : B}
    → (passes : Bool) → (passes >> rest) ≡ some b
    → (passes ≡ true) × (rest ≡ some b)
>>-eq-some false reached = cc
>>-eq-some true reached = (refl, reached)
