-- ===== src/Ledger/Part.antt =====
-- src/ledger.ts: the parts of a ledger that are left when some are trimmed (`fitLedger`).
use opencode_better_compact.Base.{
  ◌≡◌, refl, sym, ap, ◌∙◌, ℕ, zero, suc, ◌+◌, ◌-◌, List, [], ◌∷◌, length, take, drop, arith,
}
use opencode_better_compact.Ledger.{RecoveryLedgerData}
use opencode_better_compact.Ledger.Fit
use opencode_better_compact.Ledger.Fit.{LedgerKey, trim}

-- The last values of a list, in their order; the first ones.
abbrev pub IsTail {ℓ} : {A : Type ℓ} → List A → List A → Type ℓ
IsTail xs ys = (n : ℕ) × (xs ≡ drop n ys)

abbrev pub IsStart {ℓ} : {A : Type ℓ} → List A → List A → Type ℓ
IsStart xs ys = (n : ℕ) × (xs ≡ take n ys)

-- Of a key the data keep the last values, and of the actions the first.
abbrev pub IsPartAt : LedgerKey → RecoveryLedgerData → RecoveryLedgerData → Type 0
IsPartAt Fit.recent_requests kept whole = IsTail kept.recent_requests whole.recent_requests
IsPartAt Fit.constraints kept whole = IsTail kept.constraints whole.constraints
IsPartAt Fit.todos kept whole = IsTail kept.todos whole.todos
IsPartAt Fit.touched_paths kept whole = IsTail kept.touched_paths whole.touched_paths
IsPartAt Fit.tool_statuses kept whole = IsTail kept.tool_statuses whole.tool_statuses
IsPartAt Fit.errors kept whole = IsTail kept.errors whole.errors
IsPartAt Fit.evidence kept whole = IsTail kept.evidence whole.evidence
IsPartAt Fit.next_actions kept whole = IsStart kept.next_actions whole.next_actions
IsPartAt Fit.legacy_context kept whole = IsTail kept.legacy_context whole.legacy_context

abbrev pub IsPart : RecoveryLedgerData → RecoveryLedgerData → Type 0
IsPart kept whole = (key : LedgerKey) → IsPartAt key kept whole

drop_nil {ℓ} : {A : Type ℓ} (n : ℕ) → drop {A = A} n [] ≡ []
drop_nil zero = refl
drop_nil (suc n) = refl

drop-drop {ℓ} : {A : Type ℓ} (m n : ℕ) (xs : List A) → drop n (drop m xs) ≡ drop (m + n) xs
drop-drop zero n xs = let same : n ≡ 0 + n = omega arith in ap (λ k. drop k xs) same
drop-drop (suc m) n [] = drop_nil n ∙ sym (drop_nil (suc m + n))
drop-drop (suc m) n (x ∷ xs) =
    let same : suc (m + n) ≡ suc m + n = omega arith in
    drop-drop m n xs ∙ ap (λ k. drop k (x ∷ xs)) same

take-take {ℓ} : {A : Type ℓ} (m n : ℕ) (xs : List A) → (k : ℕ) × (take n (take m xs) ≡ take k xs)
take-take zero zero xs = (0, refl)
take-take zero (suc n) xs = (0, refl)
take-take (suc m) zero xs = (0, refl)
take-take (suc m) (suc n) [] = (0, refl)
take-take (suc m) (suc n) (x ∷ xs) = let (k, e) = take-take m n xs in (suc k, ap (λ l. x ∷ l) e)

IsTail-trans {ℓ} : {A : Type ℓ} {xs ys zs : List A} → IsTail xs ys → IsTail ys zs → IsTail xs zs
IsTail-trans {xs = xs} {zs = zs} (n, e) (m, f) = (m + n, e ∙ ap (drop n) f ∙ drop-drop m n zs)

IsStart-trans {ℓ} : {A : Type ℓ} {xs ys zs : List A} → IsStart xs ys → IsStart ys zs → IsStart xs zs
IsStart-trans {xs = xs} {zs = zs} (n, e) (m, f) =
    let (k, g) = take-take m n zs in (k, e ∙ ap (take n) f ∙ g)

take-length {ℓ} : {A : Type ℓ} (xs : List A) → xs ≡ take (length xs) xs
take-length [] = refl
take-length (x ∷ xs) = ap (λ l. x ∷ l) (take-length xs)

pub IsPart-refl : (d : RecoveryLedgerData) → IsPart d d
IsPart-refl d Fit.next_actions = (length d.next_actions, take-length d.next_actions)
IsPart-refl d key = (0, refl)

pub IsPart-trans : {a b c : RecoveryLedgerData} → IsPart a b → IsPart b c → IsPart a c
IsPart-trans h k Fit.next_actions = IsStart-trans (h Fit.next_actions) (k Fit.next_actions)
IsPart-trans h k Fit.recent_requests = IsTail-trans (h Fit.recent_requests) (k Fit.recent_requests)
IsPart-trans h k Fit.constraints = IsTail-trans (h Fit.constraints) (k Fit.constraints)
IsPart-trans h k Fit.todos = IsTail-trans (h Fit.todos) (k Fit.todos)
IsPart-trans h k Fit.touched_paths = IsTail-trans (h Fit.touched_paths) (k Fit.touched_paths)
IsPart-trans h k Fit.tool_statuses = IsTail-trans (h Fit.tool_statuses) (k Fit.tool_statuses)
IsPart-trans h k Fit.errors = IsTail-trans (h Fit.errors) (k Fit.errors)
IsPart-trans h k Fit.evidence = IsTail-trans (h Fit.evidence) (k Fit.evidence)
IsPart-trans h k Fit.legacy_context = IsTail-trans (h Fit.legacy_context) (k Fit.legacy_context)

pub trim-IsPart : (j : LedgerKey) (n : ℕ) (d : RecoveryLedgerData) → IsPart (trim j n d) d
unfolding trim
trim-IsPart Fit.recent_requests n d Fit.recent_requests = (n, refl)
trim-IsPart Fit.constraints n d Fit.constraints = (n, refl)
trim-IsPart Fit.todos n d Fit.todos = (n, refl)
trim-IsPart Fit.touched_paths n d Fit.touched_paths = (n, refl)
trim-IsPart Fit.tool_statuses n d Fit.tool_statuses = (n, refl)
trim-IsPart Fit.errors n d Fit.errors = (n, refl)
trim-IsPart Fit.evidence n d Fit.evidence = (n, refl)
trim-IsPart Fit.next_actions n d Fit.next_actions = (length d.next_actions - n, refl)
trim-IsPart Fit.legacy_context n d Fit.legacy_context = (n, refl)
trim-IsPart j n d Fit.next_actions = (length d.next_actions, take-length d.next_actions)
trim-IsPart j n d key = (0, refl)
