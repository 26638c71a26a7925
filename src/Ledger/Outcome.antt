-- ===== src/Ledger/Outcome.antt =====
-- src/ledger.ts: a ledger is made to fit or cannot be (`fitLedger`).
use opencode_better_compact.Base.{
  ◌≡◌, refl, sym, ap, ◌∙◌, ℕ, ◌≤◌, true, false, inl, inr, Bool-cases, List, [], ◌∷◌, length, leb→le,
  All, arith, Text, Result, ok, throw, Thrown, range_error,
}
use opencode_better_compact.Utf8.{utf8_bytes}
use opencode_better_compact.Ledger.{RecoveryLedgerData, RecoveryLedger, canonical_ledger}
use opencode_better_compact.Ledger.Fit.{
  LedgerKey, removal_order, count_of, fits, fit_keys, fit_ledger,
}
use opencode_better_compact.Ledger.Part.{IsPart}
use opencode_better_compact.Ledger.Whole.{fit_keys_hit, fit_keys-IsPart, fit_keys_exhausted}

-- The data without a value.
abbrev pub no_data : RecoveryLedgerData
no_data = record {
  recent_requests = [];
  constraints = [];
  todos = [];
  touched_paths = [];
  tool_statuses = [];
  errors = [];
  evidence = [];
  next_actions = [];
  legacy_context = [];
}

length_zero {ℓ} : {A : Type ℓ} (xs : List A) → length xs ≡ 0 → xs ≡ []
length_zero [] h = refl
length_zero (x ∷ xs) h = absurd (omega (arith, h))

no_data_left : (d : RecoveryLedgerData) → All (λ k. count_of k d ≡ 0) removal_order → d ≡ no_data
unfolding count_of
no_data_left d (e, (s, (r, (l, (c, (p, (t, (q, (n, _))))))))) =
    let recent_requests_eq = length_zero d.recent_requests q in
    let constraints_eq = length_zero d.constraints c in
    let todos_eq = length_zero d.todos t in
    let touched_paths_eq = length_zero d.touched_paths p in
    let tool_statuses_eq = length_zero d.tool_statuses s in
    let errors_eq = length_zero d.errors r in
    let evidence_eq = length_zero d.evidence e in
    let next_actions_eq = length_zero d.next_actions n in
    let legacy_context_eq = length_zero d.legacy_context l in cc

module _ (sha256 : Text → Text) (max_bytes : ℕ) where
  fit_ledger_hit :
      (d : RecoveryLedgerData) (order : List LedgerKey)
      → fits sha256 max_bytes (fit_keys sha256 max_bytes order d) ≡ true
      → fit_ledger sha256 max_bytes d order
        ≡ ok (canonical_ledger sha256 (fit_keys sha256 max_bytes order d))
  unfolding fit_ledger
  fit_ledger_hit d order h = rw h

  fit_ledger_miss :
      (d : RecoveryLedgerData) (order : List LedgerKey)
      → fits sha256 max_bytes (fit_keys sha256 max_bytes order d) ≡ false
      → fit_ledger sha256 max_bytes d order ≡ throw range_error
  unfolding fit_ledger
  fit_ledger_miss d order h = rw h

  fits-le :
      (d : RecoveryLedgerData)
      → fits sha256 max_bytes d ≡ true
      → utf8_bytes (canonical_ledger sha256 d).block ≤ max_bytes
  unfolding fits
  fits-le d h = leb→le (utf8_bytes (canonical_ledger sha256 d).block) max_bytes h

  -- A ledger that is made to fit is the canonical one of a part of the data, and within the bound.
  pub record IsFitted (d : RecoveryLedgerData) (ledger : RecoveryLedger) : Type 0 where
    pub kept : RecoveryLedgerData
    pub part : IsPart kept d
    pub canonical : canonical_ledger sha256 kept ≡ ledger
    pub within : utf8_bytes ledger.block ≤ max_bytes
    pub unchanged : fits sha256 max_bytes d ≡ true → kept ≡ d

  -- Where the ledger without values is within the bound, every ledger is made to fit: it keeps a part
  -- of each list, within the bound, and all of them where the whole ledger fits.
  pub fit_ledger-IsFitted :
      (d : RecoveryLedgerData)
      → fits sha256 max_bytes no_data ≡ true
      → (ledger : RecoveryLedger) × (fit_ledger sha256 max_bytes d removal_order ≡ ok ledger)
        × IsFitted d ledger
  fit_ledger-IsFitted d h =
      let kept = fit_keys sha256 max_bytes removal_order d in
      elim (Bool-cases (fits sha256 max_bytes kept)) [
        | inl e ↦ (
          canonical_ledger sha256 kept,
          fit_ledger_hit d removal_order e,
          record {
            kept = kept;
            part = fit_keys-IsPart sha256 max_bytes removal_order d;
            canonical = refl;
            within = fits-le kept e;
            unchanged = fit_keys_hit sha256 max_bytes removal_order d;
          },
        )
        | inr e ↦
            let none_left =
              no_data_left kept (fit_keys_exhausted sha256 max_bytes removal_order d e) in
            absurd (true_false (sym h ∙ sym (ap (fits sha256 max_bytes) none_left) ∙ e))
      ]
    where
      true_false : true ≡ false → ⊥
      true_false c = cc

  -- Fitting throws only a range error, and only where even the ledger without values is too large.
  pub fit_ledger-throw :
      (d : RecoveryLedgerData) (e : Thrown)
      → fit_ledger sha256 max_bytes d removal_order ≡ throw e
      → (e ≡ range_error) × (fits sha256 max_bytes no_data ≡ false)
  fit_ledger-throw d e h =
      let kept = fit_keys sha256 max_bytes removal_order d in
      elim (Bool-cases (fits sha256 max_bytes kept)) [
        | inl f ↦ absurd (ok_throw (sym (fit_ledger_hit d removal_order f) ∙ h))
        | inr f ↦
            let none_left =
              no_data_left kept (fit_keys_exhausted sha256 max_bytes removal_order d f) in
            (
              throw_inj (sym h ∙ fit_ledger_miss d removal_order f),
              sym (ap (fits sha256 max_bytes) none_left) ∙ f,
            )
      ]
    where
      ok_throw : {a : RecoveryLedger} → ok a ≡ throw e → ⊥
      ok_throw c = cc

      throw_inj : {f : Thrown} → ◌≡◌ {A = Result RecoveryLedger} (throw e) (throw f) → e ≡ f
      throw_inj c = cc
