-- ===== src/Ledger/Whole.antt =====
-- src/ledger.ts: the loop over the keys (`fitLedger`).
use opencode_better_compact.Base.{
  ◌≡◌, refl, sym, ap, ◌∙◌, subst, ℕ, ◌≤◌, true, false, ◌⊎◌, inl, inr, Bool-cases, List, [], ◌∷◌,
  All, arith, Text,
}
use opencode_better_compact.Ledger.{RecoveryLedgerData}
use opencode_better_compact.Ledger.Fit.{LedgerKey, count_of, fits, trim_key, fit_keys}
use opencode_better_compact.Ledger.Part.{IsPart, IsPart-refl, IsPart-trans, trim-IsPart}
use opencode_better_compact.Ledger.Fitted.{
  trim-le, trim_all, Round, nothing, some_of, all_of, trim_key-Round,
}

module _ (sha256 : Text → Text) (max_bytes : ℕ) where
  pub fit_keys_hit :
      (keys : List LedgerKey) (d : RecoveryLedgerData)
      → fits sha256 max_bytes d ≡ true
      → fit_keys sha256 max_bytes keys d ≡ d
  unfolding fit_keys
  fit_keys_hit [] d h = refl
  fit_keys_hit (key ∷ keys) d h = rw h

  fit_keys_miss :
      (key : LedgerKey) (keys : List LedgerKey) (d : RecoveryLedgerData)
      → fits sha256 max_bytes d ≡ false
      → fit_keys sha256 max_bytes (key ∷ keys) d
        ≡ fit_keys sha256 max_bytes keys (trim_key sha256 max_bytes key d)
  unfolding fit_keys
  fit_keys_miss key keys d h = rw h

  fit_keys_done : (d : RecoveryLedgerData) → fit_keys sha256 max_bytes [] d ≡ d
  unfolding fit_keys
  fit_keys_done d = refl

  Round-IsPart :
      (key : LedgerKey) (d d' : RecoveryLedgerData) → Round sha256 max_bytes key d d' → IsPart d' d
  Round-IsPart key d d' (nothing none_left) = IsPart-refl d
  Round-IsPart key d d' (some_of n edge) = trim-IsPart key n d
  Round-IsPart key d d' (all_of misses) = trim-IsPart key (count_of key d) d

  Round-le :
      (k key : LedgerKey) (d d' : RecoveryLedgerData)
      → Round sha256 max_bytes key d d'
      → count_of k d' ≤ count_of k d
  Round-le k key d d' (nothing none_left) = omega arith
  Round-le k key d d' (some_of n edge) = trim-le k key n d
  Round-le k key d d' (all_of misses) = trim-le k key (count_of key d) d

  -- After a round the ledger fits, or nothing of the key is left.
  Round-cases :
      (key : LedgerKey) (d d' : RecoveryLedgerData)
      → Round sha256 max_bytes key d d'
      → (fits sha256 max_bytes d' ≡ true) ⊎ (count_of key d' ≡ 0)
  Round-cases key d d' (nothing none_left) = inr none_left
  Round-cases key d d' (some_of n edge) = inl edge.fitting
  Round-cases key d d' (all_of misses) = inr (trim_all key d)

  pub fit_keys-IsPart :
      (keys : List LedgerKey) (d : RecoveryLedgerData) → IsPart (fit_keys sha256 max_bytes keys d) d
  fit_keys-IsPart [] d = subst (λ x. IsPart x d) (sym (fit_keys_done d)) (IsPart-refl d)
  fit_keys-IsPart (key ∷ keys) d = elim (Bool-cases (fits sha256 max_bytes d)) [
    | inl h ↦ subst (λ x. IsPart x d) (sym (fit_keys_hit (key ∷ keys) d h)) (IsPart-refl d)
    | inr h ↦
        let next = trim_key sha256 max_bytes key d in
        subst (λ x. IsPart x d) (sym (fit_keys_miss key keys d h))
          (IsPart-trans (fit_keys-IsPart keys next)
            (Round-IsPart key d next (trim_key-Round sha256 max_bytes key d)))
  ]

  fit_keys-le :
      (k : LedgerKey) (keys : List LedgerKey) (d : RecoveryLedgerData)
      → count_of k (fit_keys sha256 max_bytes keys d) ≤ count_of k d
  fit_keys-le k [] d =
      subst (λ x. count_of k x ≤ count_of k d) (sym (fit_keys_done d)) (omega arith)
  fit_keys-le k (key ∷ keys) d = elim (Bool-cases (fits sha256 max_bytes d)) [
    | inl h ↦
        subst (λ x. count_of k x ≤ count_of k d) (sym (fit_keys_hit (key ∷ keys) d h)) (omega arith)
    | inr h ↦
        let next = trim_key sha256 max_bytes key d in
        subst (λ x. count_of k x ≤ count_of k d) (sym (fit_keys_miss key keys d h))
          (omega (
            arith,
            fit_keys-le k keys next,
            Round-le k key d next (trim_key-Round sha256 max_bytes key d),
          ))
  ]

  -- Where the ledger does not fit after all, nothing is left of any key.
  pub fit_keys_exhausted :
      (keys : List LedgerKey) (d : RecoveryLedgerData)
      → fits sha256 max_bytes (fit_keys sha256 max_bytes keys d) ≡ false
      → All (λ k. count_of k (fit_keys sha256 max_bytes keys d) ≡ 0) keys
  fit_keys_exhausted [] d h = tt
  fit_keys_exhausted (key ∷ keys) d h = elim (Bool-cases (fits sha256 max_bytes d)) [
    | inl e ↦
        let hit = ap (fits sha256 max_bytes) (fit_keys_hit (key ∷ keys) d e) in
        absurd (true_false (sym (hit ∙ e) ∙ h))
    | inr e ↦
        let next = trim_key sha256 max_bytes key d in
        let step = fit_keys_miss key keys d e in
        let h' = sym (ap (fits sha256 max_bytes) step) ∙ h in
        subst (λ x. All (λ k. count_of k x ≡ 0) (key ∷ keys)) (sym step)
          (
            elim (Round-cases key d next (trim_key-Round sha256 max_bytes key d)) [
              | inl f ↦
                  let hit = ap (fits sha256 max_bytes) (fit_keys_hit keys next f) in
                  absurd (true_false (sym (hit ∙ f) ∙ h'))
              | inr e' ↦ omega (arith, fit_keys-le key keys next, e')
            ],
            fit_keys_exhausted keys next h',
          )
  ]
    where
      true_false : true ≡ false → ⊥
      true_false c = cc
