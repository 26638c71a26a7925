-- ===== src/Ledger/Tests.antt =====
-- src/ledger.ts: small ledgers made to fit.
use opencode_better_compact.Base.{
  ◌≡◌, refl, ℕ, ◌≤◌, true, false, [], ◌∷◌, Text, codes, ltb, arith, ok, throw, range_error,
}
use opencode_better_compact.Base.Value.{join}
use opencode_better_compact.Utf8.{utf8_bytes}
use opencode_better_compact.Ledger.{RecoveryLedgerData, RecoveryLedger, canonical_ledger}
use opencode_better_compact.Ledger.Search.{search, first_fitting, search-first_fitting}
use opencode_better_compact.Ledger.Fit.{evidence, removal_order, trim_key, fits, fit_ledger}
use opencode_better_compact.Ledger.Fitted.{Round, trim_key-Round}
use opencode_better_compact.Ledger.Outcome.{
  no_data, IsFitted, fit_ledger-IsFitted, fit_ledger-throw,
}

abbrev of_text : Text → Text
of_text t = codes "d1"

abbrev small_data : RecoveryLedgerData
small_data = record no_data {
  evidence = codes "a: completed" ∷ codes "b: completed" ∷ codes "c: completed" ∷ [];
  next_actions = codes "go on" ∷ [];
}

no_data_fits : fits of_text 380 no_data ≡ true
unfolding fits codes join utf8_bytes
no_data_fits = refl

fit_ledger-IsFitted_example :
    (ledger : RecoveryLedger) × (fit_ledger of_text 380 small_data removal_order ≡ ok ledger)
    × IsFitted of_text 380 small_data ledger
fit_ledger-IsFitted_example = fit_ledger-IsFitted of_text 380 small_data no_data_fits

-- Two of three pieces of evidence go.
small_is_trimmed :
    fit_ledger of_text 380 small_data removal_order
    ≡ ok (canonical_ledger of_text (record small_data { evidence = codes "c: completed" ∷ [] }))
unfolding fit_ledger codes join utf8_bytes
small_is_trimmed = refl

small_does_not_fit : fit_ledger of_text 10 small_data removal_order ≡ throw range_error
unfolding fit_ledger codes join utf8_bytes
small_does_not_fit = refl

small_throws : (range_error ≡ range_error) × (fits of_text 10 no_data ≡ false)
small_throws = fit_ledger-throw of_text 10 small_data range_error small_does_not_fit

trim_key-Round_example :
    Round of_text 380 evidence small_data (trim_key of_text 380 evidence small_data)
trim_key-Round_example = trim_key-Round of_text 380 evidence small_data

above_two : (m n : ℕ) → m ≤ n → ltb 2 m ≡ true → ltb 2 n ≡ true
above_two m n h e = ground arith

search-first_fitting_example : search (λ n. ltb 2 n) 5 1 5 ≡ first_fitting (λ n. ltb 2 n) 5 1
search-first_fitting_example = search-first_fitting (λ n. ltb 2 n) 5 (omega arith) above_two refl
