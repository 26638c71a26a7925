-- ===== src/Ledger/Fitted.antt =====
-- src/ledger.ts: what is left of a ledger that is made to fit (`fitLedger`).
use opencode_better_compact.Base.{
  ◌≡◌, refl, sym, subst, ℕ, ◌-◌, ◌≤◌, ◌<◌, true, false, inl, inr, Bool-cases, length, length-drop,
  length-take, ◌==◌, ==_iff, arith, Text,
}
use opencode_better_compact.Ledger.{RecoveryLedgerData}
use opencode_better_compact.Ledger.Search.{search, IsEdge, search-IsEdge}
use opencode_better_compact.Ledger.Fit
use opencode_better_compact.Ledger.Fit.{
  LedgerKey, removal_order, count_of, trim, fits, trim_key, fit_keys, fit_ledger,
}

pub trim-le :
    (k j : LedgerKey) (n : ℕ) (d : RecoveryLedgerData) → count_of k (trim j n d) ≤ count_of k d
unfolding count_of trim
trim-le Fit.recent_requests Fit.recent_requests n d = omega (arith, length-drop n d.recent_requests)
trim-le Fit.constraints Fit.constraints n d = omega (arith, length-drop n d.constraints)
trim-le Fit.todos Fit.todos n d = omega (arith, length-drop n d.todos)
trim-le Fit.touched_paths Fit.touched_paths n d = omega (arith, length-drop n d.touched_paths)
trim-le Fit.tool_statuses Fit.tool_statuses n d = omega (arith, length-drop n d.tool_statuses)
trim-le Fit.errors Fit.errors n d = omega (arith, length-drop n d.errors)
trim-le Fit.evidence Fit.evidence n d = omega (arith, length-drop n d.evidence)
trim-le Fit.next_actions Fit.next_actions n d =
    omega (arith, length-take (length d.next_actions - n) d.next_actions)
trim-le Fit.legacy_context Fit.legacy_context n d = omega (arith, length-drop n d.legacy_context)
trim-le k j n d = omega arith

pub trim_all : (k : LedgerKey) (d : RecoveryLedgerData) → count_of k (trim k (count_of k d) d) ≡ 0
unfolding count_of trim
trim_all Fit.recent_requests d =
    omega (arith, length-drop (length d.recent_requests) d.recent_requests)
trim_all Fit.constraints d = omega (arith, length-drop (length d.constraints) d.constraints)
trim_all Fit.todos d = omega (arith, length-drop (length d.todos) d.todos)
trim_all Fit.touched_paths d = omega (arith, length-drop (length d.touched_paths) d.touched_paths)
trim_all Fit.tool_statuses d = omega (arith, length-drop (length d.tool_statuses) d.tool_statuses)
trim_all Fit.errors d = omega (arith, length-drop (length d.errors) d.errors)
trim_all Fit.evidence d = omega (arith, length-drop (length d.evidence) d.evidence)
trim_all Fit.next_actions d =
    omega (arith, length-take (length d.next_actions - length d.next_actions) d.next_actions)
trim_all Fit.legacy_context d =
    omega (arith, length-drop (length d.legacy_context) d.legacy_context)

module _ (sha256 : Text → Text) (max_bytes : ℕ) where
  -- How a round changes data: nothing to take, as few values as fit, or all of them.
  pub data Round (key : LedgerKey) (d : RecoveryLedgerData) : RecoveryLedgerData → Type 0 where
    nothing : count_of key d ≡ 0 → Round key d d
    some_of :
        (n : ℕ)
        → IsEdge (λ m. fits sha256 max_bytes (trim key m d)) (count_of key d) n
        → Round key d (trim key n d)
    all_of :
        fits sha256 max_bytes (trim key (count_of key d) d) ≡ false
        → Round key d (trim key (count_of key d) d)

  trim_key_nothing :
      (key : LedgerKey) (d : RecoveryLedgerData)
      → (count_of key d == 0) ≡ true
      → trim_key sha256 max_bytes key d ≡ d
  unfolding trim_key
  trim_key_nothing key d e = rw e

  trim_key_some :
      (key : LedgerKey) (d : RecoveryLedgerData)
      → (count_of key d == 0) ≡ false
      → fits sha256 max_bytes (trim key (count_of key d) d) ≡ true
      → trim_key sha256 max_bytes key d
        ≡ trim key
            (search (λ n. fits sha256 max_bytes (trim key n d)) (count_of key d) 1 (count_of key d))
            d
  unfolding trim_key
  trim_key_some key d e f = rw (e, f)

  trim_key_all :
      (key : LedgerKey) (d : RecoveryLedgerData)
      → (count_of key d == 0) ≡ false
      → fits sha256 max_bytes (trim key (count_of key d) d) ≡ false
      → trim_key sha256 max_bytes key d ≡ trim key (count_of key d) d
  unfolding trim_key
  trim_key_all key d e f = rw (e, f)

  -- A round takes nothing, all values of its key, or as few as make the ledger fit: with one fewer it
  -- does not.
  pub trim_key-Round :
      (key : LedgerKey) (d : RecoveryLedgerData) → Round key d (trim_key sha256 max_bytes key d)
  trim_key-Round key d = elim (Bool-cases (count_of key d == 0)) [
    | inl e ↦
        subst (Round key d) (sym (trim_key_nothing key d e))
          (nothing ((==_iff (count_of key d) 0).0 e))
    | inr e ↦
        let count = count_of key d in
        let positive : 0 < count = ground (arith, e) in
        elim (Bool-cases (fits sha256 max_bytes (trim key count d))) [
          | inl f ↦ subst (Round key d) (sym (trim_key_some key d e f)) (
              some_of (search (λ n. fits sha256 max_bytes (trim key n d)) count 1 count) (
                search-IsEdge (λ n. fits sha256 max_bytes (trim key n d)) count 1 count
                  (omega arith)
                  (record {
                    ordered = positive;
                    upper = f;
                    lower = inl refl;
                    positive = omega arith;
                  })))
          | inr f ↦ subst (Round key d) (sym (trim_key_all key d e f)) (all_of f)
        ]
  ]
