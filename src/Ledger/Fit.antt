-- ===== src/Ledger/Fit.antt =====
-- src/ledger.ts: a ledger is trimmed until it fits (`fitLedger`).
use opencode_better_compact.Base.{
  ℕ, ◌-◌, Bool, List, [], ◌∷◌, length, take, drop, leb, ◌==◌, Text, Result, ok, throw, range_error,
  if◌then◌else◌,
}
use opencode_better_compact.Utf8.{utf8_bytes}
use opencode_better_compact.Ledger.{RecoveryLedgerData, RecoveryLedger, canonical_ledger}
use opencode_better_compact.Ledger.Search.{search}

-- `keyof RecoveryLedgerData`
pub data LedgerKey : Type 0 where
  recent_requests constraints todos touched_paths tool_statuses errors evidence : LedgerKey
  next_actions legacy_context : LedgerKey

abbrev pub removal_order : List LedgerKey
removal_order =
    evidence ∷ tool_statuses ∷ errors ∷ legacy_context ∷ constraints ∷ touched_paths ∷ todos
    ∷ recent_requests ∷ next_actions ∷ []

unfoldable pub count_of : LedgerKey → RecoveryLedgerData → ℕ
count_of recent_requests d = length d.recent_requests
count_of constraints d = length d.constraints
count_of todos d = length d.todos
count_of touched_paths d = length d.touched_paths
count_of tool_statuses d = length d.tool_statuses
count_of errors d = length d.errors
count_of evidence d = length d.evidence
count_of next_actions d = length d.next_actions
count_of legacy_context d = length d.legacy_context

-- The last of these goes first in the actions, the first in the others.
unfoldable pub trim : LedgerKey → ℕ → RecoveryLedgerData → RecoveryLedgerData
trim recent_requests n d = record d { recent_requests = drop n d.recent_requests }
trim constraints n d = record d { constraints = drop n d.constraints }
trim todos n d = record d { todos = drop n d.todos }
trim touched_paths n d = record d { touched_paths = drop n d.touched_paths }
trim tool_statuses n d = record d { tool_statuses = drop n d.tool_statuses }
trim errors n d = record d { errors = drop n d.errors }
trim evidence n d = record d { evidence = drop n d.evidence }
trim next_actions n d = record d { next_actions = take (length d.next_actions - n) d.next_actions }
trim legacy_context n d = record d { legacy_context = drop n d.legacy_context }

module _ (sha256 : Text → Text) (max_bytes : ℕ) where
  unfoldable pub fits : RecoveryLedgerData → Bool
  unfolding canonical_ledger
  fits d = leb (utf8_bytes (canonical_ledger sha256 d).block) max_bytes

  -- One round of the loop over the keys, for data that does not fit: all of the key's values go, or as
  -- few of them as the search finds.
  unfoldable pub trim_key : LedgerKey → RecoveryLedgerData → RecoveryLedgerData
  unfolding count_of trim search
  trim_key key d =
      let count = count_of key d in
      if count == 0
      then d
      else if fits (trim key count d)
      then trim key (search (λ n. fits (trim key n d)) count 1 count) d
      else trim key count d

  unfoldable pub fit_keys : List LedgerKey → RecoveryLedgerData → RecoveryLedgerData
  unfolding fits trim_key
  fit_keys [] d = d
  fit_keys (key ∷ rest) d =
      let trimmed = fit_keys rest (trim_key key d) in if fits d then d else trimmed

  -- `fitLedger`, of the ledger that the loop leaves.
  unfoldable pub fit_ledger : RecoveryLedgerData → List LedgerKey → Result RecoveryLedger
  unfolding fit_keys
  fit_ledger d order =
      let kept = fit_keys order d in
      if fits kept then ok (canonical_ledger sha256 kept) else throw range_error
