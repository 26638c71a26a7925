-- ===== src/State/Tests.antt =====
-- Runs of the stores of src/state.ts, and their theorems at concrete data.
use opencode_better_compact.Base.{
  ℕ, ◌-◌, ◌≡◌, refl, none, some, [], ◌∷◌, arith, Text, eq_text, length, drop,
}
use opencode_better_compact.Base.JsMap
use opencode_better_compact.Ledger.{RecoveryLedger}
use opencode_better_compact.State.Attempts.{
  Attempt, Validation, Store, max_attempts, cleanup_expired, set, get, is_expired,
}
use opencode_better_compact.State.Attempts.Laws.{
  IsValid, refreshed, set-eq-newest, get_attempt-set, get_attempt-set_ne,
}
use opencode_better_compact.State.Attempts.Calls.{sets, gets, deletes, run, run-IsValid}
use opencode_better_compact.State.Evict.{evict}

abbrev empty_ledger : RecoveryLedger
empty_ledger = record {
  contents = record {
    recent_requests = [];
    constraints = [];
    todos = [];
    touched_paths = [];
    tool_statuses = [];
    errors = [];
    evidence = [];
    next_actions = [];
    legacy_context = [];
  };
  body = [];
  digest = [];
  block = [];
}

abbrev attempt : Text → ℕ → Attempt ℕ
attempt session created = record {
  session_id = session;
  created_at = created;
  ledger = empty_ledger;
  projection = some 7;
  summary_message_id = none;
  text_part_id = none;
  validation = Validation.pending;
  recovery_user_id = none;
  recovery_complete = none;
}

abbrev first : Attempt ℕ
first = attempt (1 ∷ []) 1000

abbrev second : Attempt ℕ
second = attempt (2 ∷ []) 2000

abbrev two : Store ℕ
two = (1 ∷ [], first) ∷ (2 ∷ [], second) ∷ []

two-IsValid : IsValid two
unfolding JsMap.get eq_text
two-IsValid = record {
  distinct = (refl, (refl, tt));
  filed = ((refl, (λ e. cc)), ((refl, (λ e. cc)), tt));
  bounded = omega arith;
}

-- Setting the first session again moves it behind the second; an expired attempt goes.
set_again :
    set (attempt (1 ∷ []) 3000) two ≡ (2 ∷ [], second) ∷ (1 ∷ [], attempt (1 ∷ []) 3000) ∷ []
unfolding set cleanup_expired is_expired JsMap.set JsMap.delete evict eq_text
set_again = refl

set_late : set (attempt (1 ∷ []) 1802000) two ≡ (1 ∷ [], attempt (1 ∷ []) 1802000) ∷ []
unfolding set cleanup_expired is_expired JsMap.set JsMap.delete evict eq_text
set_late = refl

newest_of_two :
    set (attempt (1 ∷ []) 3000) two
    ≡ drop
        (length (refreshed (attempt (1 ∷ []) 3000) two) - max_attempts)
        (refreshed (attempt (1 ∷ []) 3000) two)
newest_of_two = set-eq-newest (attempt (1 ∷ []) 3000) two two-IsValid (λ e. cc)

attempt_is_found :
    (get (1 ∷ []) 3500 (set (attempt (1 ∷ []) 3000) two)).1 ≡ some (attempt (1 ∷ []) 3000)
attempt_is_found =
    get_attempt-set (attempt (1 ∷ []) 3000) 3500 two two-IsValid (λ e. cc) (omega arith)

second_is_kept : (get (2 ∷ []) 3000 two).1 ≡ some second
unfolding set get cleanup_expired is_expired JsMap.set JsMap.delete JsMap.get evict eq_text
second_is_kept =
    get_attempt-set_ne (attempt (1 ∷ []) 3000) second (2 ∷ []) 3500 two two-IsValid (λ e. cc)
      (λ e. cc) refl

run-IsValid_example :
    IsValid
      (run (sets first ∷ sets second ∷ gets (1 ∷ []) 1802000 ∷ deletes (some (2 ∷ [])) ∷ []) [])
run-IsValid_example =
    run-IsValid (sets first ∷ sets second ∷ gets (1 ∷ []) 1802000 ∷ deletes (some (2 ∷ [])) ∷ [])
      ((λ e. cc), ((λ e. cc), (tt, (tt, tt))))
