-- ===== src/State/VccAttempts/Calls.antt =====
-- src/state.ts: `VccAttemptStore` under any sequence of calls.
use opencode_better_compact.Base.{
  ℕ, Option, none, some, List, [], ◌∷◌, arith, Text, is_empty, Bool-cases, Option-cases, inl, inr,
  ok, throw,
}
use opencode_better_compact.Base.Value.{Value}
use opencode_better_compact.State.VccAttempt.{validate_vcc_attempt}
use opencode_better_compact.State.VccAttempt.Laws.{validate_vcc_attempt_sound}
use opencode_better_compact.State.VccAttempts.{
  Store, Binding, cleanup_expired, set, get, get_session, delete, delete_session, clear,
}
use opencode_better_compact.State.VccAttempts.Laws.{
  IsValid, keep-IsValid, delete-IsValid, store-IsValid,
}

pub data Call : Type 0 where
  gets : Text → Option Binding → ℕ → Call
  gets_session : Text → ℕ → Call
  sets : Value → Call
  deletes : Option Text → Call
  deletes_session : Option Text → Call
  clears : Call
  cleans : ℕ → Call

module _ (redact : Text → Text) where
  -- A `TypeError` leaves the store as it is.
  unfoldable pub call : Call → Store → Store
  call (gets attempt_id binding now) m = (get attempt_id binding now m).0
  call (gets_session session_id now) m = (get_session session_id now m).0
  call (sets value) m = elim (set redact value m) [ ok (n, a) ↦ n | throw e ↦ m ]
  call (deletes attempt_id) m = delete attempt_id m
  call (deletes_session session_id) m = delete_session session_id m
  call clears m = clear m
  call (cleans now) m = cleanup_expired now m

  unfoldable pub run : List Call → Store → Store
  unfolding call
  run [] m = m
  run (c ∷ cs) m = run cs (call c m)

  set_call-IsValid :
      (value : Value) (m : Store) → IsValid redact m → IsValid redact (call (sets value) m)
  unfolding call set
  set_call-IsValid value m v = elim (Option-cases (validate_vcc_attempt redact value)) [
    | inl refused ↦ rw (refused, call, set) v
    | inr (a, admitted) ↦
        let (bounds, coheres) = validate_vcc_attempt_sound redact value a admitted in
        rw (admitted, call, set) (store-IsValid redact a m v bounds coheres)
  ]

  call-IsValid : (c : Call) (m : Store) → IsValid redact m → IsValid redact (call c m)
  unfolding call get get_session delete delete_session clear cleanup_expired
  call-IsValid (gets k binding now) m v = keep-IsValid redact _ m v
  call-IsValid (gets_session k now) m v = keep-IsValid redact _ m v
  call-IsValid (sets value) m v = set_call-IsValid value m v
  call-IsValid (deletes none) m v = v
  call-IsValid (deletes (some k)) m v = elim (Bool-cases (is_empty k)) [
    | inl unnamed ↦ rw unnamed v
    | inr named ↦ rw named (delete-IsValid redact k m v)
  ]
  call-IsValid (deletes_session none) m v = v
  call-IsValid (deletes_session (some k)) m v = elim (Bool-cases (is_empty k)) [
    | inl unnamed ↦ rw unnamed v
    | inr named ↦ rw named (keep-IsValid redact _ m v)
  ]
  call-IsValid clears m v = record { distinct = tt; filed = tt; apart = tt; bounded = omega arith }
  call-IsValid (cleans now) m v = keep-IsValid redact _ m v

  run-IsValid_from : (cs : List Call) (m : Store) → IsValid redact m → IsValid redact (run cs m)
  unfolding run
  run-IsValid_from [] m v = v
  run-IsValid_from (c ∷ cs) m v = run-IsValid_from cs (call c m) (call-IsValid c m v)

  -- After any calls from the empty store, also calls with values that are refused: no attempt
  -- identity and no session twice, each attempt admissible, and at most 1024 of them.
  pub run_vcc-IsValid : (cs : List Call) → IsValid redact (run cs [])
  run_vcc-IsValid cs =
      run-IsValid_from cs []
        (record { distinct = tt; filed = tt; apart = tt; bounded = omega arith })
