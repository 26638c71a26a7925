-- ===== src/State/Attempts/Calls.antt =====
-- src/state.ts: `AttemptStore` under any sequence of calls.
use opencode_better_compact.Base.{
  ℕ, ◌≢◌, Option, none, some, List, [], ◌∷◌, arith, All, Text, is_empty, Bool-cases, inl, inr,
}
use opencode_better_compact.State.Attempts.{
  Attempt, Store, cleanup_expired, set, get, delete, clear,
}
use opencode_better_compact.State.Attempts.Laws.{
  IsValid, cleanup_expired-IsValid, delete-IsValid, set-IsValid,
}

-- The calls of the store that the plugin makes, with their times.
pub data Call (P : Type 0) : Type 0 where
  gets : Text → ℕ → Call P
  sets : Attempt P → Call P
  deletes : Option Text → Call P
  clears : Call P
  cleans : ℕ → Call P

module _ {P : Type 0} where
  unfoldable pub call : Call P → Store P → Store P
  call (gets session_id now) m = (get session_id now m).0
  call (sets a) m = set a m
  call (deletes session_id) m = delete session_id m
  call clears m = clear m
  call (cleans now) m = cleanup_expired now m

  unfoldable pub run : List (Call P) → Store P → Store P
  unfolding call
  run [] m = m
  run (c ∷ cs) m = run cs (call c m)

  -- Attempts are made for sessions with a name.
  abbrev pub IsNamed : Call P → Type 0
  IsNamed (sets a) = a.session_id ≢ []
  IsNamed _ = Unit

  call-IsValid : (c : Call P) (m : Store P) → IsNamed c → IsValid m → IsValid (call c m)
  unfolding call get delete clear
  call-IsValid (gets j now) m h v = cleanup_expired-IsValid now m v
  call-IsValid (sets a) m h v = set-IsValid a m v h
  call-IsValid (deletes none) m h v = v
  call-IsValid (deletes (some j)) m h v = elim (Bool-cases (is_empty j)) [
    | inl unnamed ↦ rw unnamed v
    | inr named ↦ rw named (delete-IsValid j m v)
  ]
  call-IsValid clears m h v = record { distinct = tt; filed = tt; bounded = omega arith }
  call-IsValid (cleans now) m h v = cleanup_expired-IsValid now m v

  run-IsValid_from :
      (cs : List (Call P)) (m : Store P) → All IsNamed cs → IsValid m → IsValid (run cs m)
  unfolding run
  run-IsValid_from [] m h v = v
  run-IsValid_from (c ∷ cs) m (n, h) v = run-IsValid_from cs (call c m) h (call-IsValid c m n v)

  -- After any calls from the empty store that set attempts of named sessions: no session twice, each attempt under its own session, and
  -- at most 128 of them.
  pub run-IsValid : (cs : List (Call P)) → All IsNamed cs → IsValid (run cs [])
  run-IsValid cs h =
      run-IsValid_from cs [] h (record { distinct = tt; filed = tt; bounded = omega arith })
