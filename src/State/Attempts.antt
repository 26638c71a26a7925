-- ===== src/State/Attempts.antt =====
-- src/state.ts: `AttemptStore`, at most 128 attempts, each for 30 minutes.
pub mod Laws
pub mod Calls
use opencode_better_compact.Base.{
  ℕ, ◌-◌, ◌*◌, ◌++◌, Bool, true, false, not, Option, none, some, List, [], ◌∷◌, length, keep, leb,
  ltb, Text, is_empty, if◌then◌else◌,
}
use opencode_better_compact.Base.JsMap
use opencode_better_compact.Ledger.{RecoveryLedger}
use opencode_better_compact.State.Evict.{evict}

abbrev pub attempt_ttl_ms : ℕ
attempt_ttl_ms = 1800000

abbrev pub max_attempts : ℕ
max_attempts = 128

pub data Validation : Type 0 where
  pending provider fallback invalid : Validation

-- The store never looks into the projection.
pub record Attempt (Projection : Type 0) : Type 0 where
  pub session_id : Text
  pub created_at : ℕ
  pub ledger : RecoveryLedger
  pub projection : Option Projection
  pub summary_message_id : Option Text
  pub text_part_id : Option Text
  pub validation : Validation
  pub recovery_user_id : Option Text
  pub recovery_complete : Option Bool

-- The field `#attempts`.
abbrev pub Store : Type 0 → Type 0
Store P = List (Text × Attempt P)

module _ {P : Type 0} where
  -- `now - attempt.createdAt` stops at 0 on ℕ, where the source's is negative: both are below the
  -- limit.
  unfoldable pub is_expired : ℕ → Text × Attempt P → Bool
  is_expired now (session_id, attempt) = leb attempt_ttl_ms (now - attempt.created_at)

  unfoldable pub cleanup_expired : ℕ → Store P → Store P
  cleanup_expired now attempts = keep (λ e. not (is_expired now e)) attempts

  unfoldable pub set : Attempt P → Store P → Store P
  set attempt attempts = evict max_attempts (
      JsMap.set attempt.session_id attempt
        (JsMap.delete attempt.session_id (cleanup_expired attempt.created_at attempts)))

  -- The new state of the store, and what the method returns.
  unfoldable pub get : Text → ℕ → Store P → Store P × Option (Attempt P)
  get session_id now attempts =
      let live = cleanup_expired now attempts in (live, JsMap.get session_id live)

  -- `delete(sessionID)`; nothing is deleted for `undefined` and the empty string.
  unfoldable pub delete : Option Text → Store P → Store P
  delete none attempts = attempts
  delete (some session_id) attempts =
      if is_empty session_id then attempts else JsMap.delete session_id attempts

  unfoldable pub clear : Store P → Store P
  clear attempts = []

  unfoldable pub size : Store P → ℕ
  size attempts = length attempts
