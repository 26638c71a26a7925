-- ===== src/State/VccAttempts.antt =====
-- src/state.ts: `VccAttemptStore`, at most 1024 attempts, each for 30 days, one for a session.
pub mod Laws
pub mod Lookup
pub mod Stored
pub mod Calls
use opencode_better_compact.Base.{
  ℕ, ◌-◌, Bool, true, false, not, ◌&&◌, Option, none, some, List, [], ◌∷◌, length, keep, find, leb,
  Text, eq_text, is_empty, Result, ok, throw, type_error, if◌then◌else◌,
}
use opencode_better_compact.Base.JsMap
use opencode_better_compact.Base.Value.{Value}
use opencode_better_compact.State.Evict.{evict}
use opencode_better_compact.State.VccAttempt.{VccAttempt, validate_vcc_attempt}

abbrev pub vcc_attempt_ttl_ms : ℕ
vcc_attempt_ttl_ms = 2592000000

abbrev pub max_vcc_attempts : ℕ
max_vcc_attempts = 1024

abbrev pub Store : Type 0
Store = List (Text × VccAttempt)

pub record Binding : Type 0 where
  pub session_id : Text
  pub lineage_id : Text
  pub compaction_target_id : Text

unfoldable pub matches_binding : VccAttempt → Binding → Bool
matches_binding a b =
    eq_text a.session_id b.session_id
    && eq_text a.lineage_id b.lineage_id
    && eq_text a.compaction_target_id b.compaction_target_id

unfoldable pub is_expired : ℕ → Text × VccAttempt → Bool
is_expired now (attempt_id, a) = leb a.created_at now && leb vcc_attempt_ttl_ms (now - a.created_at)

unfoldable pub cleanup_expired : ℕ → Store → Store
cleanup_expired now attempts = keep (λ e. not (is_expired now e)) attempts

abbrev pub bound : Option Binding → Option VccAttempt → Option VccAttempt
bound binding none = none
bound none (some a) = some a
bound (some b) (some a) = if matches_binding a b then some a else none

-- The binding is optional; a stored attempt that does not match it is not returned.
unfoldable pub get : Text → Option Binding → ℕ → Store → Store × Option VccAttempt
get attempt_id binding now attempts =
    let live = cleanup_expired now attempts in (live, bound binding (JsMap.get attempt_id live))

unfoldable pub get_session : Text → ℕ → Store → Store × Option VccAttempt
get_session session_id now attempts =
    let live = cleanup_expired now attempts in
    (live, find (λ a. eq_text a.session_id session_id) (JsMap.values live))

-- The other attempts of the session are deleted.
unfoldable pub drop_others : VccAttempt → Store → Store
drop_others a attempts =
    keep (λ (id, e). not (eq_text e.session_id a.session_id && not (eq_text id a.attempt_id)))
      attempts

unfoldable pub store : VccAttempt → Store → Store
unfolding drop_others
store a attempts = evict max_vcc_attempts (
    JsMap.set a.attempt_id a
      (JsMap.delete a.attempt_id (drop_others a (cleanup_expired a.created_at attempts))))

-- `set(value)`: the new state and the attempt, or a `TypeError` that leaves the store as it is.
unfoldable pub set : (Text → Text) → Value → Store → Result (Store × VccAttempt)
unfolding store
set redact value attempts = elim (validate_vcc_attempt redact value) [
  | none ↦ throw type_error
  | some a ↦ ok (store a attempts, a)
]

unfoldable pub delete : Option Text → Store → Store
delete none attempts = attempts
delete (some attempt_id) attempts =
    if is_empty attempt_id then attempts else JsMap.delete attempt_id attempts

unfoldable pub delete_session : Option Text → Store → Store
delete_session none attempts = attempts
delete_session (some session_id) attempts =
    if is_empty session_id
    then attempts
    else keep (λ (id, e). not (eq_text e.session_id session_id)) attempts

unfoldable pub clear : Store → Store
clear attempts = []
