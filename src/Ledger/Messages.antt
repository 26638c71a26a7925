-- ===== src/Ledger/Messages.antt =====
-- src/ledger.ts: the loop over the messages, from the newest on (`buildRecoveryLedger`).
use opencode_better_compact.Base.{
  ℕ, ◌+◌, ◌-◌, ◌/◌, ◌%◌, ◌^◌, ◌==◌, Bool, true, false, not, ◌&&◌, ◌||◌, Option, none, some, List,
  [], ◌∷◌, ◌++◌, reverse, length, take, min, max, ltb, Text, codes, eq_text, member, is_empty,
  if◌then◌else◌,
}
use opencode_better_compact.Base.Value.{
  Value, null, bool, num, int, other, str, arr, obj, Fields, get_field, join,
}
use opencode_better_compact.Utf8.{bounded_source}
use opencode_better_compact.Ledger.{RecoveryLedgerData}
use opencode_better_compact.Ledger.Wording.{
  compact, compact_source_bytes, lines_from, has_word, constraint_words,
}
use opencode_better_compact.Ledger.Wording
use opencode_better_compact.Ledger.Parts.{
  MessageRecord, fields_of, bounded_part_count, records_from, user_text, compact_user_turn,
  push_unique,
}
use opencode_better_compact.Ledger.Collect.{
  Effects, Collected, nothing_yet, collect_parts, compaction_users, field_texts, is_user_role,
  max_messages, max_constraints, max_errors, max_legacy_context, user_parts_scanned,
  history_parts_scanned,
}

abbrev pub max_recent_requests : ℕ
max_recent_requests = 64

pub record PriorSummary : Type 0 where
  pub id : Text
  pub ledger : RecoveryLedgerData

-- The argument of `buildRecoveryLedger`.
pub record BuildInput : Type 0 where
  pub messages : List MessageRecord
  pub todos : List Value
  pub tail_turns : ℕ
  pub max_bytes : ℕ
  pub exclude_summary_id : Option Text
  pub prior_summary : Option PriorSummary

abbrev pub is_id : Option Text → Text → Bool
is_id none id = false
is_id (some t) id = eq_text t id

abbrev pub prior_id : Option PriorSummary → Option Text
prior_id none = none
prior_id (some prior) = some prior.id

abbrev pub is_parent_in : List Text → Option Text → Bool
is_parent_in users none = false
is_parent_in users (some id) = not (is_empty id) && member id users

-- The parent is the newest user that asked for a compaction.
abbrev pub is_newest : List Text → Option Text → Bool
is_newest [] parent = false
is_newest (newest ∷ users) none = false
is_newest (newest ∷ users) (some parent) = not (is_empty newest) && eq_text parent newest

-- The double is no number: an exponent of ones, and a fraction that is not 0.
abbrev pub is_nan : ℕ → Bool
is_nan bits = bits / 2 ^ 52 % 2048 == 2047 && ltb 0 (bits % 2 ^ 52)

-- `Boolean(value)`
abbrev pub is_truthy : Value → Bool
is_truthy null = false
is_truthy (bool b) = b
is_truthy (num (int negative n)) = ltb 0 n
is_truthy (num (other bits)) = not (is_nan bits)
is_truthy (str t) = not (is_empty t)
is_truthy (arr vs) = true
is_truthy (obj fs) = true

module _ (effects : Effects) where
  -- `errorText`
  abbrev pub error_text : Value → Text
  error_text (obj fs) = join (b':' ∷ b' ' ∷ []) (
      field_texts (codes "name") (some fs)
      ++ (field_texts (codes "message") (fields_of (get_field (codes "data") fs))
          ++ field_texts (codes "message") (some fs)))
  error_text value = effects.to_string value

  -- `if (message.info.error)`
  abbrev pub add_failure : Option Value → List Text → List Text
  add_failure none errors = errors
  add_failure (some failure) errors =
      if is_truthy failure
      then push_unique max_errors (compact effects.redact (error_text failure) 360) errors
      else errors

  -- The lines with a constraint, the first of them first.
  unfoldable pub constraints_of : List Text → List Text → List Text
  unfolding codes has_word push_unique compact
  constraints_of [] found = found
  constraints_of (line ∷ lines) found = constraints_of lines (
      if not (is_empty line) && has_word constraint_words false line
      then push_unique max_constraints (compact effects.redact line 360) found
      else found)

  abbrev pub lines_of : Option Text → List Text
  lines_of none = []
  lines_of (some t) = reverse (lines_from 0 Wording.none [] (bounded_source t compact_source_bytes))

  unfoldable pub collect_constraints : List Fields → List Text → List Text
  unfolding user_text lines_from constraints_of
  collect_constraints [] found = found
  collect_constraints (fs ∷ rest) found =
      collect_constraints rest (constraints_of (lines_of (user_text fs)) found)

  abbrev pub push_request : ℕ → Text → List Text → List Text
  push_request limit request requests =
      if ltb (length requests) limit && not (is_empty request)
      then requests ++ request ∷ []
      else requests

  -- A message of the user, where requests or constraints are still wanted.
  unfoldable pub collect_user : ℕ → MessageRecord → Collected → Collected
  unfolding compact_user_turn records_from collect_constraints
  collect_user limit m c =
      let count = bounded_part_count m.parts in
      let inspect = min count (user_parts_scanned - c.user_scanned) in
      let first = count - inspect in
      if is_user_role m.role
        && ltb c.user_scanned user_parts_scanned
        && (ltb (length c.requests) limit || ltb (length c.constraints) max_constraints)
      then record c {
        requests =
            push_request limit (compact_user_turn effects.redact m.parts first inspect 640)
              c.requests;
        constraints =
            collect_constraints (reverse (records_from m.parts first inspect)) c.constraints;
        user_scanned = c.user_scanned + inspect;
      }
      else c

  unfoldable pub collect_history : MessageRecord → Collected → Collected
  unfolding codes get_field compact push_unique records_from collect_parts
  collect_history m c =
      let count = bounded_part_count m.parts in
      let inspect = min count (history_parts_scanned - c.history_scanned) in
      let after =
        collect_parts effects (reverse (records_from m.parts (count - inspect) inspect)) c in
      record after {
        history_scanned = c.history_scanned + inspect;
        errors = add_failure m.failure after.errors;
      }

  module _ (input : BuildInput) (users : List Text) where
    abbrev pub is_legacy : MessageRecord → Bool
    is_legacy m =
        not (is_user_role m.role)
        && m.is_summary
        && not (is_newest users m.parent_id)
        && not (is_id input.exclude_summary_id m.id)
        && not (is_id (prior_id input.prior_summary) m.id)

    abbrev pub note_legacy : MessageRecord → List Text → List Text
    note_legacy m legacy =
        if ltb (length legacy) max_legacy_context && is_legacy m
        then legacy
          ++ (codes "Untrusted legacy summary "
              ++ (compact effects.redact m.id 96 ++ codes " omitted"))
            ∷ []
        else legacy

    -- The compaction's own messages: its user and the answers to it.
    abbrev pub is_compaction_message : MessageRecord → Bool
    is_compaction_message m =
        member m.id users || not (is_user_role m.role) && is_parent_in users m.parent_id

    abbrev pub request_limit : ℕ
    request_limit = max 1 (min input.tail_turns max_recent_requests)

    unfoldable pub collect_message : MessageRecord → Collected → Collected
    unfolding codes compact collect_user collect_history
    collect_message m c =
        let noted = record c { legacy = note_legacy m c.legacy } in
        if is_compaction_message m
        then noted
        else collect_history m (collect_user request_limit m noted)

    unfoldable pub collect_messages : List MessageRecord → Collected → Collected
    unfolding collect_message
    collect_messages [] c = c
    collect_messages (m ∷ rest) c = collect_messages rest (collect_message m c)

  -- What the last messages hold, in their order.
  unfoldable pub collect_ledger : BuildInput → Collected
  unfolding compaction_users collect_messages
  collect_ledger input =
      let newest_first = take max_messages (reverse input.messages) in
      let c = collect_messages input (compaction_users 0 newest_first) newest_first nothing_yet in
      record c {
        requests = reverse c.requests;
        constraints = reverse c.constraints;
        tool_statuses = reverse c.tool_statuses;
        errors = reverse c.errors;
        evidence = reverse c.evidence;
        legacy = reverse c.legacy;
      }
