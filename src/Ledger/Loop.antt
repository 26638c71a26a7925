-- ===== src/Ledger/Loop.antt =====
-- src/ledger.ts: what the loop over the messages keeps (`buildRecoveryLedger`).
use opencode_better_compact.Base.{
  ℕ, ◌≤◌, Bool, true, false, not, ◌&&◌, Option, none, some, List, [], ◌∷◌, ◌++◌, length, ltb,
  length-append, arith, Text, codes, eq_text, is_empty, if◌then◌else◌,
}
use opencode_better_compact.Base.Value.{Value, str, Fields, get_field, as_text}
use opencode_better_compact.Ledger.{ToolStatus}
use opencode_better_compact.Ledger.Wording.{compact, has_word, constraint_words, is_writing_tool}
use opencode_better_compact.Ledger.Parts.{user_text, fields_of, is_type, max_touched_paths}
use opencode_better_compact.Ledger.Collect.{
  Effects, Collected, max_constraints, max_tool_statuses, max_errors, max_evidence,
  max_legacy_context, user_parts_scanned, history_parts_scanned, add_all, add_status, add_error,
  add_evidence, labelled, evidence_detail, short, title_of, input_paths, part_paths, collect_tool,
  collect_state, collect_part, collect_parts, field_of,
}
use opencode_better_compact.Ledger.Messages.{
  is_truthy, error_text, add_failure, constraints_of, lines_of, collect_constraints,
}
use opencode_better_compact.Ledger.Kept.{Kept, push_unique-Kept, add_bounded_path-Kept}

-- Within the limits, without repetitions where the code looks for them, and after so many parts at
-- most.
pub record IsCollected (limit : ℕ) (c : Collected) : Type 0 where
  pub requests : length c.requests ≤ limit
  pub constraints : Kept max_constraints c.constraints
  pub paths : Kept max_touched_paths c.paths
  pub statuses : length c.tool_statuses ≤ max_tool_statuses
  pub errors : Kept max_errors c.errors
  pub evidence : Kept max_evidence c.evidence
  pub legacy : length c.legacy ≤ max_legacy_context
  pub users : c.user_scanned ≤ user_parts_scanned
  pub history : c.history_scanned ≤ history_parts_scanned

-- A value is put at the end where there is room.
pub pushed_le {ℓ} :
    {A : Type ℓ} (limit : ℕ) (v : A) (xs : List A)
    → length xs ≤ limit
    → length (if ltb (length xs) limit then xs ++ v ∷ [] else xs) ≤ limit
pushed_le limit v xs h = ground (arith, length-append xs (v ∷ []))

pub push_le {ℓ} :
    {A : Type ℓ} (limit : ℕ) (b : Bool) (v : A) (xs : List A)
    → length xs ≤ limit
    → length (if ltb (length xs) limit && b then xs ++ v ∷ [] else xs) ≤ limit
push_le limit b v xs h = ground (arith, length-append xs (v ∷ []))

-- What holds of both branches holds of the choice.
pub chosen {ℓ κ} :
    {A : Type ℓ} (P : A → Type κ) (b : Bool) {x y : A} → P x → P y → P (if b then x else y)
chosen P true p q = p
chosen P false p q = q

add_all-Kept :
    (redact : Text → Text) (ts xs : List Text)
    → Kept max_touched_paths xs
    → Kept max_touched_paths (add_all redact ts xs)
add_all-Kept redact [] xs k = k
add_all-Kept redact (t ∷ ts) xs k = add_all-Kept redact ts _ (add_bounded_path-Kept redact t xs k)

module _ (effects : Effects) where
  add_status-le :
      (tool status : Text) (state : Fields) (xs : List ToolStatus)
      → length xs ≤ max_tool_statuses
      → length (add_status effects tool status state xs) ≤ max_tool_statuses
  add_status-le tool status state xs h =
      pushed_le max_tool_statuses
        (record {
          tool = short effects tool 96;
          status = short effects status 32;
          title = title_of effects (get_field (codes "title") state);
        })
        xs h

  add_error-Kept :
      (tool status : Text) (error : Option Value) (xs : List Text)
      → Kept max_errors xs
      → Kept max_errors (add_error effects tool status error xs)
  add_error-Kept tool status (some (str error)) xs k =
      chosen (Kept max_errors) (eq_text status (codes "error"))
        (push_unique-Kept max_errors (labelled effects tool (short effects error 360)) xs k) k
  add_error-Kept tool status _ xs k = k

  add_evidence-Kept :
      (tool status : Text) (output : Option Value) (xs : List Text)
      → Kept max_evidence xs
      → Kept max_evidence (add_evidence effects tool status output xs)
  add_evidence-Kept tool status output xs k =
      chosen (Kept max_evidence) (eq_text status (codes "completed"))
        (push_unique-Kept max_evidence (labelled effects tool (evidence_detail effects output)) xs
          k)
        k

  pub add_failure-Kept :
      (failure : Option Value) (xs : List Text)
      → Kept max_errors xs
      → Kept max_errors (add_failure effects failure xs)
  add_failure-Kept none xs k = k
  add_failure-Kept (some failure) xs k =
      chosen (Kept max_errors) (is_truthy failure)
        (push_unique-Kept max_errors (compact effects.redact (error_text effects failure) 360) xs k)
        k

  constraints_of-Kept :
      (lines xs : List Text)
      → Kept max_constraints xs
      → Kept max_constraints (constraints_of effects lines xs)
  unfolding constraints_of
  constraints_of-Kept [] xs k = k
  constraints_of-Kept (line ∷ lines) xs k = constraints_of-Kept lines _ (
      chosen (Kept max_constraints) (not (is_empty line) && has_word constraint_words false line)
        (push_unique-Kept max_constraints (compact effects.redact line 360) xs k) k)

  pub collect_constraints-Kept :
      (fs : List Fields) (xs : List Text)
      → Kept max_constraints xs
      → Kept max_constraints (collect_constraints effects fs xs)
  unfolding collect_constraints
  collect_constraints-Kept [] xs k = k
  collect_constraints-Kept (f ∷ fs) xs k =
      collect_constraints-Kept fs _ (constraints_of-Kept (lines_of effects (user_text f)) xs k)

  module _ (limit : ℕ) where
    with_paths :
        (ts : List Text) (c : Collected)
        → IsCollected limit c
        → IsCollected limit (record c { paths = add_all effects.redact ts c.paths })
    with_paths ts c i = record {
      requests = i.requests;
      constraints = i.constraints;
      paths = add_all-Kept effects.redact ts c.paths i.paths;
      statuses = i.statuses;
      errors = i.errors;
      evidence = i.evidence;
      legacy = i.legacy;
      users = i.users;
      history = i.history;
    }

    collect_tool-IsCollected :
        (tool status : Text) (state : Fields) (c : Collected)
        → IsCollected limit c
        → IsCollected limit (collect_tool effects tool status state c)
    unfolding collect_tool
    collect_tool-IsCollected tool status state c i = record {
      requests = i.requests;
      constraints = i.constraints;
      paths =
          chosen (Kept max_touched_paths) (is_writing_tool tool)
            (add_all-Kept effects.redact (input_paths (fields_of (get_field (codes "input") state)))
              c.paths i.paths)
            i.paths;
      statuses = add_status-le tool status state c.tool_statuses i.statuses;
      errors = add_error-Kept tool status _ c.errors i.errors;
      evidence = add_evidence-Kept tool status _ c.evidence i.evidence;
      legacy = i.legacy;
      users = i.users;
      history = i.history;
    }

    collect_state-IsCollected :
        (tool : Option Text) (state : Option Fields) (status : Option Text) (c : Collected)
        → IsCollected limit c
        → IsCollected limit (collect_state effects tool state status c)
    collect_state-IsCollected (some tool) (some state) (some status) c i =
        collect_tool-IsCollected tool status state c i
    collect_state-IsCollected _ _ _ c i = i

    collect_part-IsCollected :
        (fs : Fields) (c : Collected)
        → IsCollected limit c
        → IsCollected limit (collect_part effects fs c)
    unfolding collect_part
    collect_part-IsCollected fs c i =
        let after = with_paths (part_paths fs) c i in
        let state = fields_of (get_field (codes "state") fs) in
        chosen (IsCollected limit) (is_type (codes "tool") fs)
          (collect_state-IsCollected (as_text (get_field (codes "tool") fs)) state
            (as_text (field_of (codes "status") state)) _ after)
          after

    pub collect_parts-IsCollected :
        (fs : List Fields) (c : Collected)
        → IsCollected limit c
        → IsCollected limit (collect_parts effects fs c)
    unfolding collect_parts
    collect_parts-IsCollected [] c i = i
    collect_parts-IsCollected (f ∷ fs) c i =
        collect_parts-IsCollected fs _ (collect_part-IsCollected f c i)
