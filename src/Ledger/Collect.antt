-- ===== src/Ledger/Collect.antt =====
-- src/ledger.ts: what is collected from the messages, the newest first (`buildRecoveryLedger`).
use opencode_better_compact.Base.{
  ℕ, ◌+◌, ◌-◌, Bool, true, false, Option, none, some, List, [], ◌∷◌, ◌++◌, length, any, min, leb,
  ltb, Text, codes, eq_text, is_empty, if◌then◌else◌,
}
use opencode_better_compact.Base.Value.{Value, str, arr, Fields, get_field, as_text}
use opencode_better_compact.Vcc.Patch.Checks.{strings_of}
use opencode_better_compact.Ledger.{ToolStatus}
use opencode_better_compact.Ledger.Wording.{compact, single_spaced, is_writing_tool}
use opencode_better_compact.Ledger.Parts.{
  Role, user, assistant, MessageRecord, fields_of, is_type, bounded_part_count, records_from,
  tool_evidence, push_unique, add_bounded_path,
}

abbrev pub max_messages : ℕ
max_messages = 10000

abbrev pub compaction_parts_scanned : ℕ
compaction_parts_scanned = 4096

abbrev pub user_parts_scanned : ℕ
user_parts_scanned = 8192

abbrev pub history_parts_scanned : ℕ
history_parts_scanned = 8192

abbrev pub max_constraints : ℕ
max_constraints = 16

abbrev pub max_tool_statuses : ℕ
max_tool_statuses = 48

abbrev pub max_errors : ℕ
max_errors = 24

abbrev pub max_evidence : ℕ
max_evidence = 32

abbrev pub max_legacy_context : ℕ
max_legacy_context = 2

abbrev pub is_user_role : Role → Bool
is_user_role user = true
is_user_role assistant = false

-- The users that asked for a compaction, the newest first, after so many scanned parts.
unfoldable pub compaction_users : ℕ → List MessageRecord → List Text
unfolding records_from codes
compaction_users scanned [] = []
compaction_users scanned (m ∷ rest) =
    let count = bounded_part_count m.parts in
    let inspect = min count (compaction_parts_scanned - scanned) in
    let older = compaction_users (scanned + inspect) rest in
    let skipped = compaction_users scanned rest in
    let asks =
      any (is_type (codes "compaction")) (records_from m.parts (count - inspect) inspect) in
    elim (leb compaction_parts_scanned scanned) [
      | true ↦ []
      | false ↦ elim (is_user_role m.role) [
        | false ↦ skipped
        | true ↦ if asks then m.id ∷ older else older
      ]
    ]

pub record Collected : Type 0 where
  pub requests : List Text
  pub constraints : List Text
  pub paths : List Text
  pub tool_statuses : List ToolStatus
  pub errors : List Text
  pub evidence : List Text
  pub legacy : List Text
  pub user_scanned : ℕ
  pub history_scanned : ℕ

abbrev pub nothing_yet : Collected
nothing_yet = record {
  requests = [];
  constraints = [];
  paths = [];
  tool_statuses = [];
  errors = [];
  evidence = [];
  legacy = [];
  user_scanned = 0;
  history_scanned = 0;
}

-- What the code calls and this library does not define: the redaction of secrets, the digest, and
-- `String` of a value that is no object.
pub record Effects : Type 0 where
  pub redact : Text → Text
  pub sha256 : Text → Text
  pub to_string : Value → Text

abbrev pub add_all : (Text → Text) → List Text → List Text → List Text
add_all redact [] paths = paths
add_all redact (t ∷ ts) paths = add_all redact ts (add_bounded_path redact t paths)

abbrev pub text_of : Option Value → List Text
text_of (some (str t)) = t ∷ []
text_of _ = []

abbrev pub field_of : Text → Option Fields → Option Value
field_of key none = none
field_of key (some fs) = get_field key fs

abbrev pub field_texts : Text → Option Fields → List Text
field_texts key fs = text_of (field_of key fs)

abbrev pub file_texts : Option Value → List Text
file_texts (some (arr vs)) = strings_of vs
file_texts _ = []

-- The paths that a part names, in the code's order.
unfoldable pub part_paths : Fields → List Text
unfolding codes get_field strings_of
part_paths fs =
    if is_type (codes "patch") fs
    then file_texts (get_field (codes "files") fs)
    else if is_type (codes "file") fs
    then text_of (get_field (codes "filename") fs)
      ++ field_texts (codes "path") (fields_of (get_field (codes "source") fs))
    else []

-- The paths in the input of a tool that writes files.
unfoldable pub input_paths : Option Fields → List Text
unfolding codes get_field
input_paths input =
    let file = fields_of (field_of (codes "file") input) in
    field_texts (codes "path") input
    ++ (field_texts (codes "filename") input
        ++ (field_texts (codes "filePath") input
            ++ (field_texts (codes "targetPath") input
                ++ (field_texts (codes "path") file
                    ++ (field_texts (codes "filename") file
                        ++ (field_texts (codes "path") (fields_of (field_of (codes "source") file))
                            ++ field_texts (codes "path")
                                (fields_of (field_of (codes "source") input))))))))

module _ (effects : Effects) where
  abbrev pub short : Text → ℕ → Text
  short t bytes = compact effects.redact t bytes

  -- A title that is not blank
  abbrev pub title_of : Option Value → Option Text
  title_of (some (str t)) = if is_empty (single_spaced t) then none else some (short t 180)
  title_of _ = none

  abbrev pub add_status : Text → Text → Fields → List ToolStatus → List ToolStatus
  add_status tool status state statuses =
      if ltb (length statuses) max_tool_statuses
      then statuses
        ++ record {
          tool = short tool 96;
          status = short status 32;
          title = title_of (get_field (codes "title") state);
        }
          ∷ []
      else statuses

  abbrev pub labelled : Text → Text → Text
  labelled tool t = short tool 96 ++ (b':' ∷ b' ' ∷ t)

  abbrev pub add_error : Text → Text → Option Value → List Text → List Text
  add_error tool status (some (str error)) errors =
      if eq_text status (codes "error")
      then push_unique max_errors (labelled tool (short error 360)) errors
      else errors
  add_error tool status _ errors = errors

  abbrev pub evidence_detail : Option Value → Text
  evidence_detail (some (str output)) = tool_evidence effects.redact effects.sha256 output
  evidence_detail _ = codes "completed"

  abbrev pub add_evidence : Text → Text → Option Value → List Text → List Text
  add_evidence tool status output evidence =
      if eq_text status (codes "completed")
      then push_unique max_evidence (labelled tool (evidence_detail output)) evidence
      else evidence

  -- The call of a tool, with the state that it is in.
  unfoldable pub collect_tool : Text → Text → Fields → Collected → Collected
  unfolding codes get_field compact push_unique tool_evidence add_bounded_path input_paths
  collect_tool tool status state c =
      let input = fields_of (get_field (codes "input") state) in
      record c {
        paths =
            if is_writing_tool tool
            then add_all effects.redact (input_paths input) c.paths
            else c.paths;
        tool_statuses = add_status tool status state c.tool_statuses;
        errors = add_error tool status (get_field (codes "error") state) c.errors;
        evidence = add_evidence tool status (get_field (codes "output") state) c.evidence;
      }

  abbrev pub collect_state : Option Text → Option Fields → Option Text → Collected → Collected
  collect_state (some tool) (some state) (some status) c = collect_tool tool status state c
  collect_state _ _ _ c = c

  -- One part of the history
  unfoldable pub collect_part : Fields → Collected → Collected
  unfolding codes get_field as_text part_paths collect_tool add_bounded_path
  collect_part fs c =
      let state = fields_of (get_field (codes "state") fs) in
      let with_paths = record c { paths = add_all effects.redact (part_paths fs) c.paths } in
      if is_type (codes "tool") fs
      then collect_state (as_text (get_field (codes "tool") fs)) state
          (as_text (field_of (codes "status") state)) with_paths
      else with_paths

  unfoldable pub collect_parts : List Fields → Collected → Collected
  unfolding collect_part
  collect_parts [] c = c
  collect_parts (fs ∷ rest) c = collect_parts rest (collect_part fs c)
