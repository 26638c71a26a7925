-- ===== src/Ledger/Build.antt =====
-- src/ledger.ts: what was collected is joined with an earlier ledger (`buildRecoveryLedger`).
use Prim.Native.Nat.{Ordering}
use opencode_better_compact.Base.{
  ℕ, ◌-◌, Bool, not, ◌&&◌, Option, none, some, List, [], ◌∷◌, ◌++◌, length, take, drop, keep, map,
  min, leb, ◌==◌, Text, codes, eq_text, member, is_empty, starts_with, Result, if◌then◌else◌,
}
use opencode_better_compact.Base.JsMap
use opencode_better_compact.Base.Sort.{sort, or_then}
use opencode_better_compact.Base.Value.{Value, str, Fields, get_field, join}
use opencode_better_compact.Utf8.{bounded_source}
use opencode_better_compact.Vcc.Order.{compare_points, unique}
use opencode_better_compact.Vcc.Serialize.{quote}
use opencode_better_compact.Ledger.{Todo, ToolStatus, RecoveryLedgerData, RecoveryLedger}
use opencode_better_compact.Ledger.Fit.{fit_ledger, removal_order}
use opencode_better_compact.Ledger.Wording.{compact}
use opencode_better_compact.Ledger.Parts.{fields_of, max_touched_paths}
use opencode_better_compact.Ledger.Collect.{
  Effects, Collected, max_constraints, max_tool_statuses, max_errors, max_evidence,
  max_legacy_context,
}
use opencode_better_compact.Ledger.Messages.{
  PriorSummary, BuildInput, max_recent_requests, collect_ledger,
}

abbrev pub max_todos : ℕ
max_todos = 32

abbrev pub todos_scanned : ℕ
todos_scanned = 4096

abbrev pub max_next_actions : ℕ
max_next_actions = 16

-- `values.slice(-limit)` of a limit that is not 0
abbrev pub last {ℓ} : {A : Type ℓ} → ℕ → List A → List A
last limit values = drop (length values - limit) values

abbrev pub compare_todos : Todo → Todo → Ordering
compare_todos a b = or_then (compare_points a.id b.id) (compare_points a.content b.content)

-- `values.pop()` where there are too many
abbrev pub without_last {ℓ} : {A : Type ℓ} → ℕ → List A → List A
without_last limit values =
    if leb (length values) limit then values else take (length values - 1) values

unfoldable pub insert_sorted_bounded : ℕ → Todo → List Todo → List Todo
unfolding sort compare_points
insert_sorted_bounded limit todo todos =
    without_last limit (sort compare_todos (todos ++ todo ∷ []))

unfoldable pub insert_todos : List Todo → List Todo → List Todo
unfolding insert_sorted_bounded
insert_todos [] todos = todos
insert_todos (t ∷ ts) todos = insert_todos ts (insert_sorted_bounded max_todos t todos)

abbrev pub status_members : Option Text → List Text
status_members none = []
status_members (some title) = (quote (codes "title") ++ b':' ∷ quote title) ∷ []

-- `JSON.stringify` of a status
abbrev pub status_json : ToolStatus → Text
status_json s =
    b'{'
    ∷ (join (b',' ∷ []) (
          (quote (codes "tool") ++ b':' ∷ quote s.tool)
          ∷ (quote (codes "status") ++ b':' ∷ quote s.status)
          ∷ status_members s.title)
        ++ b'}' ∷ [])

-- The first statuses of each text, which reads back as that status.
unfoldable pub unique_statuses : List Text → List ToolStatus → List ToolStatus
unfolding codes quote
unique_statuses seen [] = []
unique_statuses seen (s ∷ ss) =
    let later = unique_statuses seen ss in
    let first = s ∷ unique_statuses (status_json s ∷ seen) ss in
    if member (status_json s) seen then later else first

abbrev pub is_open : Todo → Bool
is_open t = not (eq_text t.status (codes "completed")) && not (eq_text t.status (codes "cancelled"))

-- The earlier ledger's lists, which are empty where there is none.
abbrev pub prior_list {ℓ} :
    {A : Type ℓ} → (RecoveryLedgerData → List A) → Option PriorSummary → List A
prior_list list none = []
prior_list list (some prior) = list prior.ledger

module _ (effects : Effects) where
  abbrev pub compacted : ℕ → Text → Text
  compacted bytes t = compact effects.redact t bytes

  abbrev pub text_or : Text → ℕ → ℕ → Option Value → Text
  text_or other source bytes (some (str t)) = compacted bytes (bounded_source t source)
  text_or other source bytes _ = other

  abbrev pub todo_id : Option Value → Text → Text
  todo_id value content =
      let id = text_or [] 512 96 value in
      if is_empty id then codes "todo-" ++ take 16 (effects.sha256 content) else id

  abbrev pub todo_of_content : Fields → Text → List Todo
  todo_of_content fs content =
      if is_empty content
      then []
      else record {
        id = todo_id (get_field (codes "id") fs) content;
        status = text_or (codes "unknown") 256 48 (get_field (codes "status") fs);
        priority = text_or (codes "unknown") 256 48 (get_field (codes "priority") fs);
        content = content;
      }
        ∷ []

  abbrev pub todo_of : Option Fields → List Todo
  todo_of none = []
  todo_of (some fs) = todo_of_content fs (text_or [] 2048 360 (get_field (codes "content") fs))

  -- The todos with a content
  unfoldable pub read_todos : List Value → List Todo
  unfolding codes get_field compact
  read_todos [] = []
  read_todos (v ∷ vs) = todo_of (fields_of (some v)) ++ read_todos vs

  abbrev pub compacted_todo : Todo → Todo
  compacted_todo t = record {
    id = compacted 96 t.id;
    status = compacted 48 t.status;
    priority = compacted 48 t.priority;
    content = compacted 360 t.content;
  }

  -- `new Map(todos.map(...))`: the last of an identity, in the place of the first.
  unfoldable pub todos_by_id : List Todo → List (Text × Todo) → List (Text × Todo)
  unfolding compact JsMap.set
  todos_by_id [] m = m
  todos_by_id (t ∷ ts) m = todos_by_id ts (JsMap.set t.id (compacted_todo t) m)

  unfoldable pub merge_todos : List Todo → List Todo → List Todo
  unfolding todos_by_id insert_todos
  merge_todos older newer = insert_todos (JsMap.values (todos_by_id (older ++ newer) [])) []

  unfoldable pub merge_strings : List Text → List Text → ℕ → ℕ → List Text
  unfolding unique compact
  merge_strings older newer limit max_bytes =
      last limit (unique (map (compacted max_bytes) older ++ newer))

  abbrev pub compacted_title : Option Text → Option Text
  compacted_title none = none
  compacted_title (some title) = if is_empty title then none else some (compacted 180 title)

  abbrev pub compacted_status : ToolStatus → ToolStatus
  compacted_status s = record {
    tool = compacted 96 s.tool;
    status = compacted 32 s.status;
    title = compacted_title s.title;
  }

  unfoldable pub merge_statuses : List ToolStatus → List ToolStatus → List ToolStatus
  unfolding unique_statuses compact
  merge_statuses older newer =
      last max_tool_statuses (unique_statuses [] (map compacted_status older ++ newer))

  unfoldable pub next_actions_of : List Todo → List Text → List Text
  unfolding codes starts_with unique compact
  next_actions_of todos older = take max_next_actions (
      unique (
        map (λ t. t.content) (keep is_open todos)
        ++ keep (λ t. not (starts_with t (codes "Continue the newest request:")))
            (map (compacted 360) older)))

  abbrev pub chained : Option PriorSummary → List Text
  chained none = []
  chained (some prior) =
      (codes "Trusted plugin summary " ++ (compacted 96 prior.id ++ codes " ledger chained")) ∷ []

  abbrev pub scan_todos : BuildInput → List Todo
  scan_todos input = insert_todos (read_todos (take todos_scanned input.todos)) []

  -- The data of the ledger, before they are made to fit.
  unfoldable pub merge_ledger : BuildInput → Collected → RecoveryLedgerData
  unfolding codes sort compare_points read_todos merge_todos merge_strings merge_statuses
      next_actions_of compact
  merge_ledger input c =
      let prior = input.prior_summary in
      let merged = merge_todos (prior_list (λ d. d.todos) prior) (scan_todos input) in
      record {
        recent_requests =
            if input.tail_turns == 0
            then []
            else merge_strings (prior_list (λ d. d.recent_requests) prior) c.requests
                (min input.tail_turns max_recent_requests) 640;
        constraints =
            merge_strings (prior_list (λ d. d.constraints) prior) c.constraints max_constraints 360;
        todos = merged;
        touched_paths =
            sort compare_points (
              merge_strings (prior_list (λ d. d.touched_paths) prior) c.paths max_touched_paths
                512);
        tool_statuses = merge_statuses (prior_list (λ d. d.tool_statuses) prior) c.tool_statuses;
        errors = merge_strings (prior_list (λ d. d.errors) prior) c.errors max_errors 360;
        evidence = merge_strings (prior_list (λ d. d.evidence) prior) c.evidence max_evidence 420;
        next_actions = next_actions_of merged (prior_list (λ d. d.next_actions) prior);
        legacy_context =
            merge_strings (prior_list (λ d. d.legacy_context) prior) (c.legacy ++ chained prior)
              max_legacy_context 180;
      }

  -- `buildRecoveryLedger`
  unfoldable pub build_recovery_ledger : BuildInput → Result RecoveryLedger
  unfolding collect_ledger merge_ledger
  build_recovery_ledger input =
      fit_ledger effects.sha256 input.max_bytes (merge_ledger input (collect_ledger effects input))
        removal_order
