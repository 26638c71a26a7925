-- ===== src/Ledger/Bounds.antt =====
-- src/ledger.ts: how much a built ledger holds (`LEDGER_LIMITS`, `buildRecoveryLedger`).
use opencode_better_compact.Base.{
  distinct, ◌≡◌, refl, sym, ap, ◌∙◌, subst, ℕ, suc, ◌-◌, ◌≤◌, true, List, [], ◌∷◌, ◌++◌, length,
  take, map, min, leb→le, ◌==◌, length-take, length-drop, length-append, arith, Text, ok,
  if◌then◌else◌,
}
use opencode_better_compact.Base.JsMap
use opencode_better_compact.Base.Sort.{Perm, nil, skip, swap, trans, sort, sort-Perm}
use opencode_better_compact.Utf8.{utf8_bytes}
use opencode_better_compact.Vcc.Order.{compare_points, unique}
use opencode_better_compact.Ledger.{
  Todo, ToolStatus, RecoveryLedgerData, RecoveryLedger, canonical_ledger,
}
use opencode_better_compact.Ledger.Fit
use opencode_better_compact.Ledger.Fit.{fits, fit_ledger, removal_order}
use opencode_better_compact.Ledger.Part.{IsPart, IsTail}
use opencode_better_compact.Ledger.Outcome.{no_data, fit_ledger-IsFitted}
use opencode_better_compact.Ledger.Kept.{Kept}
use opencode_better_compact.Ledger.Loop.{chosen}
use opencode_better_compact.Vcc.Order.Distinct.{distinct-unique, Perm-distinct}
use opencode_better_compact.Ledger.Distinct.{Kept-drop, Kept-take, Kept-tail, Kept-start}
use opencode_better_compact.Ledger.Parts.{max_touched_paths}
use opencode_better_compact.Ledger.Collect.{
  Effects, Collected, max_constraints, max_tool_statuses, max_errors, max_evidence,
  max_legacy_context,
}
use opencode_better_compact.Ledger.Messages.{BuildInput, max_recent_requests, collect_ledger}
use opencode_better_compact.Ledger.Build.{
  compacted, max_todos, max_next_actions, last, without_last, compare_todos, insert_sorted_bounded,
  insert_todos, prior_list, scan_todos, chained, todos_by_id, unique_statuses, compacted_status,
  merge_todos, merge_strings, merge_statuses, next_actions_of, merge_ledger, build_recovery_ledger,
}

-- Every list of the data is within its limit, and the requests within the turns that are kept, too;
-- no text is in a list of texts twice.
pub record IsBounded (tail_turns : ℕ) (d : RecoveryLedgerData) : Type 0 where
  pub requests : Kept (min tail_turns max_recent_requests) d.recent_requests
  pub constraints : Kept max_constraints d.constraints
  pub todos : length d.todos ≤ max_todos
  pub paths : Kept max_touched_paths d.touched_paths
  pub statuses : length d.tool_statuses ≤ max_tool_statuses
  pub errors : Kept max_errors d.errors
  pub evidence : Kept max_evidence d.evidence
  pub actions : Kept max_next_actions d.next_actions
  pub legacy : Kept max_legacy_context d.legacy_context

last-le {ℓ} : {A : Type ℓ} (limit : ℕ) (xs : List A) → length (last limit xs) ≤ limit
last-le limit xs = omega (arith, length-drop (length xs - limit) xs)

Perm-length {ℓ} : {A : Type ℓ} {xs ys : List A} → Perm xs ys → length xs ≡ length ys
Perm-length nil = refl
Perm-length (skip x p) = omega (arith, Perm-length p)
Perm-length (swap x y xs) = refl
Perm-length (trans p q) = Perm-length p ∙ Perm-length q

length-take-le {ℓ} : {A : Type ℓ} (limit : ℕ) (xs : List A) → length (take limit xs) ≤ limit
length-take-le limit xs = omega (arith, length-take limit xs)

without_last-le {ℓ} :
    {A : Type ℓ} (limit : ℕ) (xs : List A)
    → length xs ≤ suc limit
    → length (without_last limit xs) ≤ limit
without_last-le limit xs h =
    let cut = length-take (length xs - 1) xs in ground (arith, cut, leb→le (length xs) limit)

insert_sorted_bounded-le :
    (limit : ℕ) (t : Todo) (ts : List Todo)
    → length ts ≤ limit
    → length (insert_sorted_bounded limit t ts) ≤ limit
unfolding insert_sorted_bounded
insert_sorted_bounded-le limit t ts h =
    let sorted = Perm-length (sort-Perm compare_todos (ts ++ t ∷ [])) in
    without_last-le limit (sort compare_todos (ts ++ t ∷ []))
      (omega (arith, sorted, length-append ts (t ∷ [])))

insert_todos-le :
    (ts kept : List Todo) → length kept ≤ max_todos → length (insert_todos ts kept) ≤ max_todos
unfolding insert_todos
insert_todos-le [] kept h = h
insert_todos-le (t ∷ ts) kept h =
    insert_todos-le ts (insert_sorted_bounded max_todos t kept)
      (insert_sorted_bounded-le max_todos t kept h)

nil_distinct : distinct [] ≡ true
unfolding distinct
nil_distinct = refl

module _ (effects : Effects) where
  merge_strings-Kept :
      (older newer : List Text) (limit bytes : ℕ)
      → Kept limit (merge_strings effects older newer limit bytes)
  unfolding merge_strings
  merge_strings-Kept older newer limit bytes =
      let merged = unique (map (compacted effects bytes) older ++ newer) in
      Kept-drop limit (length merged - limit) merged (last-le limit merged) (distinct-unique _)

  merge_statuses-le :
      (older newer : List ToolStatus)
      → length (merge_statuses effects older newer) ≤ max_tool_statuses
  unfolding merge_statuses
  merge_statuses-le older newer =
      last-le max_tool_statuses (unique_statuses [] (map (compacted_status effects) older ++ newer))

  merge_todos-le : (older newer : List Todo) → length (merge_todos effects older newer) ≤ max_todos
  unfolding merge_todos
  merge_todos-le older newer =
      insert_todos-le (JsMap.values (todos_by_id effects (older ++ newer) [])) [] (omega arith)

  next_actions_of-Kept :
      (todos : List Todo) (older : List Text)
      → Kept max_next_actions (next_actions_of effects todos older)
  unfolding next_actions_of
  next_actions_of-Kept todos older = Kept-take max_next_actions _ (distinct-unique _)

  sorted-Kept : (limit : ℕ) (xs : List Text) → Kept limit xs → Kept limit (sort compare_points xs)
  sorted-Kept limit xs (h, d) = (
    omega (arith, Perm-length (sort-Perm compare_points xs), h),
    Perm-distinct (sort-Perm compare_points xs) ∙ d,
  )

  requests-Kept :
      (turns : ℕ) (xs : List Text) (limit : ℕ)
      → Kept limit xs
      → Kept limit (if turns == 0 then [] else xs)
  requests-Kept turns xs limit k = chosen (Kept limit) (turns == 0) (omega arith, nil_distinct) k

  merge_ledger-IsBounded :
      (input : BuildInput) (c : Collected)
      → IsBounded input.tail_turns (merge_ledger effects input c)
  unfolding merge_ledger
  merge_ledger-IsBounded input c =
      let prior = input.prior_summary in
      let paths =
        merge_strings effects (prior_list (λ d. d.touched_paths) prior) c.paths max_touched_paths
          512 in
      record {
        requests = requests-Kept input.tail_turns _ _ (merge_strings-Kept _ c.requests _ 640);
        constraints = merge_strings-Kept _ c.constraints max_constraints 360;
        todos = merge_todos-le (prior_list (λ d. d.todos) prior) (scan_todos effects input);
        paths =
            sorted-Kept max_touched_paths paths
              (merge_strings-Kept _ c.paths max_touched_paths 512);
        statuses = merge_statuses-le _ c.tool_statuses;
        errors = merge_strings-Kept _ c.errors max_errors 360;
        evidence = merge_strings-Kept _ c.evidence max_evidence 420;
        actions = next_actions_of-Kept _ _;
        legacy =
            merge_strings-Kept (prior_list (λ d. d.legacy_context) prior)
              (c.legacy ++ chained effects prior) max_legacy_context 180;
      }

tail-le {ℓ} :
    {A : Type ℓ} (limit : ℕ) {xs ys : List A} → IsTail xs ys → length ys ≤ limit → length xs ≤ limit
tail-le limit {xs = xs} {ys = ys} (n, e) h = omega (arith, ap length e, length-drop n ys)

IsBounded-part :
    (turns : ℕ) {kept d : RecoveryLedgerData}
    → IsPart kept d
    → IsBounded turns d
    → IsBounded turns kept
IsBounded-part turns part b = record {
  requests = Kept-tail (min turns max_recent_requests) (part Fit.recent_requests) b.requests;
  constraints = Kept-tail max_constraints (part Fit.constraints) b.constraints;
  todos = tail-le max_todos (part Fit.todos) b.todos;
  paths = Kept-tail max_touched_paths (part Fit.touched_paths) b.paths;
  statuses = tail-le max_tool_statuses (part Fit.tool_statuses) b.statuses;
  errors = Kept-tail max_errors (part Fit.errors) b.errors;
  evidence = Kept-tail max_evidence (part Fit.evidence) b.evidence;
  actions = Kept-start max_next_actions (part Fit.next_actions) b.actions;
  legacy = Kept-tail max_legacy_context (part Fit.legacy_context) b.legacy;
}

canonical_contents :
    (sha256 : Text → Text) (d : RecoveryLedgerData) → (canonical_ledger sha256 d).contents ≡ d
unfolding canonical_ledger
canonical_contents sha256 d = refl

-- Where the ledger without values is within the bound on bytes, a ledger is built: it is within that
-- bound, each of its lists is within its limit and the requests are within the turns that are kept,
-- and no list of texts has one twice, whatever the messages, the todos and an earlier ledger hold.
pub build_recovery_ledger-IsBounded :
    (effects : Effects) (input : BuildInput)
    → fits effects.sha256 input.max_bytes no_data ≡ true
    → (ledger : RecoveryLedger) × (build_recovery_ledger effects input ≡ ok ledger)
      × (utf8_bytes ledger.block ≤ input.max_bytes)
      × IsBounded input.tail_turns ledger.contents
unfolding build_recovery_ledger
build_recovery_ledger-IsBounded effects input h =
    let c = collect_ledger effects input in
    let (ledger, built, fitted) =
      fit_ledger-IsFitted effects.sha256 input.max_bytes (merge_ledger effects input c) h in
    let kept_bounded =
      IsBounded-part input.tail_turns fitted.part (merge_ledger-IsBounded effects input c) in
    let same =
      sym (canonical_contents effects.sha256 fitted.kept) ∙ ap (λ l. l.contents) fitted.canonical in
    (ledger, built, fitted.within, subst (IsBounded input.tail_turns) same kept_bounded)
