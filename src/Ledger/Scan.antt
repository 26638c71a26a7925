-- ===== src/Ledger/Scan.antt =====
-- src/ledger.ts: what the loop over the messages leaves (`buildRecoveryLedger`).
use mathlib.Core.List.{reverse-cons}
use opencode_better_compact.Base.{
  ◌≡◌, refl, ◌∙◌, ap, ℕ, ◌-◌, ◌≤◌, true, false, not, ◌&&◌, ◌||◌, List, [], ◌∷◌, ◌++◌, length,
  reverse, take, min, max, ltb, length-append, arith, Text, codes, member, distinct, is_empty,
}
use opencode_better_compact.Ledger.Wording.{compact}
use opencode_better_compact.Ledger.Parts.{
  MessageRecord, records_from, bounded_part_count, compact_user_turn,
}
use opencode_better_compact.Ledger.Collect.{
  Effects, Collected, nothing_yet, max_messages, max_legacy_context, max_constraints,
  max_tool_statuses, max_errors, max_evidence, user_parts_scanned, history_parts_scanned,
  is_user_role, compaction_users, collect_parts,
}
use opencode_better_compact.Ledger.Messages.{
  BuildInput, max_recent_requests, collect_user, collect_history, is_legacy, note_legacy,
  is_compaction_message, request_limit, collect_message, collect_messages, collect_ledger,
}
use opencode_better_compact.Ledger.Kept.{Kept, member_snoc, distinct_snoc}
use opencode_better_compact.Ledger.Loop.{
  IsCollected, chosen, push_le, add_failure-Kept, collect_constraints-Kept,
  collect_parts-IsCollected,
}

length-reverse {ℓ} : {A : Type ℓ} (xs : List A) → length (reverse xs) ≡ length xs
length-reverse [] = refl
length-reverse (x ∷ xs) =
    let last = length-append (reverse xs) (x ∷ []) in
    let cut = ap length (reverse-cons x xs) in omega (arith, length-reverse xs)

member-reverse : (x : Text) (xs : List Text) → member x (reverse xs) ≡ member x xs
unfolding member
member-reverse x [] = refl
member-reverse x (y ∷ ys) =
    ap (member x) (reverse-cons y ys)
    ∙ member_snoc x y (reverse ys)
    ∙ ground (arith, member-reverse x ys)

distinct-reverse : (xs : List Text) → distinct xs ≡ true → distinct (reverse xs) ≡ true
unfolding distinct
distinct-reverse [] h = refl
distinct-reverse (x ∷ xs) h =
    let new : member x xs ≡ false = ground arith in
    ap distinct (reverse-cons x xs)
    ∙ distinct_snoc x (reverse xs) (member-reverse x xs ∙ new) (distinct-reverse xs (ground arith))

none_twice : distinct [] ≡ true
unfolding distinct
none_twice = refl

Kept-reverse : (limit : ℕ) (xs : List Text) → Kept limit xs → Kept limit (reverse xs)
Kept-reverse limit xs (h, d) = (omega (arith, length-reverse xs, h), distinct-reverse xs d)

reverse-le {ℓ} :
    {A : Type ℓ} (limit : ℕ) (xs : List A) → length xs ≤ limit → length (reverse xs) ≤ limit
reverse-le limit xs h = omega (arith, length-reverse xs)

module _ (effects : Effects) where
  module _ (limit : ℕ) where
    collect_user-IsCollected :
        (m : MessageRecord) (c : Collected)
        → IsCollected limit c
        → IsCollected limit (collect_user effects limit m c)
    unfolding collect_user
    collect_user-IsCollected m c i =
        let count = bounded_part_count m.parts in
        let inspect = min count (user_parts_scanned - c.user_scanned) in
        let first = count - inspect in
        chosen (IsCollected limit)
          (is_user_role m.role
            && ltb c.user_scanned user_parts_scanned
            && (ltb (length c.requests) limit || ltb (length c.constraints) max_constraints))
          (record {
            requests =
                push_le limit
                  (not (is_empty (compact_user_turn effects.redact m.parts first inspect 640)))
                  (compact_user_turn effects.redact m.parts first inspect 640) c.requests
                  i.requests;
            constraints =
                collect_constraints-Kept effects (reverse (records_from m.parts first inspect))
                  c.constraints i.constraints;
            paths = i.paths;
            statuses = i.statuses;
            errors = i.errors;
            evidence = i.evidence;
            legacy = i.legacy;
            users = omega (arith, i.users);
            history = i.history;
          })
          i

    collect_history-IsCollected :
        (m : MessageRecord) (c : Collected)
        → IsCollected limit c
        → IsCollected limit (collect_history effects m c)
    unfolding collect_history
    collect_history-IsCollected m c i =
        let count = bounded_part_count m.parts in
        let inspect = min count (history_parts_scanned - c.history_scanned) in
        let fs = reverse (records_from m.parts (count - inspect) inspect) in
        let after = collect_parts-IsCollected effects limit fs c i in
        record {
          requests = after.requests;
          constraints = after.constraints;
          paths = after.paths;
          statuses = after.statuses;
          errors =
              add_failure-Kept effects m.failure (collect_parts effects fs c).errors after.errors;
          evidence = after.evidence;
          legacy = after.legacy;
          users = after.users;
          history = omega (arith, i.history);
        }

  module _ (input : BuildInput) (users : List Text) where
    note_legacy-le :
        (m : MessageRecord) (xs : List Text)
        → length xs ≤ max_legacy_context
        → length (note_legacy effects input users m xs) ≤ max_legacy_context
    note_legacy-le m xs h =
        push_le max_legacy_context (is_legacy effects input users m)
          (codes "Untrusted legacy summary "
            ++ (compact effects.redact m.id 96 ++ codes " omitted"))
          xs h

    collect_message-IsCollected :
        (m : MessageRecord) (c : Collected)
        → IsCollected (request_limit effects input users) c
        → IsCollected (request_limit effects input users) (collect_message effects input users m c)
    unfolding collect_message
    collect_message-IsCollected m c i =
        let limit = request_limit effects input users in
        let noted : IsCollected limit
            (record c { legacy = note_legacy effects input users m c.legacy }) =
          record {
            requests = i.requests;
            constraints = i.constraints;
            paths = i.paths;
            statuses = i.statuses;
            errors = i.errors;
            evidence = i.evidence;
            legacy = note_legacy-le m c.legacy i.legacy;
            users = i.users;
            history = i.history;
          } in
        chosen (IsCollected limit) (is_compaction_message effects input users m) noted
          (collect_history-IsCollected limit m _ (collect_user-IsCollected limit m _ noted))

    collect_messages-IsCollected :
        (ms : List MessageRecord) (c : Collected)
        → IsCollected (request_limit effects input users) c
        → IsCollected
            (request_limit effects input users)
            (collect_messages effects input users ms c)
    unfolding collect_messages
    collect_messages-IsCollected [] c i = i
    collect_messages-IsCollected (m ∷ ms) c i =
        collect_messages-IsCollected ms _ (collect_message-IsCollected m c i)

-- Whatever the messages are, the lists that are collected from them are within their limits, and the
-- requests within the turns that are kept (one at least); no constraint, path, error or piece of
-- evidence is there twice; and the parts of users and of the history that were scanned are at most
-- 8,192 each.
pub collect_ledger-IsCollected :
    (effects : Effects) (input : BuildInput)
    → IsCollected (max 1 (min input.tail_turns max_recent_requests)) (collect_ledger effects input)
unfolding collect_ledger
collect_ledger-IsCollected effects input =
    let newest_first = take max_messages (reverse input.messages) in
    let users = compaction_users 0 newest_first in
    let c = collect_messages effects input users newest_first nothing_yet in
    let i = collect_messages-IsCollected effects input users newest_first nothing_yet empty in
    record {
      requests = reverse-le _ c.requests i.requests;
      constraints = Kept-reverse max_constraints c.constraints i.constraints;
      paths = i.paths;
      statuses = reverse-le max_tool_statuses c.tool_statuses i.statuses;
      errors = Kept-reverse max_errors c.errors i.errors;
      evidence = Kept-reverse max_evidence c.evidence i.evidence;
      legacy = reverse-le max_legacy_context c.legacy i.legacy;
      users = i.users;
      history = i.history;
    }
  where
    empty : IsCollected (max 1 (min input.tail_turns max_recent_requests)) nothing_yet
    empty = record {
      requests = omega arith;
      constraints = (omega arith, none_twice);
      paths = (omega arith, none_twice);
      statuses = omega arith;
      errors = (omega arith, none_twice);
      evidence = (omega arith, none_twice);
      legacy = omega arith;
      users = omega arith;
      history = omega arith;
    }
