-- ===== src/Ledger/BuildTests.antt =====
-- src/ledger.ts: a ledger built from three messages.
use opencode_better_compact.Base.{
  ◌≡◌, refl, ◌≤◌, true, false, none, some, [], ◌∷◌, Text, codes, member, eq_text, includes, ok,
}
use opencode_better_compact.Base.JsMap
use opencode_better_compact.Base.Value.{Value, str, obj, end, field, join}
use opencode_better_compact.Utf8.{utf8_bytes, truncate_utf8, bounded_source}
use opencode_better_compact.Ledger.{RecoveryLedger}
use opencode_better_compact.Ledger.Fit.{fits}
use opencode_better_compact.Ledger.Outcome.{no_data}
use opencode_better_compact.Ledger.Parts.{MessageRecord, user, assistant}
use opencode_better_compact.Ledger.Collect.{Effects}
use opencode_better_compact.Ledger.Messages.{BuildInput, collect_ledger}
use opencode_better_compact.Ledger.Build.{merge_ledger, build_recovery_ledger}
use opencode_better_compact.Ledger.Loop.{IsCollected}
use opencode_better_compact.Ledger.Scan.{collect_ledger-IsCollected}
use opencode_better_compact.Ledger.Bounds.{IsBounded, build_recovery_ledger-IsBounded}

abbrev of_text : Text → Text
of_text t = codes "d1"

abbrev plain : Effects
plain = record { redact = λ t. t; sha256 = of_text; to_string = λ v. codes "value" }

abbrev text_part : Text → Value
text_part t = obj (field (codes "type") (str (codes "text")) (field (codes "text") (str t) end))

abbrev failed_edit : Value
failed_edit = obj (
    field (codes "type") (str (codes "tool")) (
      field (codes "tool") (str (codes "Edit")) (
        field (codes "state")
          (obj (
            field (codes "status") (str (codes "error")) (
              field (codes "error") (str (codes "no such file")) (
                field (codes "input") (obj (field (codes "path") (str (codes "src/a.ts/")) end))
                  end))))
          end)))

abbrev ask : MessageRecord
ask = record {
  id = codes "m1";
  role = user;
  is_summary = false;
  failure = none;
  parent_id = none;
  parts = text_part (codes "Fix it.  You MUST keep\ntests.") ∷ [];
}

abbrev answer : MessageRecord
answer = record {
  id = codes "m2";
  role = assistant;
  is_summary = false;
  failure = none;
  parent_id = some (codes "m1");
  parts = failed_edit ∷ [];
}

abbrev summary : MessageRecord
summary = record {
  id = codes "m3";
  role = assistant;
  is_summary = true;
  failure = none;
  parent_id = none;
  parts = [];
}

abbrev three_messages : BuildInput
three_messages = record {
  messages = ask ∷ answer ∷ summary ∷ [];
  todos = obj (field (codes "content") (str (codes "run them")) end) ∷ [];
  tail_turns = 2;
  max_bytes = 380;
  exclude_summary_id = none;
  prior_summary = none;
}

request_collected :
    (collect_ledger plain three_messages).requests ≡ codes "Fix it. You MUST keep tests." ∷ []
unfolding collect_ledger codes join utf8_bytes member eq_text truncate_utf8 bounded_source includes
request_collected = refl

constraint_collected :
    (collect_ledger plain three_messages).constraints ≡ codes "You MUST keep" ∷ []
unfolding collect_ledger codes join utf8_bytes member eq_text truncate_utf8 bounded_source includes
constraint_collected = refl

path_collected : (collect_ledger plain three_messages).paths ≡ codes "src/a.ts" ∷ []
unfolding collect_ledger codes join utf8_bytes member eq_text truncate_utf8 bounded_source includes
path_collected = refl

error_collected : (collect_ledger plain three_messages).errors ≡ codes "Edit: no such file" ∷ []
unfolding collect_ledger codes join utf8_bytes member eq_text truncate_utf8 bounded_source includes
error_collected = refl

summary_collected :
    (collect_ledger plain three_messages).legacy ≡ codes "Untrusted legacy summary m3 omitted" ∷ []
unfolding collect_ledger codes join utf8_bytes member eq_text truncate_utf8 bounded_source includes
summary_collected = refl

action_merged :
    (merge_ledger plain three_messages (collect_ledger plain three_messages)).next_actions
    ≡ codes "run them" ∷ []
unfolding merge_ledger collect_ledger codes join utf8_bytes member eq_text truncate_utf8
    bounded_source includes JsMap.set
action_merged = refl

bound_on_bytes : fits of_text 380 no_data ≡ true
unfolding fits codes join utf8_bytes
bound_on_bytes = refl

build_recovery_ledger-IsBounded_example :
    (ledger : RecoveryLedger) × (build_recovery_ledger plain three_messages ≡ ok ledger)
    × (utf8_bytes ledger.block ≤ 380)
    × IsBounded 2 ledger.contents
build_recovery_ledger-IsBounded_example =
    build_recovery_ledger-IsBounded plain three_messages bound_on_bytes

collect_ledger-IsCollected_example : IsCollected 2 (collect_ledger plain three_messages)
collect_ledger-IsCollected_example = collect_ledger-IsCollected plain three_messages
