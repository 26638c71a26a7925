-- ===== src/Options/Tests.antt =====
-- src/options.ts: options read and resolved.
use opencode_better_compact.Base.{◌≡◌, refl, true, false, none, some, ◌↔◌, codes, member, eq_text}
use opencode_better_compact.Base.Value.{str, num, int, other, Fields, end, field, keys}
use opencode_better_compact.Base.Verdict.{passed}
use opencode_better_compact.Options.{
  offline, ParsedOptions, ExistingOptions, fill_options, resolve_options,
}
use opencode_better_compact.Options.Parse.{parse_options}
use opencode_better_compact.Options.Positive.{HasSizes, parse_options-IsBounded}
use opencode_better_compact.Options.Sound.{IsChecked}
use opencode_better_compact.Options.Filled.{IsFilled, resolve_options_iff}

abbrev given : Fields
given =
    field (codes "vcc_mode") (str (codes "offline"))
      (field (codes "tail_turns") (num (int false 0)) end)

abbrev parsed : ParsedOptions
parsed = record {
  model = none;
  vcc_mode = some offline;
  response_mode = none;
  semantic_checkpoints = none;
  max_semantic_source_bytes = none;
  tail_turns = some 0;
  preserve_recent_tokens = none;
  reserved_tokens = none;
  max_output_tokens = none;
  max_user_text_bytes = none;
  max_inline_data_bytes = none;
  max_historical_part_bytes = none;
  max_ledger_bytes = none;
  max_summary_bytes = none;
}

given_is_parsed : parse_options given ≡ passed parsed
unfolding parse_options codes member eq_text keys
given_is_parsed = refl

abbrev no_others : ExistingOptions
no_others = record {
  model = some (codes "a/b");
  tail_turns = some (int true 3);
  preserve_recent_tokens = some (other 0x7ff8000000000000);
  reserved_tokens = none;
}

given_is_resolved : resolve_options parsed no_others ≡ passed (fill_options parsed no_others)
unfolding resolve_options fill_options codes
given_is_resolved = refl

resolve_options_iff_example :
    (resolve_options parsed no_others ≡ passed (fill_options parsed no_others)) ↔ (
      IsFilled parsed no_others (fill_options parsed no_others)
      × IsChecked (fill_options parsed no_others))
resolve_options_iff_example = resolve_options_iff parsed no_others (fill_options parsed no_others)

parse_options-IsBounded_example :
    IsChecked (fill_options parsed no_others) × HasSizes (fill_options parsed no_others)
parse_options-IsBounded_example =
    parse_options-IsBounded given no_others parsed (fill_options parsed no_others) given_is_parsed
      given_is_resolved
