-- ===== src/Options.antt =====
-- src/options.ts: the options of the plugin, with the values that fill those left out
-- (`PluginOptions`, `resolveOptions`).
pub mod Parse
pub mod Sound
pub mod Filled
pub mod Positive
mod Tests
use opencode_better_compact.Base.{
  ℕ, ◌+◌, Bool, true, false, not, ◌&&◌, ◌||◌, Option, none, some, List, [], ◌∷◌, ◌++◌, leb, ltb,
  Text, codes, eq_text,
}
use opencode_better_compact.Base.Value.{Number, int, other}
use opencode_better_compact.Base.Verdict.{Verdict, because, passed, test, ◌>>=◌}
use opencode_better_compact.Vcc.Serialize.{digits_from}

pub data ResponseMode : Type 0 where
  json markdown : ResponseMode

pub data VccMode : Type 0 where
  off offline hybrid : VccMode

-- The three numbers that the host may give are of any kind, since the code does not test them.
pub record PluginOptions : Type 0 where
  pub model : Text
  pub vcc_mode : VccMode
  pub response_mode : ResponseMode
  pub semantic_checkpoints : Bool
  pub max_semantic_source_bytes : ℕ
  pub tail_turns : Number
  pub preserve_recent_tokens : Number
  pub reserved_tokens : Number
  pub max_output_tokens : ℕ
  pub max_user_text_bytes : ℕ
  pub max_inline_data_bytes : ℕ
  pub max_historical_part_bytes : ℕ
  pub max_ledger_bytes : ℕ
  pub max_summary_bytes : ℕ

-- `Partial<PluginOptions>`
pub record ParsedOptions : Type 0 where
  pub model : Option Text
  pub vcc_mode : Option VccMode
  pub response_mode : Option ResponseMode
  pub semantic_checkpoints : Option Bool
  pub max_semantic_source_bytes : Option ℕ
  pub tail_turns : Option ℕ
  pub preserve_recent_tokens : Option ℕ
  pub reserved_tokens : Option ℕ
  pub max_output_tokens : Option ℕ
  pub max_user_text_bytes : Option ℕ
  pub max_inline_data_bytes : Option ℕ
  pub max_historical_part_bytes : Option ℕ
  pub max_ledger_bytes : Option ℕ
  pub max_summary_bytes : Option ℕ

pub record ExistingOptions : Type 0 where
  pub model : Option Text
  pub tail_turns : Option Number
  pub preserve_recent_tokens : Option Number
  pub reserved_tokens : Option Number

abbrev pub selected_model : Text
selected_model = codes "selected"

-- `value ?? other`
abbrev pub value_or {ℓ} : {A : Type ℓ} → Option A → A → A
value_or none default = default
value_or (some a) default = a

abbrev pub counted : Option ℕ → Option Number
counted none = none
counted (some n) = some (int false n)

-- The options before they are tested.
unfoldable pub fill_options : ParsedOptions → ExistingOptions → PluginOptions
unfolding codes
fill_options options existing = record {
  model = value_or options.model (value_or existing.model selected_model);
  vcc_mode = value_or options.vcc_mode off;
  response_mode = value_or options.response_mode json;
  semantic_checkpoints = value_or options.semantic_checkpoints false;
  max_semantic_source_bytes = value_or options.max_semantic_source_bytes 262144;
  tail_turns = value_or (counted options.tail_turns) (value_or existing.tail_turns (int false 4));
  preserve_recent_tokens =
      value_or (counted options.preserve_recent_tokens)
        (value_or existing.preserve_recent_tokens (int false 16000));
  reserved_tokens =
      value_or (counted options.reserved_tokens)
        (value_or existing.reserved_tokens (int false 32000));
  max_output_tokens = value_or options.max_output_tokens 16384;
  max_user_text_bytes = value_or options.max_user_text_bytes 524288;
  max_inline_data_bytes = value_or options.max_inline_data_bytes 10485760;
  max_historical_part_bytes = value_or options.max_historical_part_bytes 131072;
  max_ledger_bytes = value_or options.max_ledger_bytes 12288;
  max_summary_bytes = value_or options.max_summary_bytes 49152;
}

abbrev pub is_json : ResponseMode → Bool
is_json json = true
is_json markdown = false

abbrev pub is_off : VccMode → Bool
is_off off = true
is_off _ = false

abbrev pub at_most : Text → ℕ → ℕ → Verdict (Unit {0})
at_most key n bound =
    test (leb n bound)
      (codes "Option \"" ++ (key ++ (codes "\" must not exceed " ++ digits_from 21 bound [])))

-- `value > 64`; a double between the bits of 64 and those of infinity is above it.
abbrev pub is_above_64 : Number → Bool
is_above_64 (int true n) = false
is_above_64 (int false n) = ltb 64 n
is_above_64 (other bits) = ltb 0x4050000000000000 bits && leb bits 0x7ff0000000000000

-- The tests on filled options, in the code's order.
unfoldable pub check_options : PluginOptions → Verdict PluginOptions
unfolding codes digits_from
check_options r = do
  _ ← test (not (is_above_64 r.tail_turns)) (codes "Option \"tail_turns\" must not exceed 64")
  _ ← at_most (codes "max_user_text_bytes") r.max_user_text_bytes 8388608
  _ ← at_most (codes "max_inline_data_bytes") r.max_inline_data_bytes 67108864
  _ ← at_most (codes "max_historical_part_bytes") r.max_historical_part_bytes 1048576
  _ ← at_most (codes "max_ledger_bytes") r.max_ledger_bytes 262144
  _ ← at_most (codes "max_summary_bytes") r.max_summary_bytes 2097152
  _ ← at_most (codes "max_semantic_source_bytes") r.max_semantic_source_bytes 4194304
  _ ←
      test (leb 128 r.max_historical_part_bytes)
        (codes "Option \"max_historical_part_bytes\" must be at least 128 bytes")
  _ ←
      test (leb 1024 r.max_ledger_bytes)
        (codes "Option \"max_ledger_bytes\" must be at least 1024 bytes")
  _ ←
      test (leb (r.max_ledger_bytes + 1024) r.max_summary_bytes) (
        codes
          "Option \"max_summary_bytes\" must exceed \"max_ledger_bytes\" by at least 1024 bytes")
  _ ←
      test
        (not (is_json r.response_mode)
          || leb (r.max_ledger_bytes + 4096 + 2048) r.max_summary_bytes)
        (codes
          "Option \"max_summary_bytes\" must leave at least 2048 bytes for the JSON projection after ledger and rendering overhead")
  _ ←
      test (is_off r.vcc_mode || is_json r.response_mode)
        (codes "Option \"response_mode\" must be \"json\" when vcc_mode is enabled")
  _ ←
      test (is_off r.vcc_mode || not r.semantic_checkpoints)
        (codes "Option \"semantic_checkpoints\" must be false when vcc_mode is enabled")
  passed r

-- `resolveOptions`; a message stands for the TypeError that is thrown.
unfoldable pub resolve_options : ParsedOptions → ExistingOptions → Verdict PluginOptions
unfolding fill_options check_options
resolve_options options existing = check_options (fill_options options existing)
