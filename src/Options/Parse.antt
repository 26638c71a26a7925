-- ===== src/Options/Parse.antt =====
-- src/options.ts: options read from a value of unknown type (`parseOptions`).
use opencode_better_compact.Base.{
  ℕ, Bool, true, false, not, ◌&&◌, ◌||◌, ◌==◌, Option, none, some, List, [], ◌∷◌, ◌++◌, any, keep,
  is_empty, Text, codes, eq_text, member, if◌then◌else◌,
}
use opencode_better_compact.Base.Sort.{sort}
use opencode_better_compact.Base.Value.{
  Value, bool, str, Fields, keys, get_field, safe_natural, join,
}
use opencode_better_compact.Base.Verdict.{Verdict, because, passed, test, ◌>>=◌}
use opencode_better_compact.Vcc.Order.{compare_points}
use opencode_better_compact.Vcc.Event.Ids.{is_space}
use opencode_better_compact.Options.{
  ResponseMode, json, markdown, VccMode, off, offline, hybrid, ParsedOptions, selected_model,
}

abbrev pub option_keys : List Text
option_keys =
    codes "model"
    ∷ codes "vcc_mode"
    ∷ codes "response_mode"
    ∷ codes "semantic_checkpoints"
    ∷ codes "max_semantic_source_bytes"
    ∷ codes "tail_turns"
    ∷ codes "preserve_recent_tokens"
    ∷ codes "reserved_tokens"
    ∷ codes "max_output_tokens"
    ∷ codes "max_user_text_bytes"
    ∷ codes "max_inline_data_bytes"
    ∷ codes "max_historical_part_bytes"
    ∷ codes "max_ledger_bytes"
    ∷ codes "max_summary_bytes"
    ∷ []

-- `/^[^/\s]+\/[^\s]+$/`, after the units of the provider.
unfoldable pub is_provider_model : Bool → Text → Bool
is_provider_model some_provider [] = false
is_provider_model some_provider (c ∷ s) =
    let longer = is_provider_model true s in
    if c == b'/'
    then some_provider && not (is_empty s) && not (any is_space s)
    else not (is_space c) && longer

abbrev pub no_model : Text
no_model = codes "Option \"model\" must be \"selected\" or use the provider/model format"

unfoldable pub read_model : Option Value → Verdict (Option Text)
unfolding codes eq_text is_provider_model
read_model none = passed none
read_model (some (str t)) =
    if eq_text t selected_model || is_provider_model false t
    then passed (some t)
    else because no_model
read_model (some _) = because no_model

abbrev pub no_response_mode : Text
no_response_mode = codes "Option \"response_mode\" must be one of: json, markdown"

unfoldable pub read_response_mode : Option Value → Verdict (Option ResponseMode)
unfolding codes eq_text
read_response_mode none = passed none
read_response_mode (some (str t)) =
    if eq_text t (codes "json")
    then passed (some json)
    else if eq_text t (codes "markdown")
    then passed (some markdown)
    else because no_response_mode
read_response_mode (some _) = because no_response_mode

abbrev pub no_vcc_mode : Text
no_vcc_mode = codes "Option \"vcc_mode\" must be one of: off, offline, hybrid"

unfoldable pub read_vcc_mode : Option Value → Verdict (Option VccMode)
unfolding codes eq_text
read_vcc_mode none = passed none
read_vcc_mode (some (str t)) =
    if eq_text t (codes "off")
    then passed (some off)
    else if eq_text t (codes "offline")
    then passed (some offline)
    else if eq_text t (codes "hybrid")
    then passed (some hybrid)
    else because no_vcc_mode
read_vcc_mode (some _) = because no_vcc_mode

unfoldable pub read_flag : Option Value → Verdict (Option Bool)
unfolding codes
read_flag none = passed none
read_flag (some (bool b)) = passed (some b)
read_flag (some _) = because (codes "Option \"semantic_checkpoints\" must be boolean")

abbrev pub no_count : Text → Bool → Text
no_count key from_zero =
    codes "Option \""
    ++ (key
        ++ (codes "\" must be a "
            ++ ((if from_zero then codes "non-negative" else codes "positive")
                ++ codes " integer")))

-- A natural number, which may be 0 where the first argument says so.
unfoldable pub read_count : Bool → Text → Option Value → Verdict (Option ℕ)
unfolding codes safe_natural
read_count from_zero key none = passed none
read_count from_zero key (some v) = elim (safe_natural (some v)) [
  | none ↦ because (no_count key from_zero)
  | some n ↦ if n == 0 && not from_zero then because (no_count key from_zero) else passed (some n)
]

module _ (input : Fields) where
  abbrev pub unknown_keys : List Text
  unknown_keys = keep (λ k. not (member k option_keys)) (keys input)

  abbrev pub positive_at : Text → Verdict (Option ℕ)
  positive_at key = read_count false key (get_field key input)

  -- `parseOptions`; a message stands for the TypeError that is thrown.
  unfoldable pub parse_options : Verdict ParsedOptions
  unfolding codes member keys sort compare_points get_field read_model read_response_mode
      read_vcc_mode read_flag read_count
  parse_options = do
    _ ← test (is_empty unknown_keys) (
        codes "Unknown opencode-safe-compaction option: "
        ++ join (b',' ∷ b' ' ∷ []) (sort compare_points unknown_keys))
    model ← read_model (get_field (codes "model") input)
    response_mode ← read_response_mode (get_field (codes "response_mode") input)
    vcc_mode ← read_vcc_mode (get_field (codes "vcc_mode") input)
    semantic_checkpoints ← read_flag (get_field (codes "semantic_checkpoints") input)
    semantic_source ← positive_at (codes "max_semantic_source_bytes")
    tail_turns ← read_count true (codes "tail_turns") (get_field (codes "tail_turns") input)
    preserved ← positive_at (codes "preserve_recent_tokens")
    reserved ← positive_at (codes "reserved_tokens")
    output ← positive_at (codes "max_output_tokens")
    user_text ← positive_at (codes "max_user_text_bytes")
    inline_data ← positive_at (codes "max_inline_data_bytes")
    historical_part ← positive_at (codes "max_historical_part_bytes")
    ledger ← positive_at (codes "max_ledger_bytes")
    summary ← positive_at (codes "max_summary_bytes")
    passed (record {
      model = model;
      vcc_mode = vcc_mode;
      response_mode = response_mode;
      semantic_checkpoints = semantic_checkpoints;
      max_semantic_source_bytes = semantic_source;
      tail_turns = tail_turns;
      preserve_recent_tokens = preserved;
      reserved_tokens = reserved;
      max_output_tokens = output;
      max_user_text_bytes = user_text;
      max_inline_data_bytes = inline_data;
      max_historical_part_bytes = historical_part;
      max_ledger_bytes = ledger;
      max_summary_bytes = summary;
    })
