-- ===== src/Options/Filled.antt =====
-- src/options.ts: where resolved options come from (`resolveOptions`).
use opencode_better_compact.Base.{
  ◌≡◌, refl, sym, ap, subst, ℕ, false, Option, none, some, ◌↔◌, ◌∙◌, codes,
}
use opencode_better_compact.Base.Value.{Number, int}
use opencode_better_compact.Base.Verdict.{passed}
use opencode_better_compact.Options.{
  json, off, PluginOptions, ParsedOptions, ExistingOptions, value_or, counted, fill_options,
  resolve_options,
}
use opencode_better_compact.Options.Sound.{IsChecked, resolve_options_eq}

-- The value is the plugin's own option, or the host's where there is none, or else the default.
pub data Prefers {ℓ} {A : Type ℓ} (own host : Option A) (default value : A) : Type ℓ where
  own_option : own ≡ some value → Prefers own host default value
  host_option : own ≡ none → host ≡ some value → Prefers own host default value
  by_default : own ≡ none → host ≡ none → default ≡ value → Prefers own host default value

-- An option of the plugin as a number
abbrev pub whole : Option ℕ → Option Number
whole none = none
whole (some n) = some (int false n)

pub record IsFilled (options : ParsedOptions) (existing : ExistingOptions) (r : PluginOptions)
    : Type 0 where
  pub model : Prefers options.model existing.model (codes "selected") r.model
  pub vcc_mode : Prefers options.vcc_mode none off r.vcc_mode
  pub response_mode : Prefers options.response_mode none json r.response_mode
  pub semantic_checkpoints : Prefers options.semantic_checkpoints none false r.semantic_checkpoints
  pub max_semantic_source_bytes :
      Prefers options.max_semantic_source_bytes none 262144 r.max_semantic_source_bytes
  pub tail_turns : Prefers (whole options.tail_turns) existing.tail_turns (int false 4) r.tail_turns
  pub preserve_recent_tokens :
      Prefers
        (whole options.preserve_recent_tokens)
        existing.preserve_recent_tokens
        (int false 16000)
        r.preserve_recent_tokens
  pub reserved_tokens :
      Prefers
        (whole options.reserved_tokens)
        existing.reserved_tokens
        (int false 32000)
        r.reserved_tokens
  pub max_output_tokens : Prefers options.max_output_tokens none 16384 r.max_output_tokens
  pub max_user_text_bytes : Prefers options.max_user_text_bytes none 524288 r.max_user_text_bytes
  pub max_inline_data_bytes :
      Prefers options.max_inline_data_bytes none 10485760 r.max_inline_data_bytes
  pub max_historical_part_bytes :
      Prefers options.max_historical_part_bytes none 131072 r.max_historical_part_bytes
  pub max_ledger_bytes : Prefers options.max_ledger_bytes none 12288 r.max_ledger_bytes
  pub max_summary_bytes : Prefers options.max_summary_bytes none 49152 r.max_summary_bytes

value_or-Prefers {ℓ} :
    {A : Type ℓ} (own host : Option A) (default : A)
    → Prefers own host default (value_or own (value_or host default))
value_or-Prefers none none default = by_default refl refl refl
value_or-Prefers none (some b) default = host_option refl refl
value_or-Prefers (some a) host default = own_option refl

Prefers-eq {ℓ} :
    {A : Type ℓ} (own host : Option A) (default value : A)
    → Prefers own host default value
    → value_or own (value_or host default) ≡ value
Prefers-eq own host default value (own_option h) = rw h
Prefers-eq own host default value (host_option h k) = rw (h, k)
Prefers-eq own host default value (by_default h k e) = rw (h, k) e

counted-whole : (o : Option ℕ) → counted o ≡ whole o
counted-whole none = refl
counted-whole (some n) = refl

counted-Prefers :
    (own : Option ℕ) (host : Option Number) (default : Number)
    → Prefers (whole own) host default (value_or (counted own) (value_or host default))
counted-Prefers own host default =
    subst (λ o. Prefers o host default (value_or (counted own) (value_or host default)))
      (counted-whole own) (value_or-Prefers (counted own) host default)

counted-eq :
    (own : Option ℕ) (host : Option Number) (default value : Number)
    → Prefers (whole own) host default value
    → value_or (counted own) (value_or host default) ≡ value
counted-eq own host default value h =
    ap (λ o. value_or o (value_or host default)) (counted-whole own)
    ∙ Prefers-eq (whole own) host default value h

fill_options-IsFilled :
    (options : ParsedOptions) (existing : ExistingOptions)
    → IsFilled options existing (fill_options options existing)
unfolding fill_options
fill_options-IsFilled options existing = record {
  model = value_or-Prefers options.model existing.model (codes "selected");
  vcc_mode = value_or-Prefers options.vcc_mode none off;
  response_mode = value_or-Prefers options.response_mode none json;
  semantic_checkpoints = value_or-Prefers options.semantic_checkpoints none false;
  max_semantic_source_bytes = value_or-Prefers options.max_semantic_source_bytes none 262144;
  tail_turns = counted-Prefers options.tail_turns existing.tail_turns (int false 4);
  preserve_recent_tokens =
      counted-Prefers options.preserve_recent_tokens existing.preserve_recent_tokens
        (int false 16000);
  reserved_tokens =
      counted-Prefers options.reserved_tokens existing.reserved_tokens (int false 32000);
  max_output_tokens = value_or-Prefers options.max_output_tokens none 16384;
  max_user_text_bytes = value_or-Prefers options.max_user_text_bytes none 524288;
  max_inline_data_bytes = value_or-Prefers options.max_inline_data_bytes none 10485760;
  max_historical_part_bytes = value_or-Prefers options.max_historical_part_bytes none 131072;
  max_ledger_bytes = value_or-Prefers options.max_ledger_bytes none 12288;
  max_summary_bytes = value_or-Prefers options.max_summary_bytes none 49152;
}

fill_options-eq :
    (options : ParsedOptions) (existing : ExistingOptions) (r : PluginOptions)
    → IsFilled options existing r
    → fill_options options existing ≡ r
unfolding fill_options
fill_options-eq options existing r h = λ i. record {
  model = Prefers-eq options.model existing.model (codes "selected") r.model h.model i;
  vcc_mode = Prefers-eq options.vcc_mode none off r.vcc_mode h.vcc_mode i;
  response_mode = Prefers-eq options.response_mode none json r.response_mode h.response_mode i;
  semantic_checkpoints =
      Prefers-eq options.semantic_checkpoints none false r.semantic_checkpoints
        h.semantic_checkpoints i;
  max_semantic_source_bytes =
      Prefers-eq options.max_semantic_source_bytes none 262144 r.max_semantic_source_bytes
        h.max_semantic_source_bytes i;
  tail_turns =
      counted-eq options.tail_turns existing.tail_turns (int false 4) r.tail_turns h.tail_turns i;
  preserve_recent_tokens =
      counted-eq options.preserve_recent_tokens existing.preserve_recent_tokens (int false 16000)
        r.preserve_recent_tokens h.preserve_recent_tokens i;
  reserved_tokens =
      counted-eq options.reserved_tokens existing.reserved_tokens (int false 32000)
        r.reserved_tokens h.reserved_tokens i;
  max_output_tokens =
      Prefers-eq options.max_output_tokens none 16384 r.max_output_tokens h.max_output_tokens i;
  max_user_text_bytes =
      Prefers-eq options.max_user_text_bytes none 524288 r.max_user_text_bytes h.max_user_text_bytes
        i;
  max_inline_data_bytes =
      Prefers-eq options.max_inline_data_bytes none 10485760 r.max_inline_data_bytes
        h.max_inline_data_bytes i;
  max_historical_part_bytes =
      Prefers-eq options.max_historical_part_bytes none 131072 r.max_historical_part_bytes
        h.max_historical_part_bytes i;
  max_ledger_bytes =
      Prefers-eq options.max_ledger_bytes none 12288 r.max_ledger_bytes h.max_ledger_bytes i;
  max_summary_bytes =
      Prefers-eq options.max_summary_bytes none 49152 r.max_summary_bytes h.max_summary_bytes i;
}

-- Options are resolved to a result exactly where each field of it is the plugin's own option, or else
-- the host's, of those that the host may give, or else the default, and they are within the bounds of
-- the code: turns not above 64, each size at most its maximum (for a summary 2,097,152 bytes), a part
-- of 128 bytes and a ledger of 1,024 at least, a summary of 1,024 more than the ledger and, in JSON, of
-- 6,144 more, and with VCC only JSON without checkpoints. The host's numbers may be negative,
-- fractional or no numbers.
pub resolve_options_iff :
    (options : ParsedOptions) (existing : ExistingOptions) (r : PluginOptions)
    → (resolve_options options existing ≡ passed r) ↔ (IsFilled options existing r × IsChecked r)
resolve_options_iff options existing r =
    let filled = fill_options options existing in
    let by_code = resolve_options_eq options existing r in
    (
      λ e.
          let (same, checked) = by_code.0 e in
          (
            subst (IsFilled options existing) same (fill_options-IsFilled options existing),
            subst IsChecked same checked,
          ),
      λ h.
          let same = fill_options-eq options existing r h.0 in
          by_code.1 (same, subst IsChecked (sym same) h.1),
    )
