-- ===== src/Options/Positive.antt =====
-- src/options.ts: the sizes of options that are read and then resolved (`parseOptions`).
use opencode_better_compact.Base.{
  ◌≡◌, refl, subst, ℕ, ◌≤◌, Bool, true, false, ◌&&◌, ◌==◌, Option, none, some, arith, Text, codes,
  is_empty, if◌then◌else◌,
}
use opencode_better_compact.Base.Value.{Value, Fields, get_field, safe_natural}
use opencode_better_compact.Base.Verdict.{because, passed, test, >>=-eq-passed, passed_inj}
use opencode_better_compact.Options.{
  PluginOptions, ParsedOptions, ExistingOptions, value_or, fill_options, resolve_options,
}
use opencode_better_compact.Options.Parse.{
  no_count, read_count, read_model, read_response_mode, read_vcc_mode, read_flag, positive_at,
  unknown_keys, parse_options,
}
use opencode_better_compact.Options.Sound.{IsChecked, resolve_options_eq}

-- A count that is there is not 0.
abbrev pub Positive : Option ℕ → Type 0
Positive none = Unit
Positive (some n) = 1 ≤ n

read_count-Positive :
    (key : Text) (v : Option Value) (n : Option ℕ) → read_count false key v ≡ passed n → Positive n
unfolding read_count
read_count-Positive key none n h = subst Positive (passed_inj h) tt
read_count-Positive key (some v) n h = by_value (safe_natural (some v)) h
  where
    by_test :
        (k : ℕ) (b : Bool)
        → (k == 0) ≡ b
        → (if b && true then because (no_count key false) else passed (some k)) ≡ passed n
        → Positive n
    by_test k true same e = cc
    by_test k false same e = subst Positive (passed_inj e) (ground arith)

    by_value :
        (o : Option ℕ)
        → (elim o [
          | none ↦ because (no_count key false)
          | some k ↦ if k == 0 && true then because (no_count key false) else passed (some k)
        ])
          ≡ passed n
        → Positive n
    by_value none e = cc
    by_value (some k) e = by_test k (k == 0) refl e

-- The sizes that are read are positive.
record IsRead (input : Fields) (p : ParsedOptions) : Type 0 where
  source : Positive p.max_semantic_source_bytes
  preserved : Positive p.preserve_recent_tokens
  reserved : Positive p.reserved_tokens
  output : Positive p.max_output_tokens
  text : Positive p.max_user_text_bytes
  inline : Positive p.max_inline_data_bytes

parse_options-IsRead :
    (input : Fields) (p : ParsedOptions) → parse_options input ≡ passed p → IsRead input p
unfolding parse_options
parse_options-IsRead input p h0 =
    let (_, known, h1) = >>=-eq-passed (test (is_empty (unknown_keys input)) _) h0 in
    let (model, _, h2) = >>=-eq-passed (read_model (get_field (codes "model") input)) h1 in
    let (response, _, h3) =
      >>=-eq-passed (read_response_mode (get_field (codes "response_mode") input)) h2 in
    let (vcc, _, h4) = >>=-eq-passed (read_vcc_mode (get_field (codes "vcc_mode") input)) h3 in
    let (checkpoints, _, h5) =
      >>=-eq-passed (read_flag (get_field (codes "semantic_checkpoints") input)) h4 in
    let (source, source_eq, h6) =
      >>=-eq-passed (positive_at input (codes "max_semantic_source_bytes")) h5 in
    let (turns, _, h7) =
      >>=-eq-passed (read_count true (codes "tail_turns") (get_field (codes "tail_turns") input))
        h6 in
    let (preserved, preserved_eq, h8) =
      >>=-eq-passed (positive_at input (codes "preserve_recent_tokens")) h7 in
    let (reserved, reserved_eq, h9) =
      >>=-eq-passed (positive_at input (codes "reserved_tokens")) h8 in
    let (output, output_eq, h10) =
      >>=-eq-passed (positive_at input (codes "max_output_tokens")) h9 in
    let (text, text_eq, h11) =
      >>=-eq-passed (positive_at input (codes "max_user_text_bytes")) h10 in
    let (inline, inline_eq, h12) =
      >>=-eq-passed (positive_at input (codes "max_inline_data_bytes")) h11 in
    let (part, _, h13) =
      >>=-eq-passed (positive_at input (codes "max_historical_part_bytes")) h12 in
    let (ledger, _, h14) = >>=-eq-passed (positive_at input (codes "max_ledger_bytes")) h13 in
    let (summary, _, h15) = >>=-eq-passed (positive_at input (codes "max_summary_bytes")) h14 in
    subst (IsRead input) (passed_inj h15) (record {
      source =
          read_count-Positive (codes "max_semantic_source_bytes")
            (get_field (codes "max_semantic_source_bytes") input) source source_eq;
      preserved =
          read_count-Positive (codes "preserve_recent_tokens")
            (get_field (codes "preserve_recent_tokens") input) preserved preserved_eq;
      reserved =
          read_count-Positive (codes "reserved_tokens") (get_field (codes "reserved_tokens") input)
            reserved reserved_eq;
      output =
          read_count-Positive (codes "max_output_tokens")
            (get_field (codes "max_output_tokens") input) output output_eq;
      text =
          read_count-Positive (codes "max_user_text_bytes")
            (get_field (codes "max_user_text_bytes") input) text text_eq;
      inline =
          read_count-Positive (codes "max_inline_data_bytes")
            (get_field (codes "max_inline_data_bytes") input) inline inline_eq;
    })

filled_positive : (o : Option ℕ) (other : ℕ) → Positive o → 1 ≤ other → 1 ≤ value_or o other
filled_positive none other h k = k
filled_positive (some n) other h k = h

-- The sizes that bound the work before a request are not 0.
pub record HasSizes (r : PluginOptions) : Type 0 where
  pub source : 1 ≤ r.max_semantic_source_bytes
  pub output : 1 ≤ r.max_output_tokens
  pub text : 1 ≤ r.max_user_text_bytes
  pub inline : 1 ≤ r.max_inline_data_bytes

fill_options-HasSizes :
    (input : Fields) (existing : ExistingOptions) (p : ParsedOptions)
    → IsRead input p
    → HasSizes (fill_options p existing)
unfolding fill_options
fill_options-HasSizes input existing p i = record {
  source = filled_positive p.max_semantic_source_bytes 262144 i.source (omega arith);
  output = filled_positive p.max_output_tokens 16384 i.output (omega arith);
  text = filled_positive p.max_user_text_bytes 524288 i.text (omega arith);
  inline = filled_positive p.max_inline_data_bytes 10485760 i.inline (omega arith);
}

-- Options that are read and then resolved are within the bounds of the code, and the sizes of the
-- semantic source, the output, the user's text and the inline data are at least 1, whatever the value
-- that they are read from and the host's options, whose numbers may be of any kind.
pub parse_options-IsBounded :
    (input : Fields) (existing : ExistingOptions) (p : ParsedOptions) (r : PluginOptions)
    → parse_options input ≡ passed p
    → resolve_options p existing ≡ passed r
    → IsChecked r × HasSizes r
parse_options-IsBounded input existing p r h k =
    let (same, checked) = (resolve_options_eq p existing r).0 k in
    subst (λ s. IsChecked s × HasSizes s) same
      (checked, fill_options-HasSizes input existing p (parse_options-IsRead input p h))
