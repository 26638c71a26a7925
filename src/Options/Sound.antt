-- ===== src/Options/Sound.antt =====
-- src/options.ts: the options that are read and resolved (`parseOptions`, `resolveOptions`).
use opencode_better_compact.Base.{
  ◌≡◌, refl, ◌+◌, ◌≤◌, ◌<◌, ◌⊎◌, inl, inr, Bool, true, false, not, ◌||◌, leb, leb→le, le→leb, ◌↔◌,
  ap, ◌∙◌, arith, Text,
}
use opencode_better_compact.Base.Value.{Number, int, other}
use opencode_better_compact.Base.Verdict.{Verdict, passed, test, ◌>>=◌, passed_inj}
use opencode_better_compact.Options.{
  ResponseMode, json, markdown, VccMode, off, PluginOptions, ParsedOptions, ExistingOptions,
  is_json, is_off, is_above_64, fill_options, check_options, resolve_options,
}

-- Not above 64: a natural number up to it, a negative one, or a double with no greater bits, unless
-- these are above the bits of infinity, where there are the negative doubles and those that are no
-- numbers.
abbrev pub IsAtMost64 : Number → Type 0
IsAtMost64 (int true n) = Unit
IsAtMost64 (int false n) = n ≤ 64
IsAtMost64 (other bits) = (bits ≤ 0x4050000000000000) ⊎ (0x7ff0000000000000 < bits)

above-IsAtMost64 : (n : Number) → not (is_above_64 n) ≡ true → IsAtMost64 n
above-IsAtMost64 (int true n) h = tt
above-IsAtMost64 (int false n) h = ground arith
above-IsAtMost64 (other bits) h = ground arith

IsAtMost64-above : (n : Number) → IsAtMost64 n → not (is_above_64 n) ≡ true
IsAtMost64-above (int true n) h = refl
IsAtMost64-above (int false n) h = ground arith
IsAtMost64-above (other bits) h = ground arith

-- What the tests on filled options let through.
pub record IsChecked (r : PluginOptions) : Type 0 where
  pub turns : IsAtMost64 r.tail_turns
  pub user_text : r.max_user_text_bytes ≤ 8388608
  pub inline_data : r.max_inline_data_bytes ≤ 67108864
  pub part : (128 ≤ r.max_historical_part_bytes) × (r.max_historical_part_bytes ≤ 1048576)
  pub ledger : (1024 ≤ r.max_ledger_bytes) × (r.max_ledger_bytes ≤ 262144)
  pub summary : (r.max_ledger_bytes + 1024 ≤ r.max_summary_bytes) × (r.max_summary_bytes ≤ 2097152)
  pub source : r.max_semantic_source_bytes ≤ 4194304
  pub json_room : r.response_mode ≡ json → r.max_ledger_bytes + 6144 ≤ r.max_summary_bytes
  pub vcc : (r.vcc_mode ≡ off) ⊎ ((r.response_mode ≡ json) × (r.semantic_checkpoints ≡ false))

json_or :
    (mode : ResponseMode) (b : Bool) → (not (is_json mode) || b) ≡ true → mode ≡ json → b ≡ true
json_or json b h e = h
json_or markdown b h e = cc

off_or :
    (mode : VccMode) (response : ResponseMode) (checkpoints : Bool)
    → (is_off mode || is_json response) ≡ true
    → (is_off mode || not checkpoints) ≡ true
    → (mode ≡ off) ⊎ ((response ≡ json) × (checkpoints ≡ false))
off_or off response checkpoints h k = inl refl
off_or mode json false h k = inr (refl, refl)
off_or mode response checkpoints h k = cc

tested :
    {A : Type 0} {b : Bool} {r : A} (why : Text) (next : Unit {0} → Verdict A)
    → (test b why >>= next) ≡ passed r
    → (b ≡ true) × (next tt ≡ passed r)
tested {b = true} why next h = (refl, h)
tested {b = false} why next h = cc

check_options-IsChecked : (r s : PluginOptions) → check_options r ≡ passed s → (r ≡ s) × IsChecked r
unfolding check_options
check_options-IsChecked r s h0 =
    let (turns, h1) = tested _ _ h0 in
    let (text, h2) = tested _ _ h1 in
    let (inline, h3) = tested _ _ h2 in
    let (part, h4) = tested _ _ h3 in
    let (ledger, h5) = tested _ _ h4 in
    let (summary, h6) = tested _ _ h5 in
    let (source, h7) = tested _ _ h6 in
    let (part_least, h8) = tested _ _ h7 in
    let (ledger_least, h9) = tested _ _ h8 in
    let (room, h10) = tested _ _ h9 in
    let (json_room, h11) = tested _ _ h10 in
    let (response, h12) = tested _ _ h11 in
    let (checkpoints, h13) = tested _ _ h12 in
    (
      passed_inj h13,
      record {
        turns = above-IsAtMost64 r.tail_turns turns;
        user_text = leb→le r.max_user_text_bytes 8388608 text;
        inline_data = leb→le r.max_inline_data_bytes 67108864 inline;
        part = (
          leb→le 128 r.max_historical_part_bytes part_least,
          leb→le r.max_historical_part_bytes 1048576 part,
        );
        ledger =
            (leb→le 1024 r.max_ledger_bytes ledger_least, leb→le r.max_ledger_bytes 262144 ledger);
        summary = (
          leb→le (r.max_ledger_bytes + 1024) r.max_summary_bytes room,
          leb→le r.max_summary_bytes 2097152 summary,
        );
        source = leb→le r.max_semantic_source_bytes 4194304 source;
        json_room = λ e.
            let enough =
              leb→le (r.max_ledger_bytes + 4096 + 2048) r.max_summary_bytes
                (json_or r.response_mode _ json_room e) in
            omega (arith, enough);
        vcc = off_or r.vcc_mode r.response_mode r.semantic_checkpoints response checkpoints;
      },
    )

room_for_json :
    (r : PluginOptions)
    → IsChecked r
    → (not (is_json r.response_mode) || leb (r.max_ledger_bytes + 4096 + 2048) r.max_summary_bytes)
      ≡ true
room_for_json r i = by_mode r.response_mode i.json_room
  where
    by_mode :
        (mode : ResponseMode)
        → (mode ≡ json → r.max_ledger_bytes + 6144 ≤ r.max_summary_bytes)
        → (not (is_json mode) || leb (r.max_ledger_bytes + 4096 + 2048) r.max_summary_bytes) ≡ true
    by_mode json room =
        let enough = room refl in
        le→leb (r.max_ledger_bytes + 4096 + 2048) r.max_summary_bytes (omega (arith, enough))
    by_mode markdown room = refl

vcc_allowed :
    (mode : VccMode) (response : ResponseMode) (checkpoints : Bool)
    → (mode ≡ off) ⊎ ((response ≡ json) × (checkpoints ≡ false))
    → ((is_off mode || is_json response) ≡ true) × ((is_off mode || not checkpoints) ≡ true)
vcc_allowed off response checkpoints h = (refl, refl)
vcc_allowed mode json false h = (ground arith, ground arith)
vcc_allowed mode response checkpoints (inl h) = cc
vcc_allowed mode response checkpoints (inr (h, k)) = cc

check_options-passed : (r : PluginOptions) → IsChecked r → check_options r ≡ passed r
unfolding check_options
check_options-passed r i =
    let (response, checkpoints) =
      vcc_allowed r.vcc_mode r.response_mode r.semantic_checkpoints i.vcc in
    rw (
      IsAtMost64-above r.tail_turns i.turns,
      le→leb r.max_user_text_bytes 8388608 i.user_text,
      le→leb r.max_inline_data_bytes 67108864 i.inline_data,
      le→leb r.max_historical_part_bytes 1048576 i.part.1,
      le→leb r.max_ledger_bytes 262144 i.ledger.1,
      le→leb r.max_summary_bytes 2097152 i.summary.1,
      le→leb r.max_semantic_source_bytes 4194304 i.source,
      le→leb 128 r.max_historical_part_bytes i.part.0,
      le→leb 1024 r.max_ledger_bytes i.ledger.0,
      le→leb (r.max_ledger_bytes + 1024) r.max_summary_bytes i.summary.0,
      room_for_json r i,
      response,
      checkpoints,
    )

pub resolve_options_eq :
    (options : ParsedOptions) (existing : ExistingOptions) (r : PluginOptions)
    → (resolve_options options existing ≡ passed r)
      ↔ ((fill_options options existing ≡ r) × IsChecked (fill_options options existing))
unfolding resolve_options
resolve_options_eq options existing r =
    let filled = fill_options options existing in
    (check_options-IsChecked filled r, λ h. check_options-passed filled h.1 ∙ ap passed h.0)
