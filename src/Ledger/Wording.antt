-- ===== src/Ledger/Wording.antt =====
-- src/ledger.ts: how texts are cut and cleaned before they stand in a ledger (`compact`, and the
-- expressions of `buildRecoveryLedger`).
use opencode_better_compact.Base.{
  ℕ, zero, suc, ◌+◌, ◌-◌, Bool, true, false, not, ◌&&◌, ◌||◌, List, [], ◌∷◌, ◌++◌, reverse, length,
  drop, leb, ◌==◌, any, Text, codes, starts_with, is_empty, member, if◌then◌else◌, map,
}
use opencode_better_compact.Base.Value.{join}
use opencode_better_compact.Utf8.{truncate_utf8, bounded_source}
use opencode_better_compact.Vcc.Event.Ids.{is_space, is_digit}
use opencode_better_compact.Ledger.{ledger_start, ledger_end}

abbrev pub compact_source_bytes : ℕ
compact_source_bytes = 65536

-- `value.replaceAll(part, other)`, after so many units of a part that was found.
unfoldable pub replace_from : Text → Text → ℕ → Text → Text
replace_from part other skip [] = []
replace_from part other (suc skip) (c ∷ s) = replace_from part other skip s
replace_from part other zero (c ∷ s) =
    let found = replace_from part other (length part - 1) s in
    let kept = replace_from part other zero s in
    if starts_with (c ∷ s) part then other ++ found else c ∷ kept

abbrev pub add_word : Text → List Text → List Text
add_word word words = if is_empty word then words else reverse word ∷ words

-- The runs of units that are no spaces; the first argument is the run so far, backwards.
unfoldable pub words_from : Text → Text → List Text
words_from word [] = add_word word []
words_from word (c ∷ s) =
    let after = add_word word (words_from [] s) in
    let longer = words_from (c ∷ word) s in if is_space c then after else longer

-- `value.replace(/\s+/g, " ").trim()`
unfoldable pub single_spaced : Text → Text
unfolding words_from
single_spaced s = join (b' ' ∷ []) (words_from [] s)

module _ (redact : Text → Text) where
  unfoldable pub without_markers : Text → Text
  unfolding codes replace_from
  without_markers s = replace_from (codes "```") (codes "` ` `") 0 (
      replace_from ledger_end (codes "[reserved ledger marker]") 0
        (replace_from ledger_start (codes "[reserved ledger marker]") 0 s))

  unfoldable pub compact : Text → ℕ → Text
  unfolding without_markers single_spaced
  compact value max_bytes =
      truncate_utf8
        (single_spaced (without_markers (redact (bounded_source value compact_source_bytes))))
        max_bytes

-- What the separator at hand still takes.
pub data Skip : Type 0 where
  none spaces one : Skip

abbrev pub ends_sentence : ℕ → Bool
ends_sentence c = c == b'.' || c == b'!' || c == b'?'

abbrev pub begins_with_newline : Text → Bool
begins_with_newline [] = false
begins_with_newline (c ∷ s) = c == 10

-- `value.split(/\r?\n|(?<=[.!?])\s+/)`, after a unit and with the line so far, backwards.
unfoldable pub lines_from : ℕ → Skip → Text → Text → List Text
lines_from previous skip line [] = reverse line ∷ []
lines_from previous one line (c ∷ s) = lines_from c none line s
lines_from previous skip line (c ∷ s) =
    let skipped = lines_from c spaces line s in
    let newline = reverse line ∷ lines_from c none [] s in
    let return = reverse line ∷ lines_from c one [] s in
    let sentence = reverse line ∷ lines_from c spaces [] s in
    let longer = lines_from c none (c ∷ line) s in
    if is_spaces skip && is_space c
    then skipped
    else if c == 10
    then newline
    else if c == 13 && begins_with_newline s
    then return
    else if ends_sentence previous && is_space c
    then sentence
    else longer
  where
    is_spaces : Skip → Bool
    is_spaces spaces = true
    is_spaces _ = false

-- `\w`
abbrev pub is_word_unit : ℕ → Bool
is_word_unit c = is_digit c || leb b'a' c && leb c b'z' || leb b'A' c && leb c b'Z' || c == b'_'

abbrev pub lower : ℕ → ℕ
lower c = if leb b'A' c && leb c b'Z' then c + 32 else c

abbrev pub begins_with_word : Text → Bool
begins_with_word [] = false
begins_with_word (c ∷ s) = is_word_unit c

-- The word stands here, and no part of a longer one.
abbrev pub word_here : Text → Text → Bool
word_here s word = starts_with (map lower s) word && not (begins_with_word (drop (length word) s))

-- `/\b(…|…)\b/i`, after a unit.
unfoldable pub has_word : List Text → Bool → Text → Bool
unfolding starts_with
has_word words after_word [] = false
has_word words after_word (c ∷ s) =
    let later = has_word words (is_word_unit c) s in
    not after_word && any (word_here (c ∷ s)) words || later

abbrev pub constraint_words : List Text
constraint_words =
    codes "must"
    ∷ codes "never"
    ∷ codes "do not"
    ∷ codes "don't"
    ∷ codes "always"
    ∷ codes "only"
    ∷ codes "without"
    ∷ codes "constraint"
    ∷ codes "required"
    ∷ codes "preserve"
    ∷ codes "keep"
    ∷ []

-- The expression for tools that write files, in small letters.
abbrev pub writing_tools : List Text
writing_tools =
    codes "write"
    ∷ codes "edit"
    ∷ codes "patch"
    ∷ codes "applypatch"
    ∷ codes "apply_patch"
    ∷ codes "apply-patch"
    ∷ codes "writefile"
    ∷ codes "write_file"
    ∷ codes "write-file"
    ∷ codes "editfile"
    ∷ codes "edit_file"
    ∷ codes "edit-file"
    ∷ codes "str_replace_editor"
    ∷ []

abbrev pub is_writing_tool : Text → Bool
is_writing_tool tool = member (map lower tool) writing_tools
