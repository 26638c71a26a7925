-- ===== src/Ledger.antt =====
-- src/ledger.ts: the recovery ledger, its data and its canonical text (`canonicalLedger`).
pub mod Wording
pub mod Parts
pub mod Collect
pub mod Messages
pub mod Kept
pub mod Distinct
pub mod Loop
pub mod Scan
pub mod Build
pub mod Search
pub mod Fit
pub mod Part
pub mod Fitted
pub mod Whole
pub mod Outcome
pub mod Bounds
mod BuildTests
mod Tests
use opencode_better_compact.Base.{
  ℕ, zero, suc, ◌+◌, Option, none, some, List, [], ◌∷◌, ◌++◌, map, Text, codes,
}
use opencode_better_compact.Base.Value.{join}
use opencode_better_compact.Vcc.Serialize.{quote}

pub record Todo : Type 0 where
  pub id : Text
  pub status : Text
  pub priority : Text
  pub content : Text

pub record ToolStatus : Type 0 where
  pub tool : Text
  pub status : Text
  pub title : Option Text

pub record RecoveryLedgerData : Type 0 where
  pub recent_requests : List Text
  pub constraints : List Text
  pub todos : List Todo
  pub touched_paths : List Text
  pub tool_statuses : List ToolStatus
  pub errors : List Text
  pub evidence : List Text
  pub next_actions : List Text
  pub legacy_context : List Text

-- `contents` is the field `data`.
pub record RecoveryLedger : Type 0 where
  pub contents : RecoveryLedgerData
  pub body : Text
  pub digest : Text
  pub block : Text

abbrev pub ledger_start : Text
ledger_start = codes "<!-- opencode-safe-compaction recovery-ledger v1 start -->"

abbrev pub ledger_end : Text
ledger_end = codes "<!-- opencode-safe-compaction recovery-ledger v1 end -->"

abbrev pub spaces : ℕ → Text
spaces zero = []
spaces (suc n) = b' ' ∷ spaces n

-- `JSON.stringify(value, null, 2)` of an array or an object of these members.
unfoldable pub pretty_block : ℕ → ℕ → ℕ → List Text → Text
pretty_block opening closing indent [] = opening ∷ closing ∷ []
pretty_block opening closing indent (member ∷ members) =
    opening
    ∷ 10
    ∷ (join (b',' ∷ 10 ∷ []) (map (λ m. spaces (indent + 2) ++ m) (member ∷ members))
        ++ (10 ∷ (spaces indent ++ (closing ∷ []))))

abbrev pub member_of : Text → Text → Text
member_of name value = quote name ++ (b':' ∷ b' ' ∷ value)

abbrev pub pretty_texts : ℕ → List Text → Text
pretty_texts indent values = pretty_block b'[' b']' indent (map quote values)

abbrev pub pretty_todo : Todo → Text
pretty_todo t = pretty_block b'{' b'}' 4 (
    member_of (codes "id") (quote t.id)
    ∷ member_of (codes "status") (quote t.status)
    ∷ member_of (codes "priority") (quote t.priority)
    ∷ member_of (codes "content") (quote t.content)
    ∷ [])

-- A title that is undefined is left out.
abbrev pub title_members : Option Text → List Text
title_members none = []
title_members (some title) = member_of (codes "title") (quote title) ∷ []

abbrev pub pretty_status : ToolStatus → Text
pretty_status s = pretty_block b'{' b'}' 4 (
    member_of (codes "tool") (quote s.tool)
    ∷ member_of (codes "status") (quote s.status)
    ∷ title_members s.title)

unfoldable pub ledger_body : RecoveryLedgerData → Text
unfolding pretty_block quote
ledger_body d = pretty_block b'{' b'}' 0 (
    member_of (codes "recent_requests") (pretty_texts 2 d.recent_requests)
    ∷ member_of (codes "constraints") (pretty_texts 2 d.constraints)
    ∷ member_of (codes "todos") (pretty_block b'[' b']' 2 (map pretty_todo d.todos))
    ∷ member_of (codes "touched_paths") (pretty_texts 2 d.touched_paths)
    ∷ member_of (codes "tool_statuses")
        (pretty_block b'[' b']' 2 (map pretty_status d.tool_statuses))
    ∷ member_of (codes "errors") (pretty_texts 2 d.errors)
    ∷ member_of (codes "evidence") (pretty_texts 2 d.evidence)
    ∷ member_of (codes "next_actions") (pretty_texts 2 d.next_actions)
    ∷ member_of (codes "legacy_context") (pretty_texts 2 d.legacy_context)
    ∷ [])

abbrev pub ledger_block : Text → Text → Text
ledger_block digest body =
    ledger_start
    ++ (codes "\nversion: 1\nsha256: "
        ++ (digest ++ (codes "\n```json\n" ++ (body ++ (codes "\n```\n" ++ ledger_end)))))

module _ (sha256 : Text → Text) where
  unfoldable pub canonical_ledger : RecoveryLedgerData → RecoveryLedger
  unfolding codes ledger_body
  canonical_ledger d = record {
    contents = d;
    body = ledger_body d;
    digest = sha256 (ledger_body d);
    block = ledger_block (sha256 (ledger_body d)) (ledger_body d);
  }
