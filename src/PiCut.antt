-- ===== src/PiCut.antt =====
-- src/pi-vcc-cut.ts: which live entries of a Pi session are summarised, and which are kept.
pub mod Live
pub mod Boundary
mod Tests
use opencode_better_compact.Base.{
  ℕ, zero, suc, ◌+◌, ◌-◌, Bool, true, false, ◌||◌, Option, none, some, List, [], ◌∷◌, ◌++◌, Text,
  codes, eq_text, is_empty, any, drop, take, map, leb, ltb, length, get_elem?, if◌then◌else◌,
}
use mathlib.Core.Option
use opencode_better_compact.Base.Value.{Value, Number}

-- A message of the agent core by its role, with the object itself; and the two that the code makes
-- of other entries.
pub data Message : Type 0 where
  agent : Text → Value → Message
  custom : Text → Value → Value → Value → Number → Message
  branch_summary : Text → Text → Number → Message

-- The variants of an entry that the code tells apart; the texts at the end are timestamps, and a
-- compaction may lack its `firstKeptEntryId`.
pub data Body : Type 0 where
  message : Message → Body
  custom_message : Text → Value → Value → Value → Text → Body
  branch_summary : Text → Text → Text → Body
  compaction : Option Text → Body
  other : Body

pub record Entry : Type 0 where
  pub id : Text
  pub body : Body

pub record LiveEntry : Type 0 where
  pub entry : Entry
  pub message : Message

pub record PiVccCut : Type 0 where
  pub messages : List Message
  pub first_kept_entry_id : Text
  pub compact_all : Bool
  pub total_user_turns : ℕ
  pub kept_user_turns : ℕ

-- `entry.type === "compaction"`
abbrev pub is_compaction : Body → Bool
is_compaction (compaction kept) = true
is_compaction _ = false

abbrev pub kept_of : Body → Text
kept_of (compaction (some kept)) = kept
kept_of _ = []

-- The newest compaction with its index; an absent and an empty `firstKeptEntryId` are alike to the
-- code, which tests for a truthy one. The scan from the end stops at the first that it meets.
unfoldable pub last_compaction : ℕ → List Entry → Option (ℕ × Text)
last_compaction index [] = none
last_compaction index (e ∷ es) = elim (last_compaction (suc index) es) [
  | some found ↦ some found
  | none ↦ if is_compaction e.body then some (index, kept_of e.body) else none
]

-- `entries.findIndex((entry) => entry.id === id)`, `none` for -1
unfoldable pub find_index : Text → List Entry → Option ℕ
find_index id [] = none
find_index id (e ∷ es) = if eq_text e.id id then some 0 else Option.map suc (find_index id es)

-- Where the live entries begin.
unfoldable pub start_index : List Entry → ℕ
start_index entries = elim (last_compaction 0 entries) [
  | none ↦ 0
  | some (index, kept) ↦ elim (is_empty kept) [
    | true ↦ index + 1
    | false ↦ elim (find_index kept entries) [ none ↦ index + 1 | some start ↦ start ]
  ]
]

-- The number of user turns to keep, as the code looks at it: not finite, negative, or its floor.
pub data Turns : Type 0 where
  not_finite negative : Turns
  floor : ℕ → Turns

abbrev pub normalized_keep : Turns → ℕ
normalized_keep not_finite = 0
normalized_keep negative = 0
normalized_keep (floor n) = n

unfoldable pub is_user : Message → Bool
is_user (agent role value) = eq_text role (codes "user")
is_user _ = false

unfoldable pub user_indices : ℕ → List LiveEntry → List ℕ
user_indices index [] = []
user_indices index (l ∷ live) =
    let rest = user_indices (suc index) live in if is_user l.message then index ∷ rest else rest

unfoldable pub compact_all_of : List LiveEntry → ℕ → PiVccCut
compact_all_of live total = record {
  messages = map (λ l. l.message) live;
  first_kept_entry_id = [];
  compact_all = true;
  total_user_turns = total;
  kept_user_turns = 0;
}

-- The cut over the live entries; `target` is negative where `keep` exceeds the total.
unfoldable pub cut_at : List LiveEntry → ℕ → ℕ → Option ℕ
cut_at live total keep =
    if ltb total keep then none else get_elem? (user_indices 0 live) (total - keep)

-- `live[index]!.entry.id`; the index is in range.
abbrev pub id_at : List LiveEntry → ℕ → Text
id_at [] i = []
id_at (l ∷ live) zero = l.entry.id
id_at (l ∷ live) (suc i) = id_at live i

unfoldable pub cut_live : List LiveEntry → ℕ → ℕ → PiVccCut
cut_live live total keep =
    if leb keep 0 then compact_all_of live total else (elim (cut_at live total keep) [
      | none ↦ compact_all_of live total
      | some zero ↦ compact_all_of live total
      | some (suc index) ↦ record {
        messages = map (λ l. l.message) (take (suc index) live);
        first_kept_entry_id = id_at live (suc index);
        compact_all = false;
        total_user_turns = total;
        kept_user_turns = total - (total - keep);
      }
    ])

-- `new Date(timestamp).getTime()` is a parameter.
module _ (get_time : Text → Number) where
  unfoldable pub entry_to_live_message : Body → Option Message
  entry_to_live_message (message m) = some m
  entry_to_live_message (custom_message custom_type content display details timestamp) =
      some (custom custom_type content display details (get_time timestamp))
  entry_to_live_message (Body.branch_summary summary from_id timestamp) =
      some (Message.branch_summary summary from_id (get_time timestamp))
  entry_to_live_message (compaction kept) = none
  entry_to_live_message other = none

  -- `flatMap` over the entries; a compaction yields nothing.
  unfoldable pub live_entries : List Entry → List LiveEntry
  live_entries [] = []
  live_entries (e ∷ es) = elim (entry_to_live_message e.body) [
    | none ↦ live_entries es
    | some m ↦ record { entry = e; message = m } ∷ live_entries es
  ]

  unfoldable pub collect_pi_vcc_live_entries : List Entry → List LiveEntry
  collect_pi_vcc_live_entries entries = live_entries (drop (start_index entries) entries)

  unfoldable pub build_pi_vcc_cut : List Entry → Turns → Option PiVccCut
  build_pi_vcc_cut entries turns =
      let live = collect_pi_vcc_live_entries entries in
      let total = length (user_indices 0 live) in
      let keep = normalized_keep turns in
      if leb (length live) 2 then none else some (cut_live live total keep)
