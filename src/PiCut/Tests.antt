-- ===== src/PiCut/Tests.antt =====
-- A compacted Pi session, its live entries and its cut (src/pi-vcc-cut.ts).
use opencode_better_compact.Base.{
  ℕ, String, ◌≡◌, refl, false, some, List, [], ◌∷◌, All, Text, codes, eq_text,
}
use opencode_better_compact.Base.Value.{Number, int, null}
use opencode_better_compact.PiCut.{
  Entry, agent, message, compaction, is_user, user_indices, last_compaction, find_index,
  start_index, live_entries, entry_to_live_message, collect_pi_vcc_live_entries, floor, cut_at,
  cut_live, compact_all_of, build_pi_vcc_cut,
}
use opencode_better_compact.PiCut.Live.{Begins, Plain, collect-Begins}
use opencode_better_compact.PiCut.Boundary.{Cut, build_pi_vcc_cut-Cut}

abbrev no_time : Text → Number
no_time t = int false 0

abbrev entry : ℕ → String → Entry
entry id role = record { id = id ∷ []; body = message (agent (codes role) null) }

abbrev compacted : Text → Entry
compacted kept = record { id = 99 ∷ []; body = compaction (some kept) }

-- Entry 2 was kept by the compaction.
abbrev session : List Entry
session =
    entry 1 "user"
    ∷ entry 2 "assistant"
    ∷ compacted (2 ∷ [])
    ∷ entry 3 "user"
    ∷ entry 4 "assistant"
    ∷ entry 5 "user"
    ∷ []

cut_session :
    build_pi_vcc_cut no_time session (floor 1)
    ≡ some (record {
      messages =
          agent (codes "assistant") null
          ∷ agent (codes "user") null
          ∷ agent (codes "assistant") null
          ∷ [];
      first_kept_entry_id = 5 ∷ [];
      compact_all = false;
      total_user_turns = 2;
      kept_user_turns = 1;
    })
unfolding build_pi_vcc_cut collect_pi_vcc_live_entries live_entries start_index last_compaction
    find_index user_indices is_user cut_live cut_at compact_all_of eq_text codes
    entry_to_live_message
cut_session = refl

collect-Begins_example :
    ((live : List Entry) × Begins session live
      × (collect_pi_vcc_live_entries no_time session ≡ live_entries no_time live))
    × All
        (λ l. Plain l.entry × (entry_to_live_message no_time l.entry.body ≡ some l.message))
        (collect_pi_vcc_live_entries no_time session)
collect-Begins_example = collect-Begins no_time session

build_pi_vcc_cut-Cut_example :
    Cut (collect_pi_vcc_live_entries no_time session) 1 (build_pi_vcc_cut no_time session (floor 1))
build_pi_vcc_cut-Cut_example = build_pi_vcc_cut-Cut no_time session (floor 1)
