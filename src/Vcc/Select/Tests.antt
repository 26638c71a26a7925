-- ===== src/Vcc/Select/Tests.antt =====
-- The selection of episodes (src/vcc.ts) at concrete data.
use opencode_better_compact.Base.{
  ◌≡◌, refl, Bool, true, List, [], ◌∷◌, length, leb, codes, eq_text, member, includes, starts_with,
  Result, ok,
}
use opencode_better_compact.Base.Sort.{sort, insert}
use opencode_better_compact.Vcc.Order.{compare_code_points}
use opencode_better_compact.Vcc.Episode.{CausalEpisode, completed}
use opencode_better_compact.Vcc.Select.{
  all_dimensions, compare_ranked, find_fitting, select_from, select_complete_episodes,
}
use opencode_better_compact.Vcc.Select.Laws.{Selection, select_complete_episodes-Selection}
use opencode_better_compact.Vcc.Select.Termination.{select_complete_episodes_total}

-- There is room for one episode.
abbrev one_fits : List CausalEpisode → Result Bool
one_fits l = ok (leb (length l) 1)

abbrev test_run : CausalEpisode
test_run = record {
  id = codes "ep:1";
  kind = codes "edit_verification";
  event_ids = [];
  goal_ids = [];
  status = completed;
  exact_identifiers = [];
  artifact_ids = [];
  evidence_event_ids = [];
  archive_handles = [];
  relevance_signals = record {
    event_count = 2;
    latest_sequence = 9;
    human_provenance_count = 0;
    goal_count = 0;
    artifact_count = 0;
    evidence_count = 0;
    complete_pair = true;
  };
}

abbrev decision : CausalEpisode
decision = record test_run { id = codes "ep:2"; kind = codes "decision_consequence" }

-- The decision covers one dimension more.
decision_first : select_complete_episodes one_fits (test_run ∷ decision ∷ []) ≡ ok (decision ∷ [])
unfolding select_complete_episodes select_from find_fitting compare_ranked all_dimensions sort
    insert compare_code_points member eq_text codes includes starts_with
decision_first = refl

select_complete_episodes-Selection_example :
    Selection one_fits (test_run ∷ decision ∷ []) (decision ∷ [])
select_complete_episodes-Selection_example =
    select_complete_episodes-Selection one_fits (test_run ∷ decision ∷ []) (decision ∷ [])
      decision_first

one_fits_decides : (l : List CausalEpisode) → (b : Bool) × (one_fits l ≡ ok b)
one_fits_decides l = (leb (length l) 1, refl)

select_complete_episodes_total_example :
    (selected : List CausalEpisode) × (select_complete_episodes one_fits (test_run ∷ decision ∷ [])
      ≡ ok selected)
    × Selection one_fits (test_run ∷ decision ∷ []) selected
select_complete_episodes_total_example =
    select_complete_episodes_total one_fits one_fits_decides (test_run ∷ decision ∷ [])
