-- ===== src/Examples/Ranked.antt =====
-- The leaderboard of two teams, one of which has two completed submissions.
use mathlib.Core.List.Perm
use nexus_bench.Base.{
  ℕ, ◌≡◌, refl, arith, String, none, List, [], ◌∷◌, map, count_if, min, All, pos,
}
use nexus_bench.Base.Dict.{Dict, get, put}
use nexus_bench.Base.Sorting.{sort_stable, IsSorted, sort_stable-IsSortSlice}
use nexus_bench.Models.{LeaderboardEntry, Submission, SubmissionStatus, completed, failed}
use nexus_bench.Contest.Ranking.{RanksFrom}
use nexus_bench.Leaderboard.{
  Candidate, assign_board_ranks, best_by_team, build_deduped_leaderboard, build_leaderboard_entry,
  candidate, ranks_before, summarise,
}
use nexus_bench.Leaderboard.Order.{IsOrdered}
use nexus_bench.Leaderboard.PerTeam.{is_candidate}
use nexus_bench.Leaderboard.Board.{IsBest, entries_of, build_deduped_leaderboard_lem}
use nexus_bench.Examples.Floats.{thousandths}

abbrev run_of : String → String → SubmissionStatus → ℕ → Submission thousandths
run_of id team status score = record {
  id = id;
  team_name = team;
  language = "go";
  protocol = "rest";
  status = status;
  status_msg = "";
  contest_id = "c";
  archive_path = "";
  archive_size = pos 0;
  container_id = "";
  container_name = "";
  exposed_port = pos 0;
  created_at = 1;
  updated_at = 1;
  completed_at = none;
  results = none;
  all_results = [];
  final_score = score;
  dry_run_result = none;
}

abbrev pub runs : List (Submission thousandths)
runs =
    run_of "1" "red" completed 500
    ∷ run_of "2" "blue" completed 700
    ∷ run_of "3" "red" completed 900
    ∷ run_of "4" "green" failed 999
    ∷ []

abbrev pub as_it_is : Dict (Candidate thousandths) → List (String × Candidate thousandths)
as_it_is m = m

abbrev board : List (LeaderboardEntry thousandths)
board = build_deduped_leaderboard thousandths sort_stable as_it_is runs

board_ids : map (λ e. e.submission_id) board ≡ "3" ∷ "2" ∷ []
unfolding build_deduped_leaderboard best_by_team candidate build_leaderboard_entry summarise get put
    sort_stable assign_board_ranks
board_ids = refl

pub thousandths-IsOrdered : IsOrdered thousandths
thousandths-IsOrdered = record {
  lt_asym = λ x y h. ground arith;
  lt_negtrans = λ x y z h k. ground arith;
  eq_lem = λ x y. ground arith;
}

build_deduped_leaderboard_lem_example :
    ((team : String)
      → entries_of thousandths team board ≡ min 1 (count_if (is_candidate thousandths team) runs))
    × (All (IsBest thousandths runs) board
        × (RanksFrom thousandths 1 board × IsSorted (ranks_before thousandths) board))
build_deduped_leaderboard_lem_example =
    build_deduped_leaderboard_lem thousandths thousandths-IsOrdered sort_stable as_it_is
      sort_stable-IsSortSlice (λ m. Perm.refl m) runs
