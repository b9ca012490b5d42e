-- ===== src/Leaderboard.antt =====
-- `BuildDedupedLeaderboard` and `buildLeaderboardEntry` of internal/api/router.go: one entry for each
-- team, its best. Given are float64, `sort.Slice` and `range`, the order in which a Go map is read.
pub mod Order
pub mod PerTeam
pub mod Board
use nexus_bench.Base.{
  ℕ, suc, ◌+◌, String, Bool, true, false, ◌&&◌, ◌||◌, not, Option, none, some, List, [], ◌∷◌, map,
  ltb, str_eq, if◌then◌else◌,
}
use nexus_bench.Base.Dict.{Dict, get, put}
use nexus_bench.Base.Float.{FloatOps}
use nexus_bench.Models.{BenchmarkResults, LeaderboardEntry, Submission, SubmissionStatus, completed}

abbrev pub is_completed : SubmissionStatus → Bool
is_completed completed = true
is_completed _ = false

module _ (F : FloatOps) where
  open F use {Float, of_ℕ, add, div, lt, eq}

  -- `getCorrectness`
  abbrev pub get_correctness : LeaderboardEntry F → Float
  get_correctness e =
      if lt (of_ℕ 0) e.avg_correctness then e.avg_correctness else e.correctness_score

  -- The variables of the loop over `AllResults`.
  pub record Summary : Type 0 where
    pub entry : LeaderboardEntry F
    pub sum_correctness : Float
    pub count_correctness : ℕ

  -- the `switch` on the label
  abbrev pub labelled_score : BenchmarkResults F → LeaderboardEntry F → LeaderboardEntry F
  labelled_score r e =
      if str_eq r.volatility_label "low"
      then record e { low_score = r.run_score }
      else if str_eq r.volatility_label "medium"
      then record e { medium_score = r.run_score }
      else if str_eq r.volatility_label "high"
      then record e { high_score = r.run_score }
      else e

  abbrev pub best_p99 : BenchmarkResults F → LeaderboardEntry F → LeaderboardEntry F
  best_p99 r e =
      if lt (of_ℕ 0) r.p99_latency_ms
        && (eq e.best_p99_ms (of_ℕ 0) || lt r.p99_latency_ms e.best_p99_ms)
      then record e { best_p99_ms = r.p99_latency_ms }
      else e

  abbrev pub peak_tps : BenchmarkResults F → LeaderboardEntry F → LeaderboardEntry F
  peak_tps r e =
      if lt e.peak_sustained_tps r.sustained_tps
      then record e { peak_sustained_tps = r.sustained_tps }
      else e

  abbrev pub count_result : BenchmarkResults F → Summary → Summary
  count_result r s = record {
    entry = peak_tps r (best_p99 r (labelled_score r s.entry));
    sum_correctness = add s.sum_correctness r.correctness_score;
    count_correctness = s.count_correctness + 1;
  }

  -- the loop over `AllResults`
  unfoldable pub summarise : Summary → List (BenchmarkResults F) → Summary
  summarise s [] = s
  summarise s (r ∷ rs) = summarise (count_result r s) rs

  abbrev pub with_results : Option (BenchmarkResults F) → LeaderboardEntry F → LeaderboardEntry F
  with_results none e = e
  with_results (some r) e = record e {
    p99_latency_ms = r.p99_latency_ms;
    max_tps = r.max_tps;
    correctness_score = r.correctness_score;
  }

  abbrev pub new_entry : Submission F → Float → LeaderboardEntry F
  new_entry sub effective_score = record {
    rank = 0;
    submission_id = sub.id;
    team_name = sub.team_name;
    language = sub.language;
    protocol = sub.protocol;
    status = sub.status;
    composite_score = effective_score;
    low_score = of_ℕ 0;
    medium_score = of_ℕ 0;
    high_score = of_ℕ 0;
    final_score = sub.final_score;
    best_p99_ms = of_ℕ 0;
    peak_sustained_tps = of_ℕ 0;
    avg_correctness = of_ℕ 0;
    p99_latency_ms = of_ℕ 0;
    max_tps = of_ℕ 0;
    correctness_score = of_ℕ 0;
    completed_at = sub.completed_at;
  }

  unfoldable pub build_leaderboard_entry : Submission F → Float → LeaderboardEntry F
  build_leaderboard_entry sub effective_score =
      let entry = with_results sub.results (new_entry sub effective_score) in
      let s =
        summarise (record { entry = entry; sum_correctness = of_ℕ 0; count_correctness = 0 })
          sub.all_results in
      if ltb 0 s.count_correctness
      then record s.entry { avg_correctness = div s.sum_correctness (of_ℕ s.count_correctness) }
      else s.entry

  pub record Candidate : Type 0 where
    pub entry : LeaderboardEntry F
    pub score : Float

  abbrev pub composite_score_of : Submission F → Float
  composite_score_of sub = elim sub.results [ none ↦ sub.final_score | some r ↦ r.composite_score ]

  abbrev pub effective_score : Submission F → Float
  effective_score sub =
      if eq sub.final_score (of_ℕ 0) then composite_score_of sub else sub.final_score

  unfoldable pub candidate : Submission F → Candidate
  candidate sub = record {
    entry = build_leaderboard_entry sub (effective_score sub);
    score = effective_score sub;
  }

  -- `isBetterScore || isTiedButBetterCorrectness`
  abbrev pub is_better : Candidate → Candidate → Bool
  is_better new old =
      lt old.score new.score
      || (eq new.score old.score && lt (get_correctness old.entry) (get_correctness new.entry))

  -- What a completed submission leaves under its team.
  abbrev pub improve : Option Candidate → Candidate → Candidate
  improve none new = new
  improve (some old) new = if is_better new old then new else old

  -- the loop that fills `bestByTeam`
  unfoldable pub best_by_team : Dict Candidate → List (Submission F) → Dict Candidate
  best_by_team m [] = m
  best_by_team m (sub ∷ subs) =
      let next =
        if is_completed sub.status
        then put sub.team_name (improve (get sub.team_name m) (candidate sub)) m
        else m in
      best_by_team next subs

  -- the comparison of the sort
  abbrev pub ranks_before : LeaderboardEntry F → LeaderboardEntry F → Bool
  ranks_before a b =
      if not (eq a.composite_score b.composite_score)
      then lt b.composite_score a.composite_score
      else lt (get_correctness b) (get_correctness a)

  unfoldable pub assign_board_ranks : ℕ → List (LeaderboardEntry F) → List (LeaderboardEntry F)
  assign_board_ranks n [] = []
  assign_board_ranks n (e ∷ es) = record e { rank = n } ∷ assign_board_ranks (suc n) es

  module _
      (sort_slice : (LeaderboardEntry F → LeaderboardEntry F → Bool)
        → List (LeaderboardEntry F)
        → List (LeaderboardEntry F))
      (range : Dict Candidate → List (String × Candidate)) where
    unfoldable pub build_deduped_leaderboard : List (Submission F) → List (LeaderboardEntry F)
    build_deduped_leaderboard subs =
        let ranked = map (λ kc. kc.1.entry) (range (best_by_team [] subs)) in
        assign_board_ranks 1 (sort_slice ranks_before ranked)
