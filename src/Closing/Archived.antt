-- ===== src/Closing/Archived.antt =====
-- What a tick of the loop `runContestAutoClose` (cmd/server/main.go) archives when it closes a contest.
use nexus_bench.Base.{
  min, ◌≡◌, refl, sym, ap, ◌∙◌, String, Bool, true, some, List, [], ◌∷◌, map, arith, Perm, eq_iff,
  count_if, keep_if, str_eq, if◌then◌else◌,
}
use nexus_bench.Base.Dict.{Dict, get-put}
use nexus_bench.Base.Float.{FloatOps}
use nexus_bench.Base.Sorting.{IsSortSlice, IsSorted}
use nexus_bench.Base.Rearranged.{sum_of-perm}
use nexus_bench.Models.{Contest, LeaderboardEntry, Submission}
use nexus_bench.Contest.Store.{ok, get_active, get_leaderboard_snapshot, snapshot_leaderboard}
use nexus_bench.Contest.Service.{CloseResult, Store, broadcast, frozen, higher_score, rank_entries}
use nexus_bench.Contest.Legal.{IsLegal}
use nexus_bench.Contest.Ranking.{RanksFrom, rank_entries_lem, unranked}
use nexus_bench.Leaderboard.{Candidate}
use nexus_bench.Leaderboard.Order.{IsOrdered}
use nexus_bench.Leaderboard.PerTeam.{is_candidate}
use nexus_bench.Leaderboard.Board.{build_deduped_leaderboard_lem, entries_of}
use nexus_bench.Closing.{Tick, build_leaderboard_entries, counts_for}
use nexus_bench.Closing.Due.{after_tick, is_due, tick_due-closes}

module _ (F : FloatOps) where
  entries_of-unranked :
      (team : String) (es : List (LeaderboardEntry F))
      → entries_of F team (map (unranked F) es) ≡ entries_of F team es
  entries_of-unranked team [] = refl
  entries_of-unranked team (e ∷ es) = omega (arith, entries_of-unranked team es)

  module _ (ordered : IsOrdered F)
      (sort_slice : (LeaderboardEntry F → LeaderboardEntry F → Bool)
        → List (LeaderboardEntry F)
        → List (LeaderboardEntry F))
      (range : Dict (Candidate F) → List (String × Candidate F)) (sorting : IsSortSlice sort_slice)
      (ranging : (m : Dict (Candidate F)) → Perm (range m) m) where
    -- What the archive of a contest owes to the submissions that count for it.
    pub record IsStanding (subs : List (Submission F)) (ranked : List (LeaderboardEntry F))
        : Type 0 where
      pub one_each :
          (team : String) → entries_of F team ranked ≡ min 1 (count_if (is_candidate F team) subs)
      pub numbered : RanksFrom F 1 ranked
      pub by_score : IsSorted (higher_score F) ranked

    rank_entries-IsStanding :
        (id : String) (all : List (Submission F))
        → IsStanding
            (keep_if (counts_for F id) all)
            (rank_entries F sort_slice (build_leaderboard_entries F sort_slice range (some all) id))
    unfolding build_leaderboard_entries
    rank_entries-IsStanding id all =
        let subs = keep_if (counts_for F id) all in
        let board = build_leaderboard_entries F sort_slice range (some all) id in
        let (perm, ranks, sorted) =
          rank_entries_lem F sort_slice sorting
            (λ x y h. ordered.lt_asym y.final_score x.final_score h)
            (λ x y z h k. ordered.lt_negtrans x.final_score y.final_score z.final_score k h)
            board in
        record {
          one_each = λ team.
              sym (entries_of-unranked team (rank_entries F sort_slice board))
              ∙ sum_of-perm (λ e. if str_eq e.team_name team then 1 else 0) perm
              ∙ entries_of-unranked team board
              ∙ (build_deduped_leaderboard_lem F ordered sort_slice range sorting ranging subs).0
                  team;
          numbered = ranks;
          by_score = sorted;
        }

    -- Where the float64 values are ordered (none is a NaN), `sort.Slice` sorts and `range` yields every
    -- entry of a map once: a tick that is due for the active contest of a legal store, and that finds
    -- the submissions, archives and broadcasts one ranking, with exactly one entry for each team that
    -- has a completed submission in the contest or in none, and no entry of any other team; its entries
    -- are numbered 1, 2, … and none stands behind one of a lower final score.
    pub tick_auto_close_lem :
        (has_bus : Bool) (s : Store F) (t : Tick F) (c : Contest F) (all : List (Submission F))
        → IsLegal F s
        → get_active F s ≡ ok c
        → t.submissions ≡ some all
        → is_due F c t ≡ true
        → let r = after_tick F sort_slice range has_bus s t in
          (ranked : List (LeaderboardEntry F)) × (get_leaderboard_snapshot F r.store c.id
            ≡ ok ranked)
          × (r.events
              ≡ broadcast F sort_slice has_bus (record {
                type = frozen;
                contest_id = c.id;
                contest_name = c.name;
                entries = ranked;
              }))
          × IsStanding (keep_if (counts_for F c.id) all) ranked
    unfolding get_leaderboard_snapshot snapshot_leaderboard
    tick_auto_close_lem has_bus s t c all v e listed d =
        let closing = tick_due-closes F sort_slice range has_bus s t c v e d in
        let ranked : List (LeaderboardEntry F) =
          rank_entries F sort_slice
            (build_leaderboard_entries F sort_slice range t.submissions c.id) in
        (
          ranked,
          ap (λ (r : CloseResult F sort_slice). get_leaderboard_snapshot F r.store c.id) closing
              ∙ ground (arith, get-put c.id c.id ranked s.snapshots, eq_iff c.id c.id),
          ap (λ (r : CloseResult F sort_slice). r.events) closing,
          rw listed (rank_entries-IsStanding c.id all),
        )
