-- ===== src/Examples/Closed.antt =====
-- The closing of contests by the clock and by an administrator, at a concrete store.
use mathlib.Core.List.Perm
use nexus_bench.Base.{
  ℕ, ◌≡◌, refl, inl, inr, true, none, some, List, [], ◌∷◌, map, arith, eq_iff, keep_if, pos,
  if◌then◌else◌,
}
use nexus_bench.Base.Dict.{get, put}
use nexus_bench.Base.Sorting.{sort_stable, sort_stable-IsSortSlice}
use nexus_bench.Models.{Contest, LeaderboardEntry, active}
use nexus_bench.Contest.Store.{
  MemoryContestStore, ok, get_active, first_active, get_contest, get_leaderboard_snapshot,
  new_memory_contest_store, save, update,
}
use nexus_bench.Contest.Service.{
  CreateContestRequest, activate, activate_found, activated, assign_ranks, broadcast, close, create,
  frozen, new_contest, rank_entries,
}
use nexus_bench.Contest.Legal.{IsLegal}
use nexus_bench.Contest.Lifecycle.{Call, creates, activates_at, run}
use nexus_bench.Leaderboard.{
  assign_board_ranks, best_by_team, build_deduped_leaderboard, build_leaderboard_entry, candidate,
  summarise,
}
use nexus_bench.Registry.{count_statuses, mark_all, records, stats}
use nexus_bench.Closing.{
  QueuePoll, Tick, close_contest, counts_for, depth, is_after, no_queue, poll_failed, tick_active,
  tick_auto_close, untouched, workers_are_still_busy,
}
use nexus_bench.Closing.Due.{after_tick, closed_by}
use nexus_bench.Closing.Ends.{IsClosed, run_ticks, run_ticks-closes}
use nexus_bench.Closing.Archived.{IsStanding, tick_auto_close_lem}
use nexus_bench.Closing.Undrained.{tick_auto_close-run}
use nexus_bench.Examples.Floats.{thousandths}
use nexus_bench.Examples.Contests.{a_contest}
use nexus_bench.Examples.Fleet.{workers}
use nexus_bench.Examples.Ranked.{as_it_is, runs, thousandths-IsOrdered}

-- It ends at 50, and its submissions are closed from 20 on.
abbrev running : Contest thousandths
running = record (a_contest "c" active) { ends_at = some 50; submissions_closed_at = some 20 }

abbrev one_running : MemoryContestStore thousandths
one_running = record { contests = ("c", running) ∷ []; order = "c" ∷ []; snapshots = [] }

one_running-IsLegal : IsLegal thousandths one_running
unfolding get
one_running-IsLegal = record {
  own_id = λ id c e. ground (arith, e, eq_iff "c" id);
  one_active = λ i j c d e k a b. ground (arith, e, k, a, b, eq_iff "c" i, eq_iff "c" j);
  listed_once = λ id. ground (arith, eq_iff "c" id);
  stored_once = λ id. ground (arith, eq_iff "c" id);
}

found_running : get_active thousandths one_running ≡ ok running
unfolding get_active first_active
found_running = refl

abbrev tick_at : ℕ → QueuePoll → Tick thousandths
tick_at now queue = record {
  now = now;
  stats_now = 30_000_000_000;
  closing_now = now;
  submissions = some runs;
  queue = queue;
  workers = some workers;
}

-- The queue is empty, but "w3" is busy: the contest stays.
busy_stays :
    (after_tick thousandths sort_stable as_it_is true one_running
      (tick_at 30 (depth (pos 0)))).events
    ≡ []
unfolding tick_auto_close tick_active get_active first_active workers_are_still_busy stats mark_all
    records count_statuses
busy_stays = refl

-- A missing worker registry counts as no busy worker.
drained_closes :
    map
      (λ e. e.contest_id)
      (after_tick thousandths sort_stable as_it_is true one_running
        (record (tick_at 30 no_queue) { workers = none })).events
    ≡ "c" ∷ []
unfolding tick_auto_close tick_active get_active first_active workers_are_still_busy close
    get_contest get update
drained_closes = refl

-- The administrator's call broadcasts the same two teams.
by_hand :
    map
      (λ e. map (λ x. x.team_name) e.entries)
      (close_contest thousandths sort_stable as_it_is true one_running 30 "c" (some runs)).events
    ≡ ("red" ∷ "blue" ∷ []) ∷ []
unfolding close_contest close get_contest get put update build_deduped_leaderboard best_by_team
    candidate build_leaderboard_entry summarise sort_stable assign_board_ranks rank_entries
    assign_ranks
by_hand = refl

tick_auto_close_lem_example :
    let t = tick_at 51 poll_failed in
    let r = after_tick thousandths sort_stable as_it_is true one_running t in
    (ranked : List (LeaderboardEntry thousandths)) × (get_leaderboard_snapshot thousandths r.store
        "c"
      ≡ ok ranked)
    × (r.events
        ≡ broadcast thousandths sort_stable true
            (record { type = frozen; contest_id = "c"; contest_name = "Spring"; entries = ranked }))
    × IsStanding thousandths thousandths-IsOrdered sort_stable as_it_is sort_stable-IsSortSlice
        (λ m. Perm.refl m)
        (keep_if (counts_for thousandths "c") runs)
        ranked
tick_auto_close_lem_example =
    tick_auto_close_lem thousandths thousandths-IsOrdered sort_stable as_it_is
      sort_stable-IsSortSlice (λ m. Perm.refl m) true one_running (tick_at 51 poll_failed) running
      runs one_running-IsLegal found_running refl refl

abbrev ticks : List (Tick thousandths)
ticks = tick_at 10 no_queue ∷ tick_at 51 poll_failed ∷ tick_at 60 no_queue ∷ []

run_ticks-closes_example :
    IsClosed thousandths sort_stable as_it_is true
      (run_ticks thousandths sort_stable as_it_is true one_running ticks)
      "c"
run_ticks-closes_example =
    run_ticks-closes thousandths sort_stable as_it_is true one_running ticks running
      one_running-IsLegal found_running (inr (inl refl))

abbrev request : CreateContestRequest thousandths
request = record {
  name = "Autumn";
  use_defaults = true;
  low_profile = none;
  medium_profile = none;
  high_profile = none;
  low_weight = 0;
  medium_weight = 0;
  high_weight = 0;
  ends_at = none;
}

abbrev calls : List (Call thousandths sort_stable)
calls = creates 1 "a" request ∷ activates_at 2 "a" ∷ []

abbrev autumn : Contest thousandths
autumn = activated thousandths 2 (new_contest thousandths 1 "a" request)

abbrev served : MemoryContestStore thousandths
served = run thousandths sort_stable (new_memory_contest_store thousandths) calls

found_autumn : get_active thousandths served ≡ ok autumn
unfolding run create activate activate_found new_contest get_active first_active get_contest get put
    save update new_memory_contest_store
found_autumn = refl

tick_auto_close-run_example :
    after_tick thousandths sort_stable as_it_is true served (tick_at 99 no_queue) ≡ (
      if is_after 99 autumn.ends_at
      then closed_by thousandths sort_stable as_it_is true served (tick_at 99 no_queue) autumn
      else untouched thousandths sort_stable as_it_is served)
tick_auto_close-run_example =
    tick_auto_close-run thousandths sort_stable as_it_is true calls (tick_at 99 no_queue) autumn
      found_autumn
