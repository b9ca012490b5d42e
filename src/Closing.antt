-- ===== src/Closing.antt =====
-- How a contest is closed: `tickAutoClose` with `buildLeaderboardEntries` of cmd/server/main.go, and
-- `closeContest` of internal/api/router.go. The clock is read three times in a tick, by itself, by the
-- registry and by `Close`; the answers of the submission store and of the queue are arguments.
pub mod Due
pub mod Ends
pub mod Archived
pub mod Undrained
use nexus_bench.Base.{
  ℕ, String, Bool, true, false, ◌&&◌, ◌||◌, not, Option, none, some, List, [], ℤ, pos, eq_ℤ, ltb,
  str_eq, keep_if, if◌then◌else◌,
}
use nexus_bench.Base.Dict.{Dict}
use nexus_bench.Base.Float.{FloatOps}
use nexus_bench.Models.{Contest, LeaderboardEntry, Submission}
use nexus_bench.Contest.Store.{ok, err, get_active}
use nexus_bench.Contest.Service.{Store, CloseResult, close}
use nexus_bench.Leaderboard.{Candidate, build_deduped_leaderboard, is_completed}
use nexus_bench.Registry.{Workers, stats}

-- No queue, a poll that failed, or the depth.
pub data QueuePoll : Type 0 where
  no_queue poll_failed : QueuePoll
  depth : ℤ → QueuePoll

abbrev pub queue_drained : QueuePoll → Bool
queue_drained no_queue = true
queue_drained poll_failed = false
queue_drained (depth n) = eq_ℤ n (pos 0)

-- `Stats` marks the silent workers, so the registry changes.
unfoldable pub workers_are_still_busy : Option Workers → ℕ → Option Workers × Bool
workers_are_still_busy none now = (none, false)
workers_are_still_busy (some ws) now = let (ws', s) = stats ws now in (some ws', ltb 0 s.busy)

-- `t != nil && now.After(*t)`
abbrev pub is_after : ℕ → Option ℕ → Bool
is_after now none = false
is_after now (some t) = ltb t now

module _ (F : FloatOps) where
  -- the filter of `buildLeaderboardEntries`
  abbrev pub counts_for : String → Submission F → Bool
  counts_for contest_id s =
      is_completed s.status
      && (str_eq contest_id "" || (str_eq s.contest_id "" || str_eq s.contest_id contest_id))

  pub record Tick : Type 0 where
    pub now : ℕ
    pub stats_now : ℕ
    pub closing_now : ℕ
    pub submissions : Option (List (Submission F))
    pub queue : QueuePoll
    pub workers : Option Workers

  module _
      (sort_slice : (LeaderboardEntry F → LeaderboardEntry F → Bool)
        → List (LeaderboardEntry F)
        → List (LeaderboardEntry F))
      (range : Dict (Candidate F) → List (String × Candidate F)) where
    -- a store that cannot be listed gives no entries
    unfoldable pub build_leaderboard_entries :
        Option (List (Submission F)) → String → List (LeaderboardEntry F)
    build_leaderboard_entries none contest_id = []
    build_leaderboard_entries (some all) contest_id =
        build_deduped_leaderboard F sort_slice range (keep_if (counts_for contest_id) all)

    abbrev pub close_with_entries : Bool → Store F → Tick → Contest F → CloseResult F sort_slice
    close_with_entries has_bus s t active =
        close F sort_slice has_bus s t.closing_now active.id
          (build_leaderboard_entries t.submissions active.id)

    abbrev pub untouched : Store F → CloseResult F sort_slice
    untouched s = record { store = s; error = none; events = [] }

    -- the second test of the tick
    abbrev pub force_close : Bool → Store F → Tick → Contest F → CloseResult F sort_slice
    force_close has_bus s t active =
        if is_after t.now active.ends_at then close_with_entries has_bus s t active else untouched s

    unfoldable pub tick_active :
        Bool → Store F → Tick → Contest F → CloseResult F sort_slice × Option Workers
    tick_active has_bus s t active =
        let (ws, is_busy) = workers_are_still_busy t.workers t.stats_now in
        if is_after t.now active.submissions_closed_at && queue_drained t.queue
        then (
          (if not is_busy
              then close_with_entries has_bus s t active
              else force_close has_bus s t active),
          ws,
        )
        else (force_close has_bus s t active, t.workers)

    -- The error of a `Close` is only logged.
    unfoldable pub tick_auto_close :
        Bool → Store F → Tick → CloseResult F sort_slice × Option Workers
    tick_auto_close has_bus s t = elim (get_active F s) [
      | err e ↦ (untouched s, t.workers)
      | ok active ↦ tick_active has_bus s t active
    ]

    -- The administrator's call: here only the submissions of the contest itself count.
    abbrev pub of_contest : String → Submission F → Bool
    of_contest id sub = str_eq sub.contest_id id

    abbrev pub own_entries : Option (List (Submission F)) → String → List (LeaderboardEntry F)
    own_entries none id = []
    own_entries (some subs) id =
        build_deduped_leaderboard F sort_slice range (keep_if (of_contest id) subs)

    unfoldable pub close_contest :
        Bool → Store F → ℕ → String → Option (List (Submission F)) → CloseResult F sort_slice
    close_contest has_bus s now id listed =
        close F sort_slice has_bus s now id (own_entries listed id)
