-- ===== src/Closing/Due.antt =====
-- When a tick of the loop `runContestAutoClose` (cmd/server/main.go) closes a contest.
use nexus_bench.Base.{
  ℕ, ◌≡◌, refl, String, Bool, true, ◌&&◌, ◌||◌, not, Option, none, some, List, ltb, arith, ◌∙◌, sym,
  subst, if◌then◌else◌,
}
use nexus_bench.Base.Dict.{Dict, get}
use nexus_bench.Base.Float.{FloatOps}
use nexus_bench.Models.{Contest, LeaderboardEntry, active}
use nexus_bench.Contest.Store.{ContestError, ok, err, get_active, get_contest, update}
use nexus_bench.Contest.Service.{Store, CloseResult, close, broadcast}
use nexus_bench.Contest.Legal.{IsLegal, get_active-some}
use nexus_bench.Contest.Lifecycle.{closed_store, frozen_event}
use nexus_bench.Leaderboard.{Candidate}
use nexus_bench.Registry.{Workers}
use nexus_bench.Registry.Sweep.{how_many, live_busy, stats_lem}
use nexus_bench.Closing.{
  Tick, build_leaderboard_entries, close_with_entries, is_after, queue_drained, tick_active,
  tick_auto_close, untouched, workers_are_still_busy,
}

-- No worker within its TTL says that it is busy.
abbrev pub no_live_busy : Option Workers → ℕ → Bool
no_live_busy none now = true
no_live_busy (some ws) now = not (ltb 0 (how_many (live_busy now) ws))

workers_are_still_busy_lem :
    (o : Option Workers) (now : ℕ) → (workers_are_still_busy o now).1 ≡ not (no_live_busy o now)
unfolding workers_are_still_busy
workers_are_still_busy_lem none now = refl
workers_are_still_busy_lem (some ws) now = ground (arith, stats_lem ws now)

module _ (F : FloatOps) where
  -- Submissions are closed, the queue is empty and no live worker is busy; or the end has passed.
  abbrev pub is_due : Contest F → Tick F → Bool
  is_due c t =
      (is_after t.now c.submissions_closed_at
        && (queue_drained t.queue && no_live_busy t.workers t.stats_now))
      || is_after t.now c.ends_at

  module _
      (sort_slice : (LeaderboardEntry F → LeaderboardEntry F → Bool)
        → List (LeaderboardEntry F)
        → List (LeaderboardEntry F))
      (range : Dict (Candidate F) → List (String × Candidate F)) where
    abbrev pub after_tick : Bool → Store F → Tick F → CloseResult F sort_slice
    after_tick has_bus s t = (tick_auto_close F sort_slice range has_bus s t).0

    pub tick_due :
        (has_bus : Bool) (s : Store F) (t : Tick F) (c : Contest F)
        → get_active F s ≡ ok c
        → after_tick has_bus s t ≡ (
            if is_due c t
            then close_with_entries F sort_slice range has_bus s t c
            else untouched F sort_slice range s)
    unfolding tick_auto_close tick_active
    tick_due has_bus s t c e = ground (arith, e, workers_are_still_busy_lem t.workers t.stats_now)

    pub tick_idle :
        (has_bus : Bool) (s : Store F) (t : Tick F) (x : ContestError)
        → get_active F s ≡ err x
        → after_tick has_bus s t ≡ untouched F sort_slice range s
    unfolding tick_auto_close
    tick_idle has_bus s t x e = ground (arith, e)

    pub active_under_own_id :
        (s : Store F) (c : Contest F)
        → IsLegal F s
        → get_active F s ≡ ok c
        → (get c.id s.contests ≡ some c) × (c.status ≡ active)
    active_under_own_id s c v e =
        let (id, f, a) = get_active-some F s c v e in
        (subst (λ (x : String). get x s.contests ≡ some c) (sym (v.own_id id c f)) f, a)

    close_active :
        (has_bus : Bool) (s : Store F) (now : ℕ) (c : Contest F)
        (entries : List (LeaderboardEntry F))
        → get c.id s.contests ≡ some c
        → c.status ≡ active
        → close F sort_slice has_bus s now c.id entries ≡ record {
          store = closed_store F sort_slice s now c.id c entries;
          error = none;
          events = broadcast F sort_slice has_bus (frozen_event F sort_slice c.id c entries);
        }
    unfolding close get_contest update
    close_active has_bus s now c entries e a = ground (arith, e, a)

    -- The result of a tick that is due.
    abbrev pub closed_by : Bool → Store F → Tick F → Contest F → CloseResult F sort_slice
    closed_by has_bus s t c =
        let entries = build_leaderboard_entries F sort_slice range t.submissions c.id in
        record {
          store = closed_store F sort_slice s t.closing_now c.id c entries;
          error = none;
          events = broadcast F sort_slice has_bus (frozen_event F sort_slice c.id c entries);
        }

    pub tick_due-closes :
        (has_bus : Bool) (s : Store F) (t : Tick F) (c : Contest F)
        → IsLegal F s
        → get_active F s ≡ ok c
        → is_due c t ≡ true
        → after_tick has_bus s t ≡ closed_by has_bus s t c
    tick_due-closes has_bus s t c v e d =
        let (f, a) = active_under_own_id s c v e in
        tick_due has_bus s t c e ∙ rw d (close_active has_bus s t.closing_now c _ f a)
