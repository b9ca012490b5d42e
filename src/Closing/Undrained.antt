-- ===== src/Closing/Undrained.antt =====
-- `SubmissionsClosedAt` is never set by internal/contest/service.go, so that the first test of
-- `tickAutoClose` (cmd/server/main.go) never holds.
use nexus_bench.Base.{
  ℕ, ◌≡◌, refl, ap, ◌∙◌, String, Bool, none, some, List, [], ◌∷◌, arith, inl, inr, sym,
  if◌then◌else◌,
}
use nexus_bench.Base.Dict.{Dict, get, get-put}
use nexus_bench.Base.Float.{FloatOps}
use nexus_bench.Models.{Contest, LeaderboardEntry}
use nexus_bench.Contest.Store.{
  MemoryContestStore, ok, get_active, new_memory_contest_store, snapshot_leaderboard,
}
use nexus_bench.Contest.Service.{CreateContestRequest, create, activate, close, new_contest}
use nexus_bench.Contest.Legal.{IsLegal, new_memory_contest_store-IsLegal}
use nexus_bench.Contest.Lifecycle.{
  Call, creates, activates_at, closes_at, step, run, write, activate_outcome, close_outcome,
  another_active, missing, not_draft, activates, no_contest, never_active, already_closed, closes,
}
use nexus_bench.Contest.Evolution.{create_outcome, save_outcome, step-Evolves}
use nexus_bench.Leaderboard.{Candidate}
use nexus_bench.Closing.{Tick, is_after, untouched}
use nexus_bench.Closing.Due.{active_under_own_id, after_tick, closed_by, tick_due, tick_due-closes}

module _ (F : FloatOps) where
  -- No contest has a time at which its submissions were closed.
  abbrev pub IsOpen : MemoryContestStore F → Type 0
  IsOpen s =
      (id : String) (c : Contest F) → get id s.contests ≡ some c → c.submissions_closed_at ≡ none

  write-IsOpen :
      (s : MemoryContestStore F) (id : String) (c : Contest F)
      → c.submissions_closed_at ≡ none
      → IsOpen s
      → IsOpen (write F s id c)
  write-IsOpen s id c n h j d e = ground (arith, n, e, h j d, get-put id j c s.contests)

  module _
      (sort_slice : (LeaderboardEntry F → LeaderboardEntry F → Bool)
        → List (LeaderboardEntry F)
        → List (LeaderboardEntry F)) where
    create-IsOpen :
        (s : MemoryContestStore F) (now : ℕ) (id : String) (req : CreateContestRequest F)
        → IsOpen s
        → IsOpen (create F s now id req).0
    unfolding new_contest
    create-IsOpen s now id req h = elim (create_outcome F s now id req) [
      | inl e ↦ rw e h
      | inr (s', e, k) ↦ rw k (λ j d x.
          let c = new_contest F now id req in
          write-IsOpen s id c refl h j d (sym (ap (get j) (save_outcome F s c s' e).1) ∙ x))
    ]

    activate-IsOpen :
        (s : MemoryContestStore F) (now : ℕ) (id : String)
        → IsLegal F s
        → IsOpen s
        → IsOpen (activate F s now id).0
    activate-IsOpen s now id v h = elim (activate_outcome F s now id v) [
      | another_active c f e ↦ rw e h
      | missing n k e ↦ rw e h
      | not_draft c n k d e ↦ rw e h
      | activates c n k d e ↦ rw e (write-IsOpen s id _ (h id c k) h)
    ]

    close-IsOpen :
        (has_bus : Bool) (s : MemoryContestStore F) (now : ℕ) (id : String)
        (entries : List (LeaderboardEntry F))
        → IsLegal F s
        → IsOpen s
        → IsOpen (close F sort_slice has_bus s now id entries).store
    unfolding snapshot_leaderboard
    close-IsOpen has_bus s now id entries v h =
        elim (close_outcome F sort_slice has_bus s now id entries v) [
          | no_contest k e ↦ rw e h
          | never_active c k d e ↦ rw e h
          | already_closed c k d e ↦ rw e h
          | closes c k d e ↦ rw e (write-IsOpen s id _ (h id c k) h)
        ]

    step-IsOpen :
        (s : MemoryContestStore F) (c : Call F sort_slice)
        → IsLegal F s
        → IsOpen s
        → IsOpen (step F sort_slice s c)
    step-IsOpen s (creates now id req) v h = create-IsOpen s now id req h
    step-IsOpen s (activates_at now id) v h = activate-IsOpen s now id v h
    step-IsOpen s (closes_at has_bus now id entries) v h = close-IsOpen has_bus s now id entries v h

    run-both :
        (s : MemoryContestStore F) (cs : List (Call F sort_slice))
        → IsLegal F s
        → IsOpen s
        → IsLegal F (run F sort_slice s cs) × IsOpen (run F sort_slice s cs)
    unfolding run
    run-both s [] v h = (v, h)
    run-both s (c ∷ cs) v h =
        run-both (step F sort_slice s c) cs (step-Evolves F sort_slice s c v).0
          (step-IsOpen s c v h)

    -- After any calls of the contest service from an empty store, a tick closes the active contest if
    -- its end has passed and leaves everything else as it is, whatever the queue and the workers are: the
    -- drained queue never closes a contest, and a contest without an end is never closed by a tick.
    pub tick_auto_close-run :
        (range : Dict (Candidate F) → List (String × Candidate F)) (has_bus : Bool)
        (cs : List (Call F sort_slice)) (t : Tick F) (c : Contest F)
        → get_active F (run F sort_slice (new_memory_contest_store F) cs) ≡ ok c
        → let s = run F sort_slice (new_memory_contest_store F) cs in
          after_tick F sort_slice range has_bus s t ≡ (
            if is_after t.now c.ends_at
            then closed_by F sort_slice range has_bus s t c
            else untouched F sort_slice range s)
    unfolding new_memory_contest_store get
    tick_auto_close-run range has_bus cs t c e =
        let s = run F sort_slice (new_memory_contest_store F) cs in
        let (v, h) =
          run-both (new_memory_contest_store F) cs (new_memory_contest_store-IsLegal F)
            (λ id c k. cc) in
        let unset = h c.id c (active_under_own_id F sort_slice range s c v e).0 in
        ground (
          arith,
          unset,
          tick_due F sort_slice range has_bus s t c e,
          tick_due-closes F sort_slice range has_bus s t c v e,
        )
