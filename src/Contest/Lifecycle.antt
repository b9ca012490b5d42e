-- ===== src/Contest/Lifecycle.antt =====
-- The state machine of internal/contest/service.go: what `Activate` and `Close` do on every branch,
-- and what any sequence of calls keeps.
use nexus_bench.Base.{
  ℕ, ◌≡◌, ◌≢◌, ◌⊎◌, refl, String, Bool, none, some, List, [], ◌∷◌, arith, inl, inr, Option-cases,
}
use nexus_bench.Base.Dict.{get, put}
use nexus_bench.Base.Float.{FloatOps}
use nexus_bench.Models.{Contest, LeaderboardEntry, draft, active, closed}
use nexus_bench.Contest.Store.{
  ContestError, Result, ok, err, not_found, already_active, wrong_status, MemoryContestStore,
  get_contest, get_active, update, snapshot_leaderboard,
}
use nexus_bench.Contest.Service.{
  CreateContestRequest, LeaderboardEvent, create, activate, activate_found, activated, close,
  closed_at, rank_entries, broadcast, frozen, refuse_close,
}
use nexus_bench.Contest.Legal.{IsLegal, status-cases, FoundActive, get_active-some, get_active-none}

pub Result-cases {ℓ} :
    {A : Type ℓ} (r : Result A) → ((a : A) × (r ≡ ok a)) ⊎ ((e : ContestError) × (r ≡ err e))
Result-cases (ok a) = inl (a, refl)
Result-cases (err e) = inr (e, refl)

module _ (F : FloatOps) where
  abbrev pub write : MemoryContestStore F → String → Contest F → MemoryContestStore F
  write s id c = record s { contests = put id c s.contests }

  abbrev pub NoneActive : MemoryContestStore F → Type 0
  NoneActive s = (id : String) (c : Contest F) → get id s.contests ≡ some c → c.status ≢ active

  -- The four ways an `Activate` can end. Only the last one writes.
  pub data ActivateOutcome (s : MemoryContestStore F) (now : ℕ) (id : String) : Type 0 where
    another_active :
        (c : Contest F)
        → FoundActive F s.contests c
        → activate F s now id ≡ (s, err already_active)
        → ActivateOutcome s now id
    missing :
        NoneActive s
        → get id s.contests ≡ none
        → activate F s now id ≡ (s, err not_found)
        → ActivateOutcome s now id
    not_draft :
        (c : Contest F)
        → NoneActive s
        → get id s.contests ≡ some c
        → c.status ≡ closed
        → activate F s now id ≡ (s, err wrong_status)
        → ActivateOutcome s now id
    activates :
        (c : Contest F)
        → NoneActive s
        → get id s.contests ≡ some c
        → c.status ≡ draft
        → activate F s now id ≡ (write s id (activated F now c), ok (activated F now c))
        → ActivateOutcome s now id

  -- Every `Activate` on a legal store ends in one of these ways: an active contest refuses it, an
  -- unknown ID or a closed contest is reported, and a draft becomes active.
  pub activate_outcome :
      (s : MemoryContestStore F) (now : ℕ) (id : String) → IsLegal F s → ActivateOutcome s now id
  unfolding activate activate_found get_contest update
  activate_outcome s now id v = elim (Result-cases (get_active F s)) [
    | inl (c, e) ↦ another_active c (get_active-some F s c v e) (ground (arith, e))
    | inr (x, e) ↦
        let none_active : NoneActive s = get_active-none F s x e in
        elim (Option-cases (get id s.contests)) [
          | inl k ↦ missing none_active k (ground (arith, e, k))
          | inr (c, k) ↦
              let own = v.own_id id c k in
              elim (status-cases c.status) [
                | inl a ↦ absurd (none_active id c k a)
                | inr (inl a) ↦ activates c none_active k a (ground (arith, e, k, a, own))
                | inr (inr a) ↦ not_draft c none_active k a (ground (arith, e, k, a))
              ]
        ]
  ]

  module _
      (sort_slice : (LeaderboardEntry F → LeaderboardEntry F → Bool)
        → List (LeaderboardEntry F)
        → List (LeaderboardEntry F)) where
    -- the event and the store that closing `c` makes
    abbrev pub frozen_event : String → Contest F → List (LeaderboardEntry F) → LeaderboardEvent F
    frozen_event id c entries = record {
      type = frozen;
      contest_id = id;
      contest_name = c.name;
      entries = rank_entries F sort_slice entries;
    }

    abbrev pub closed_store :
        MemoryContestStore F
        → ℕ
        → String
        → Contest F
        → List (LeaderboardEntry F)
        → MemoryContestStore F
    closed_store s now id c entries =
        snapshot_leaderboard F (write s id (closed_at F sort_slice now c)) id
          (rank_entries F sort_slice entries)

    -- The four ways a `Close` can end: what it leaves in the store, returns and broadcasts.
    pub data CloseOutcome (has_bus : Bool) (s : MemoryContestStore F) (now : ℕ) (id : String)
        (entries : List (LeaderboardEntry F)) : Type 0 where
      no_contest :
          get id s.contests ≡ none
          → close F sort_slice has_bus s now id entries ≡ refuse_close F sort_slice s not_found
          → CloseOutcome has_bus s now id entries
      never_active :
          (c : Contest F)
          → get id s.contests ≡ some c
          → c.status ≡ draft
          → close F sort_slice has_bus s now id entries ≡ refuse_close F sort_slice s wrong_status
          → CloseOutcome has_bus s now id entries
      already_closed :
          (c : Contest F)
          → get id s.contests ≡ some c
          → c.status ≡ closed
          → close F sort_slice has_bus s now id entries
            ≡ record { store = s; error = none; events = [] }
          → CloseOutcome has_bus s now id entries
      closes :
          (c : Contest F)
          → get id s.contests ≡ some c
          → c.status ≡ active
          → close F sort_slice has_bus s now id entries ≡ record {
            store = closed_store s now id c entries;
            error = none;
            events = broadcast F sort_slice has_bus (frozen_event id c entries);
          }
          → CloseOutcome has_bus s now id entries

    -- Every `Close` on a legal store ends in one of these ways: an unknown ID and a draft are
    -- reported, a closed contest is left alone with no event, and an active contest is closed, its
    -- ranked leaderboard
    -- archived, and broadcast once if there is a bus.
    pub close_outcome :
        (has_bus : Bool) (s : MemoryContestStore F) (now : ℕ) (id : String)
        (entries : List (LeaderboardEntry F))
        → IsLegal F s
        → CloseOutcome has_bus s now id entries
    unfolding close get_contest update
    close_outcome has_bus s now id entries v = elim (Option-cases (get id s.contests)) [
      | inl k ↦ no_contest k (ground (arith, k))
      | inr (c, k) ↦
          let own = v.own_id id c k in
          elim (status-cases c.status) [
            | inl a ↦ closes c k a (ground (arith, k, a, own))
            | inr (inl a) ↦ never_active c k a (ground (arith, k, a))
            | inr (inr a) ↦ already_closed c k a (ground (arith, k, a))
          ]
    ]

    -- The calls that write, each with its clock.
    pub data Call : Type 0 where
      creates : ℕ → String → CreateContestRequest F → Call
      activates_at : ℕ → String → Call
      closes_at : Bool → ℕ → String → List (LeaderboardEntry F) → Call

    abbrev pub step : MemoryContestStore F → Call → MemoryContestStore F
    step s (creates now id req) = (create F s now id req).0
    step s (activates_at now id) = (activate F s now id).0
    step s (closes_at has_bus now id entries) = (close F sort_slice has_bus s now id entries).store

    unfoldable pub run : MemoryContestStore F → List Call → MemoryContestStore F
    run s [] = s
    run s (c ∷ cs) = run (step s c) cs
