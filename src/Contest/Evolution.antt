-- ===== src/Contest/Evolution.antt =====
-- What every sequence of calls of internal/contest/service.go keeps.
use nexus_bench.Base.{
  ℕ, ◌≡◌, ◌⊎◌, refl, subst, String, Bool, Option, none, some, List, [], ◌∷◌, arith, str_eq, eq_iff,
  inl, inr, Bool-cases, not, ◌&&◌,
}
use nexus_bench.Base.Dict.{get, put, get-put}
use nexus_bench.Base.Float.{FloatOps}
use nexus_bench.Models.{Contest, ContestStatus, LeaderboardEntry, draft, active, closed}
use nexus_bench.Contest.Store.{ok, MemoryContestStore, save, update, snapshot_leaderboard}
use nexus_bench.Contest.Service.{
  CreateContestRequest, create, new_contest, activate, activated, close, closed_at, has_all,
}
use nexus_bench.Contest.Legal.{IsLegal, save-IsLegal, update-IsLegal}
use nexus_bench.Contest.Lifecycle.{
  write, NoneActive, activate_outcome, close_outcome, Call, creates, activates_at, closes_at, step,
  run, Result-cases, another_active, missing, not_draft, activates, no_contest, never_active,
  already_closed, closes,
}

-- A contest stays where it is, or takes one step: draft to active, active to closed.
abbrev pub Advances : ContestStatus → ContestStatus → Type 0
Advances s t = (s ≡ t) ⊎ (((s ≡ draft) × (t ≡ active)) ⊎ ((s ≡ active) × (t ≡ closed)))

module _ (F : FloatOps) where
  -- All that an administrator chose: a contest without its lifecycle fields.
  abbrev pub settings : Contest F → Contest F
  settings c = record c { status = draft; contest_closed_at = none; updated_at = 0 }

  -- What a call may do to the contest under one ID: nothing disappears, a new one is a draft, and
  -- an old one advances with its settings unchanged.
  abbrev pub Evolves : Option (Contest F) → Option (Contest F) → Type 0
  Evolves none none = Unit
  Evolves none (some d) = d.status ≡ draft
  Evolves (some c) none = ⊥
  Evolves (some c) (some d) = Advances c.status d.status × (settings d ≡ settings c)

  Evolves-refl : (o : Option (Contest F)) → Evolves o o
  Evolves-refl none = tt
  Evolves-refl (some c) = (inl refl, refl)

  -- One write under `id` evolves every ID, if it evolves that one.
  write-Evolves :
      (s : MemoryContestStore F) (id : String) (d : Contest F) (j : String)
      → Evolves (get id s.contests) (some d)
      → Evolves (get j s.contests) (get j (write F s id d).contests)
  write-Evolves s id d j h = elim (Bool-cases (str_eq id j)) [
    | inl e ↦
        rw (get-put id j d s.contests, e)
          (subst (λ x. Evolves (get x s.contests) (some d)) ((eq_iff id j).0 e) h)
    | inr e ↦ rw (get-put id j d s.contests, e) (Evolves-refl (get j s.contests))
  ]

  pub save_outcome :
      (s : MemoryContestStore F) (c : Contest F) (s' : MemoryContestStore F)
      → save F s c ≡ ok s'
      → (get c.id s.contests ≡ none) × (s'.contests ≡ put c.id c s.contests)
  unfolding save
  save_outcome s c s' e = ground arith

  pub create_outcome :
      (s : MemoryContestStore F) (now : ℕ) (id : String) (req : CreateContestRequest F)
      → ((create F s now id req).0 ≡ s)
        ⊎ ((s' : MemoryContestStore F) × (save F s (new_contest F now id req) ≡ ok s')
            × ((create F s now id req).0 ≡ s'))
  unfolding create
  create_outcome s now id req = elim (Result-cases (save F s (new_contest F now id req))) [
    | inl (s', e) ↦ elim (Bool-cases (str_eq req.name "")) [
      | inl a ↦ inl (rw a refl)
      | inr a ↦
          let short =
            not req.use_defaults
            && not (has_all req.low_profile req.medium_profile req.high_profile) in
          elim (Bool-cases short) [
            | inl b ↦ inl (rw (a, b) refl)
            | inr b ↦ inr (s', e, rw (a, b, e) refl)
          ]
    ]
    | inr (x, e) ↦ inl (ground (arith, e))
  ]

  write-IsLegal :
      (s : MemoryContestStore F) (id : String) (c d : Contest F)
      → get id s.contests ≡ some c
      → d.id ≡ id
      → (d.status ≡ active → NoneActive F s)
      → IsLegal F s
      → IsLegal F (write F s id d)
  unfolding update
  write-IsLegal s id c d e own alone v =
      update-IsLegal F s (write F s id d) d (λ a j x k b. absurd (alone a j x k b))
        (ground (arith, e, own)) v

  snapshot-IsLegal :
      (s : MemoryContestStore F) (id : String) (entries : List (LeaderboardEntry F))
      → IsLegal F s
      → IsLegal F (snapshot_leaderboard F s id entries)
  unfolding snapshot_leaderboard
  snapshot-IsLegal s id entries v = record {
    own_id = v.own_id;
    one_active = v.one_active;
    listed_once = v.listed_once;
    stored_once = v.stored_once;
  }

  module _
      (sort_slice : (LeaderboardEntry F → LeaderboardEntry F → Bool)
        → List (LeaderboardEntry F)
        → List (LeaderboardEntry F)) where
    create-both :
        (s : MemoryContestStore F) (now : ℕ) (id : String) (req : CreateContestRequest F)
        → IsLegal F s
        → IsLegal F (create F s now id req).0
          × ((j : String) → Evolves (get j s.contests) (get j (create F s now id req).0.contests))
    unfolding new_contest
    create-both s now id req v = elim (create_outcome s now id req) [
      | inl e ↦ rw e (v, λ j. Evolves-refl (get j s.contests))
      | inr (s', e, k) ↦
          let c = new_contest F now id req in
          let (free, new) = save_outcome s c s' e in
          rw k (save-IsLegal F s s' c refl e v, λ j. rw new (write-Evolves s id c j (rw free refl)))
    ]

    activate-both :
        (s : MemoryContestStore F) (now : ℕ) (id : String)
        → IsLegal F s
        → IsLegal F (activate F s now id).0
          × ((j : String) → Evolves (get j s.contests) (get j (activate F s now id).0.contests))
    activate-both s now id v = elim (activate_outcome F s now id v) [
      | another_active c f e ↦ rw e (v, λ j. Evolves-refl (get j s.contests))
      | missing n k e ↦ rw e (v, λ j. Evolves-refl (get j s.contests))
      | not_draft c n k d e ↦ rw e (v, λ j. Evolves-refl (get j s.contests))
      | activates c n k d e ↦ rw e (
        write-IsLegal s id c (activated F now c) k (v.own_id id c k) (λ _. n) v,
        λ j. write-Evolves s id (activated F now c) j (rw k (inr (inl (d, refl)), refl)),
      )
    ]

    close-both :
        (has_bus : Bool) (s : MemoryContestStore F) (now : ℕ) (id : String)
        (entries : List (LeaderboardEntry F))
        → IsLegal F s
        → let t = (close F sort_slice has_bus s now id entries).store in
          IsLegal F t × ((j : String) → Evolves (get j s.contests) (get j t.contests))
    unfolding snapshot_leaderboard
    close-both has_bus s now id entries v =
        elim (close_outcome F sort_slice has_bus s now id entries v) [
          | no_contest k e ↦ rw e (v, λ j. Evolves-refl (get j s.contests))
          | never_active c k d e ↦ rw e (v, λ j. Evolves-refl (get j s.contests))
          | already_closed c k d e ↦ rw e (v, λ j. Evolves-refl (get j s.contests))
          | closes c k d e ↦
              let c' = closed_at F sort_slice now c in
              rw e (
                snapshot-IsLegal (write F s id c') id _
                    (write-IsLegal s id c c' k (v.own_id id c k) (λ a. cc) v),
                λ j. write-Evolves s id c' j (rw k (inr (inr (d, refl)), refl)),
              )
        ]

    -- Every call, whether it succeeds or fails, keeps a legal store legal: at most one contest is
    -- active, contests stand under their own IDs, and each is listed once. Under every ID nothing
    -- disappears, a new contest is a draft, and an old one keeps its settings and its status or
    -- moves from draft to active or from active to closed.
    pub step-Evolves :
        (s : MemoryContestStore F) (c : Call F sort_slice)
        → IsLegal F s
        → IsLegal F (step F sort_slice s c)
          × ((j : String) → Evolves (get j s.contests) (get j (step F sort_slice s c).contests))
    step-Evolves s (creates now id req) v = create-both s now id req v
    step-Evolves s (activates_at now id) v = activate-both s now id v
    step-Evolves s (closes_at has_bus now id entries) v = close-both has_bus s now id entries v

    -- So the store is legal after any calls from an empty one.
    pub run-IsLegal :
        (s : MemoryContestStore F) (cs : List (Call F sort_slice))
        → IsLegal F s
        → IsLegal F (run F sort_slice s cs)
    unfolding run
    run-IsLegal s [] v = v
    run-IsLegal s (c ∷ cs) v = run-IsLegal (step F sort_slice s c) cs (step-Evolves s c v).0
