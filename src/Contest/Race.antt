-- ===== src/Contest/Race.antt =====
-- Two goroutines in `Activate` of internal/contest/service.go. Each call of the store runs under its
-- mutex; between two such calls the other goroutine may run.
use nexus_bench.Base.{
  ℕ, ◌≡◌, ◌≢◌, refl, String, Bool, true, false, some, List, [], ◌∷◌, arith, eq_iff,
}
use nexus_bench.Base.Dict.{get, put, get-put}
use nexus_bench.Base.Float.{FloatOps}
use nexus_bench.Models.{Contest, draft, active, closed}
use nexus_bench.Contest.Store.{
  Result, ok, err, already_active, no_active_contest, wrong_status, MemoryContestStore, get_contest,
  get_active, update,
}
use nexus_bench.Contest.Service.{activated}
use nexus_bench.Contest.Legal.{IsLegal}

module _ (F : FloatOps) where
  -- A goroutine in `Activate`, by the store call that it makes next.
  pub data Thread : Type 0 where
    to_check : String → Thread
    to_get : String → Thread
    to_update : Contest F → Thread
    returned : Result (Contest F) → Thread

  checked : String → Result (Contest F) → Thread
  checked id (ok c) = returned (err already_active)
  checked id (err e) = to_get id

  fetched : ℕ → Result (Contest F) → Thread
  fetched now (err e) = returned (err e)
  fetched now (ok c) = elim c.status [
    | draft ↦ to_update (activated F now c)
    | active ↦ returned (err wrong_status)
    | closed ↦ returned (err wrong_status)
  ]

  stored :
      MemoryContestStore F
      → Contest F
      → Result (MemoryContestStore F)
      → MemoryContestStore F × Thread
  stored s c (ok s') = (s', returned (ok c))
  stored s c (err e) = (s, returned (err e))

  -- One store call and what the goroutine does with its result.
  unfoldable pub thread_step : ℕ → MemoryContestStore F → Thread → MemoryContestStore F × Thread
  unfolding checked fetched stored
  thread_step now s (to_check id) = (s, checked id (get_active F s))
  thread_step now s (to_get id) = (s, fetched now (get_contest F s id))
  thread_step now s (to_update c) = stored s c (update F s c)
  thread_step now s (returned r) = (s, returned r)

  pub record Pair : Type 0 where
    pub store : MemoryContestStore F
    pub first : Thread
    pub second : Thread

  -- `true` lets the first goroutine make its next call, `false` the second.
  unfoldable pub run_pair : ℕ → List Bool → Pair → Pair
  run_pair now [] p = p
  run_pair now (true ∷ turns) p =
      let (s, t) = thread_step now p.store p.first in
      run_pair now turns (record p { store = s; first = t })
  run_pair now (false ∷ turns) p =
      let (s, t) = thread_step now p.store p.second in
      run_pair now turns (record p { store = s; second = t })

  -- The goroutines take turns, so both check before either has written.
  abbrev pub in_turns : List Bool
  in_turns = true ∷ false ∷ true ∷ false ∷ true ∷ false ∷ []

  abbrev pub both_start : MemoryContestStore F → String → String → Pair
  both_start s i j = record { store = s; first = to_check i; second = to_check j }

  race_store :
      (now : ℕ) (s : MemoryContestStore F) (i j : String) (c d : Contest F)
      → i ≢ j
      → IsLegal F s
      → get_active F s ≡ err no_active_contest
      → get i s.contests ≡ some c
      → get j s.contests ≡ some d
      → c.status ≡ draft
      → d.status ≡ draft
      → let p = run_pair now in_turns (both_start s i j) in
        (p.first ≡ returned (ok (activated F now c)))
        × (p.second ≡ returned (ok (activated F now d)))
        × (get i p.store.contests ≡ some (activated F now c))
        × (get j p.store.contests ≡ some (activated F now d))
  unfolding run_pair thread_step get_contest update
  race_store now s i j c d ne v free ci dj a b =
      let own_c = v.own_id i c ci in
      let own_d = v.own_id j d dj in
      ground (
        arith,
        ne,
        free,
        ci,
        dj,
        a,
        b,
        own_c,
        own_d,
        eq_iff i j,
        eq_iff j i,
        eq_iff i i,
        eq_iff j j,
        get-put i j (activated F now c) s.contests,
        get-put i i (activated F now c) s.contests,
        get-put j i (activated F now d) (put i (activated F now c) s.contests),
        get-put j j (activated F now d) (put i (activated F now c) s.contests),
      )

  -- From any legal store with no active contest and two drafts, two goroutines that take turns both
  -- return success and leave both contests active in the store, which is then not legal.
  pub activate_race :
      (now : ℕ) (s : MemoryContestStore F) (i j : String) (c d : Contest F)
      → i ≢ j
      → IsLegal F s
      → get_active F s ≡ err no_active_contest
      → get i s.contests ≡ some c
      → get j s.contests ≡ some d
      → c.status ≡ draft
      → d.status ≡ draft
      → let p = run_pair now in_turns (both_start s i j) in
        (p.first ≡ returned (ok (activated F now c)))
        × (p.second ≡ returned (ok (activated F now d)))
        × (get i p.store.contests ≡ some (activated F now c))
        × (get j p.store.contests ≡ some (activated F now d))
        × (¬ IsLegal F p.store)
  activate_race now s i j c d ne v free ci dj a b =
      let (x, y, z, w) = race_store now s i j c d ne v free ci dj a b in
      (x, y, z, w, λ u. ne (u.one_active i j (activated F now c) (activated F now d) z w refl refl))
