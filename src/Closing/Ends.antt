-- ===== src/Closing/Ends.antt =====
-- That the loop `runContestAutoClose` (cmd/server/main.go) ends a contest.
use nexus_bench.Base.{
  ◌≡◌, refl, ap, ◌∙◌, ◌⊎◌, inl, inr, String, eq_iff, Bool, true, false, Option, none, some, List,
  [], ◌∷◌, arith, sym, subst, Bool-cases, if◌then◌else◌,
}
use nexus_bench.Base.Dict.{Dict, get, get-put}
use nexus_bench.Base.Float.{FloatOps}
use nexus_bench.Models.{Contest, LeaderboardEntry, closed}
use nexus_bench.Contest.Store.{ok, get_active, snapshot_leaderboard}
use nexus_bench.Contest.Service.{CloseResult, Store, closed_at}
use nexus_bench.Contest.Legal.{IsLegal}
use nexus_bench.Contest.Lifecycle.{Result-cases, Call, closes_at, step}
use nexus_bench.Contest.Evolution.{Evolves, step-Evolves}
use nexus_bench.Leaderboard.{Candidate}
use nexus_bench.Closing.{close_with_entries, untouched, Tick, build_leaderboard_entries}
use nexus_bench.Closing.Due.{after_tick, closed_by, is_due, tick_idle, tick_due, tick_due-closes}

module _ (F : FloatOps)
    (sort_slice : (LeaderboardEntry F → LeaderboardEntry F → Bool)
      → List (LeaderboardEntry F)
      → List (LeaderboardEntry F))
    (range : Dict (Candidate F) → List (String × Candidate F)) (has_bus : Bool) where
  abbrev next_store : Store F → Tick F → Store F
  next_store s t = (after_tick F sort_slice range has_bus s t).store

  -- The loop over its ticks.
  unfoldable pub run_ticks : Store F → List (Tick F) → Store F
  run_ticks s [] = s
  run_ticks s (t ∷ ts) = run_ticks (next_store s t) ts

  tick_stays :
      (s : Store F) (t : Tick F) (c : Contest F)
      → get_active F s ≡ ok c
      → is_due F c t ≡ false
      → next_store s t ≡ s
  tick_stays s t c e d =
      ap (λ (r : CloseResult F sort_slice). r.store)
        (tick_due F sort_slice range has_bus s t c e
          ∙ subst
              (λ x.
                (if x
                  then close_with_entries F sort_slice range has_bus s t c
                  else untouched F sort_slice range s)
                ≡ untouched F sort_slice range s)
              (sym d) refl)

  tick_closes :
      (s : Store F) (t : Tick F) (c : Contest F)
      → IsLegal F s
      → get_active F s ≡ ok c
      → is_due F c t ≡ true
      → next_store s t ≡ (closed_by F sort_slice range has_bus s t c).store
  tick_closes s t c v e d =
      ap (λ (r : CloseResult F sort_slice). r.store)
        (tick_due-closes F sort_slice range has_bus s t c v e d)

  -- A tick leaves the store alone or closes one contest.
  tick-calls :
      (s : Store F) (t : Tick F)
      → (next_store s t ≡ s) ⊎ ((c : Call F sort_slice) × (next_store s t ≡ step F sort_slice s c))
  tick-calls s t = elim (Result-cases (get_active F s)) [
    | inr (x, e) ↦ inl (
        ap (λ (r : CloseResult F sort_slice). r.store)
          (tick_idle F sort_slice range has_bus s t x e))
    | inl (c, e) ↦
        let entries = build_leaderboard_entries F sort_slice range t.submissions c.id in
        elim (Bool-cases (is_due F c t)) [
          | inl d ↦ inr (
            closes_at has_bus t.closing_now c.id entries,
            ap (λ (r : CloseResult F sort_slice). r.store)
                (tick_due F sort_slice range has_bus s t c e
                  ∙ subst
                      (λ x.
                        (if x
                          then close_with_entries F sort_slice range has_bus s t c
                          else untouched F sort_slice range s)
                        ≡ close_with_entries F sort_slice range has_bus s t c)
                      (sym d) refl),
          )
          | inr d ↦ inl (tick_stays s t c e d)
        ]
  ]

  abbrev pub IsClosed : Store F → String → Type 0
  IsClosed s id = (d : Contest F) × (get id s.contests ≡ some d) × (d.status ≡ closed)

  step-IsClosed :
      (o o' : Option (Contest F)) (c : Contest F)
      → o ≡ some c
      → c.status ≡ closed
      → Evolves F o o'
      → (d : Contest F) × (o' ≡ some d) × (d.status ≡ closed)
  step-IsClosed o none c e k h = absurd (subst (λ x. Evolves F x none) e h)
  step-IsClosed o (some d) c e k h =
      let (a, same) : Evolves F (some c) (some d) = subst (λ x. Evolves F x (some d)) e h in
      (d, refl, ground (arith, a, k))

  tick-IsLegal : (s : Store F) (t : Tick F) → IsLegal F s → IsLegal F (next_store s t)
  tick-IsLegal s t v = elim (tick-calls s t) [
    | inl e ↦ rw e v
    | inr (c, e) ↦ rw e (step-Evolves F sort_slice s c v).0
  ]

  tick-IsClosed :
      (s : Store F) (t : Tick F) (id : String)
      → IsLegal F s
      → IsClosed s id
      → IsClosed (next_store s t) id
  tick-IsClosed s t id v (d, f, k) = elim (tick-calls s t) [
    | inl e ↦ rw e (d, f, k)
    | inr (c, e) ↦
        rw e (step-IsClosed (get id s.contests) _ d f k ((step-Evolves F sort_slice s c v).1 id))
  ]

  run_ticks-IsClosed :
      (s : Store F) (ts : List (Tick F)) (id : String)
      → IsLegal F s
      → IsClosed s id
      → IsClosed (run_ticks s ts) id
  unfolding run_ticks
  run_ticks-IsClosed s [] id v h = h
  run_ticks-IsClosed s (t ∷ ts) id v h =
      run_ticks-IsClosed (next_store s t) ts id (tick-IsLegal s t v) (tick-IsClosed s t id v h)

  due-IsClosed :
      (s : Store F) (t : Tick F) (c : Contest F)
      → IsLegal F s
      → get_active F s ≡ ok c
      → is_due F c t ≡ true
      → IsClosed (next_store s t) c.id
  unfolding snapshot_leaderboard
  due-IsClosed s t c v e d =
      let c' = closed_at F sort_slice t.closing_now c in
      subst (λ (x : Store F). IsClosed x c.id) (sym (tick_closes s t c v e d))
        (c', ground (arith, get-put c.id c.id c' s.contests, eq_iff c.id c.id), refl)

  -- One of the ticks is due for the contest.
  abbrev pub SomeDue : Contest F → List (Tick F) → Type 0
  SomeDue c [] = ⊥
  SomeDue c (t ∷ ts) = (is_due F c t ≡ true) ⊎ SomeDue c ts

  -- An active contest of a legal store is closed after any ticks of which one comes when it is due: its
  -- end has passed, or its submissions are closed, the queue is empty and no live worker is busy.
  -- The ticks before and after may find anything.
  pub run_ticks-closes :
      (s : Store F) (ts : List (Tick F)) (c : Contest F)
      → IsLegal F s
      → get_active F s ≡ ok c
      → SomeDue c ts
      → IsClosed (run_ticks s ts) c.id
  unfolding run_ticks
  run_ticks-closes s [] c v e h = absurd h
  run_ticks-closes s (t ∷ ts) c v e h = elim (Bool-cases (is_due F c t)) [
    | inl d ↦
        run_ticks-IsClosed (next_store s t) ts c.id (tick-IsLegal s t v) (due-IsClosed s t c v e d)
    | inr d ↦ elim h [
      | inl x ↦ absurd cc
      | inr k ↦
          subst (λ (x : Store F). IsClosed (run_ticks x ts) c.id) (sym (tick_stays s t c e d))
            (run_ticks-closes s ts c v e k)
    ]
  ]
