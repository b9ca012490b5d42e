-- ===== src/Validator/Run/Pass.antt =====
-- An engine that answers as the golden orderbook does passes the gate.
use mathlib.Core.List.{append-nil, append_assoc}
use nexus_bench.Base.{
  some-injective, pos, ◌≤◌, ℕ, zero, suc, ◌<◌, String, true, false, none, some, List, [], ◌∷◌, ◌++◌,
  map, ◌≡◌, refl, ap, subst, ◌∙◌, inl, inr, arith, All, length, get_elem?, Option-cases,
}
use nexus_bench.Base.Text.{TextOps}
use nexus_bench.Orderbook.{GoldenFill, GoldenOrderbook, filled, new_golden_orderbook, apply}
use nexus_bench.Fleet.{Order, Fill}
use nexus_bench.Executor.Replay.{golden_order}
use nexus_bench.Validator.Scenarios.{
  Scenario, fixed_scenarios, sequential_scenarios, concurrent_burst,
}
use nexus_bench.Validator.Compare.Matching.{Answers, compare_fills_match}
use nexus_bench.Validator.Run.{
  Engine, RunAnswer, ScenarioResult, ValidationResult, complete, pass, sent, run, run_all,
  run_concurrent_scenario, run_scenario, send_all, send_turns,
}
use nexus_bench.Validator.Run.Burst.{Rests, RestsSent, arrived, judge_burst-pass, occurs}
use nexus_bench.Validator.Run.Golden.{
  replayed, follows, all_follow, all_replayed, sequential_scenarios_golden,
  sequential_scenarios_sells, IsRestingBuy, apply-Resting, burst-IsRestingBuy, burst-Expects,
  filled-cases,
}

module _ (E : Engine) where
  open E use {State, send, ctx_err}

  -- The engine's states follow the golden book's: while the context is open and every goroutine of
  -- a burst has its turn, an order that the book answers is answered with the same three values.
  pub record IsGolden (R : State → GoldenOrderbook → Type 0) : Type 0 where
    pub stays_open : (s : State) (g : GoldenOrderbook) → R s g → ctx_err s ≡ none
    pub takes_turns : (s : State) (n i : ℕ) → i < n → occurs i (E.turns s n) ≡ true
    pub answers :
        (s : State) (g : GoldenOrderbook) (o : Order) (gf : GoldenFill)
        → R s g
        → (apply g (golden_order o)).1 ≡ filled gf
        → (f : Fill) × (((send s o).1 ≡ sent f)
            × (Answers f gf × R (send s o).0 (apply g (golden_order o)).0))

abbrev pub passed_result : Scenario → ScenarioResult
passed_result sc = record { name = sc.name; passed = true; reason = "" }

Rests-same :
    (f : Fill) (gf : GoldenFill)
    → Answers f gf
    → (gf.accepted ≡ true) × ((gf.executed_price ≡ pos 0) × (gf.executed_qty ≡ pos 0))
    → Rests f
unfolding Answers
Rests-same f gf (a, (b, c)) (x, (y, z)) = (a ∙ x, (b ∙ y, c ∙ z))

All-get_elem? :
    (os : List Order) (i : ℕ) (o : Order)
    → All IsRestingBuy os
    → get_elem? os i ≡ some o
    → IsRestingBuy o
All-get_elem? [] i o h e = absurd cc
All-get_elem? (x ∷ xs) zero o (h, hs) e = subst IsRestingBuy (some-injective e) h
All-get_elem? (x ∷ xs) (suc i) o (h, hs) e = All-get_elem? xs i o hs e

get_elem?-none : (os : List Order) (i : ℕ) → get_elem? os i ≡ none → length os ≤ i
get_elem?-none [] i e = omega arith
get_elem?-none (x ∷ xs) zero e = absurd cc
get_elem?-none (x ∷ xs) (suc i) e = omega (arith, get_elem?-none xs i e)

Answers-same :
    (f : Fill) (gf e : GoldenFill)
    → Answers f gf
    → (gf.accepted ≡ e.accepted)
      × ((gf.executed_price ≡ e.executed_price) × (gf.executed_qty ≡ e.executed_qty))
    → Answers f e
unfolding Answers
Answers-same f gf e (a, (b, c)) (x, (y, z)) = (a ∙ x, (b ∙ y, c ∙ z))

module _ (T : TextOps) (E : Engine) (R : E.State → GoldenOrderbook → Type 0)
    (golden : IsGolden E R) where
  open E use {State, send}

  send_all-follows :
      (sc : Scenario) (s : State) (g : GoldenOrderbook) (os : List Order) (es : List GoldenFill)
      → R s g
      → follows g os es ≡ true
      → ((send_all T E sc s os es).1 ≡ pass sc) × R (send_all T E sc s os es).0 (replayed g os)
  unfolding send_all follows replayed
  send_all-follows sc s g [] es r h = (refl, r)
  send_all-follows sc s g (o ∷ os) [] r h = absurd (ground arith)
  send_all-follows sc s g (o ∷ os) (e ∷ es) r h =
      let (gf, (gold, same)) = filled-cases (apply g (golden_order o)).1 e (ground arith) in
      let (f, (a, (m, r'))) = golden.answers s g o gf r gold in
      let (p, q) =
        send_all-follows sc (send s o).0 (apply g (golden_order o)).0 os es r' (ground arith) in
      rw
        (
          send_all,
          golden.stays_open s g r,
          a,
          compare_fills_match T o f e sc.book_context (Answers-same f gf e m same),
        )
        (p, q)

  run_scenario-follows :
      (sc : Scenario) (s : State) (g : GoldenOrderbook)
      → sc.is_concurrent ≡ false
      → R s g
      → follows g sc.orders sc.expected ≡ true
      → ((run_scenario T E sc s).1 ≡ pass sc) × R (run_scenario T E sc s).0 (replayed g sc.orders)
  unfolding run_scenario
  run_scenario-follows sc s g c r h =
      simp (run_scenario, c) (send_all-follows sc s g sc.orders sc.expected r h)

  -- the result while no scenario has failed
  abbrev passing : String → ℕ → List ScenarioResult → ValidationResult
  passing id now scenarios = record {
    submission_id = id;
    scenarios = scenarios;
    all_passed = true;
    tested_at = now;
  }

  run_all-pass :
      (id : String) (now : ℕ) (earlier : List ScenarioResult) (s : State) (sc : Scenario)
      (tail : List Scenario)
      → (run_scenario T E sc s).1 ≡ pass sc
      → run_all T E (passing id now earlier) s (sc ∷ tail)
        ≡ run_all T E
            (passing id now (earlier ++ passed_result sc ∷ []))
            (run_scenario T E sc s).0
            tail
  unfolding run_all
  run_all-pass id now earlier s sc tail h = rw (run_all, h) refl

  run_all-follows :
      (id : String) (now : ℕ) (earlier : List ScenarioResult) (s : State) (g : GoldenOrderbook)
      (scs tail : List Scenario)
      → R s g
      → all_follow g scs ≡ true
      → (s' : State) × (R s' (all_replayed g scs)
          × (run_all T E (passing id now earlier) s (scs ++ tail)
              ≡ run_all T E (passing id now (earlier ++ map passed_result scs)) s' tail))
  unfolding all_follow all_replayed
  run_all-follows id now earlier s g [] tail r h = (s, (r, rw append-nil refl))
  run_all-follows id now earlier s g (sc ∷ scs) tail r h =
      let (p, r') = run_scenario-follows sc s g (ground arith) r (ground arith) in
      let (s', (q, e)) =
        run_all-follows id now (earlier ++ passed_result sc ∷ []) (run_scenario T E sc s).0
          (replayed g sc.orders) scs tail r' (ground arith) in
      (s', (q, run_all-pass id now earlier s sc (scs ++ tail) p ∙ e ∙ rw append_assoc refl))

  send_turns-Resting :
      (s : State) (g : GoldenOrderbook) (os : List Order) (is : List ℕ)
      → R s g
      → g.sells ≡ []
      → All IsRestingBuy os
      → All RestsSent (send_turns T E s os is).1
  unfolding send_turns
  send_turns-Resting s g os [] r e h = tt
  send_turns-Resting s g os (i ∷ is) r e h = elim (Option-cases (get_elem? os i)) [
    | inl n ↦ rw (send_turns, n) (send_turns-Resting s g os is r e h)
    | inr (o, n) ↦
        let (e', (gf, (gold, rests))) = apply-Resting g o e (All-get_elem? os i o h n) in
        let (f, (a, (m, r'))) = golden.answers s g o gf r gold in
        rw (send_turns, n)
          (
            (f, (a, Rests-same f gf m rests)),
            send_turns-Resting (send s o).0 (apply g (golden_order o)).0 os is r' e' h,
          )
  ]

  send_turns-arrived :
      (s : State) (os : List Order) (is : List ℕ) (i : ℕ)
      → i < length os
      → occurs i is ≡ true
      → arrived i (send_turns T E s os is).1 ≡ true
  unfolding send_turns
  send_turns-arrived s os [] i lt h = absurd (ground arith)
  send_turns-arrived s os (j ∷ js) i lt h = elim (Option-cases (get_elem? os j)) [
    | inl n ↦
        rw (send_turns, n) (send_turns-arrived s os js i lt (ground (arith, get_elem?-none os j n)))
    | inr (o, n) ↦ rw (send_turns, n) (ground (arith, send_turns-arrived (send s o).0 os js i lt))
  ]

  -- The burst after the sequential scenarios.
  run_concurrent_scenario-pass :
      (s : State) (g : GoldenOrderbook)
      → R s g
      → g.sells ≡ []
      → (run_scenario T E concurrent_burst s).1 ≡ pass concurrent_burst
  unfolding run_scenario run_concurrent_scenario
  run_concurrent_scenario-pass s g r e =
      rw (run_scenario, run_concurrent_scenario, golden.stays_open s g r)
        (judge_burst-pass T concurrent_burst _
          (send_turns-Resting s g concurrent_burst.orders (E.turns s 10) r e burst-IsRestingBuy)
          (λ j lt.
            send_turns-arrived s concurrent_burst.orders (E.turns s 10) j lt
              (golden.takes_turns s 10 j lt))
          refl burst-Expects)

  -- If an engine starts in a state that stands for the empty golden book, keeps to it, and the context
  -- stays open, then the gate runs to its end and every scenario passes, the burst in whatever order
  -- its goroutines take their turns.
  pub run_golden :
      (s : State) (id : String) (now : ℕ)
      → R s new_golden_orderbook
      → (run T E id now s).1 ≡ complete (passing id now (map passed_result fixed_scenarios))
  unfolding run run_all fixed_scenarios
  run_golden s id now r =
      let (s', (q, e)) =
        run_all-follows id now [] s new_golden_orderbook sequential_scenarios
          (concurrent_burst ∷ []) r sequential_scenarios_golden in
      let p = run_concurrent_scenario-pass s' _ q sequential_scenarios_sells in
      ap (λ (x : State × RunAnswer). x.1)
        (e ∙ run_all-pass id now (map passed_result sequential_scenarios) s' concurrent_burst [] p)
