-- ===== src/Examples/Gate.antt =====
-- The pre-flight gate against the golden orderbook itself, whose goroutines take their turns from the
-- last to the first.
use nexus_bench.Base.{
  ℕ, zero, suc, ◌<◌, String, true, false, none, List, [], ◌∷◌, map, ◌≡◌, ◌↔◌, ◌≢◌, refl, arith, pos,
  str_eq, eq_iff,
}
use nexus_bench.Base.Text.{TextOps}
use nexus_bench.Orderbook.{
  ApplyResult, GoldenOrderbook, buy, filled, failed, new_golden_orderbook, apply,
}
use nexus_bench.Executor.Replay.{golden_order}
use nexus_bench.Validator.Scenarios.{Scenario, fixed_scenarios, limit_order}
use nexus_bench.Validator.Compare.Matching.{Answers, KeepsText}
use nexus_bench.Validator.Run.{Engine, Sent, complete, pass, sent, send_error, run, run_scenario}
use nexus_bench.Validator.Run.Burst.{occurs}
use nexus_bench.Validator.Run.Verdict.{AnswersAll, run_scenario_lem}
use nexus_bench.Validator.Run.Pass.{IsGolden, passed_result, run_golden}

abbrev quoted : TextOps
quoted = record { sprintf = λ format args. format; prefix = λ n s. s; format_duration = λ n. "" }

abbrev down_from : ℕ → List ℕ
down_from zero = []
down_from (suc n) = n ∷ down_from n

down_from-occurs : (n i : ℕ) → i < n → occurs i (down_from n) ≡ true
down_from-occurs zero i lt = absurd (ground arith)
down_from-occurs (suc n) i lt = ground (arith, down_from-occurs n i)

abbrev sent_of : ApplyResult → Sent
sent_of (filled gf) = sent (record {
  order_id = gf.order_id;
  executed_price = gf.executed_price;
  executed_qty = gf.executed_qty;
  accepted = gf.accepted;
})
sent_of (failed e) = send_error "invalid order"

abbrev golden_engine : Engine
golden_engine = record {
  State = GoldenOrderbook;
  send = λ g o. ((apply g (golden_order o)).0, sent_of (apply g (golden_order o)).1);
  ctx_err = λ g. none;
  turns = λ g n. down_from n;
}

golden_engine-IsGolden : IsGolden golden_engine (λ s g. s ≡ g)
unfolding Answers
golden_engine-IsGolden = record {
  stays_open = λ s g r. refl;
  takes_turns = λ s n i lt. down_from-occurs n i lt;
  answers = λ s g o gf r e. rw (r, e) (_, (refl, ((refl, (refl, refl)), refl)));
}

run_golden_example :
    (run quoted golden_engine "s" 7 new_golden_orderbook).1
    ≡ complete (record {
      submission_id = "s";
      scenarios = map passed_result fixed_scenarios;
      all_passed = true;
      tested_at = 7;
    })
run_golden_example =
    run_golden quoted golden_engine (λ s g. s ≡ g) golden_engine-IsGolden new_golden_orderbook "s" 7
      refl

nonempty : (s : String) → str_eq s "" ≡ false → s ≢ ""
nonempty s h e = ground (arith, eq_iff s "")

quoted-KeepsText : KeepsText quoted
unfolding KeepsText
quoted-KeepsText =
    (λ args. nonempty _ refl, (λ args. nonempty _ refl, (λ args. nonempty _ refl, tt)))

-- A scenario that wants a resting order to be rejected.
abbrev wrong_scenario : Scenario
wrong_scenario = record {
  name = "wrong";
  orders = limit_order "x" buy 100 1 ∷ [];
  expected =
      record { order_id = "x"; executed_price = pos 0; executed_qty = pos 0; accepted = false }
      ∷ [];
  book_context = "";
  is_concurrent = false;
  concurrent_deadline = 0;
}

run_scenario_lem_example :
    ((run_scenario quoted golden_engine wrong_scenario new_golden_orderbook).1
      ≡ pass wrong_scenario)
    ↔ AnswersAll quoted golden_engine new_golden_orderbook wrong_scenario.orders
        wrong_scenario.expected
run_scenario_lem_example =
    run_scenario_lem quoted golden_engine wrong_scenario new_golden_orderbook quoted-KeepsText refl
