-- ===== src/Executor/Perfect.antt =====
-- How a contestant fares whose every answer is the golden one (internal/worker/executor.go with
-- internal/correctness/checker.go).
use nexus_bench.Base.{◌≡◌, refl, false, List, [], ◌∷◌, arith}
use nexus_bench.Orderbook.{GoldenFill, GoldenOrderbook, new_golden_orderbook, filled, failed, apply}
use nexus_bench.Checker.{ContestantFill, golden_by_id, tally_fills, unmatched, count_fills}
use nexus_bench.Base.Float.{FloatOps}
use nexus_bench.Orderbook.{ApplyResult}
use nexus_bench.Checker.{check}
use nexus_bench.Fleet.{OrderResult}
use nexus_bench.Executor.Replay.{
  golden_order, contestant_fill, Fills, record_result, replay, check_correctness,
}
use nexus_bench.Checker.Right.{
  right_answer, right_answers, first_fills, repeated_fills, count_fills-right_answers,
}

-- The result is no transport error and carries the fill that the golden orderbook gives.
abbrev pub IsRight : ApplyResult → OrderResult → Type 0
IsRight (filled gf) r = (r.failed ≡ false) × (contestant_fill r.fill ≡ right_answer gf)
IsRight (failed e) r = Unit

-- Every result is right at its turn.
abbrev pub AllRight : GoldenOrderbook → List OrderResult → Type 0
AllRight book [] = Unit
AllRight book (r ∷ rs) =
    IsRight (apply book (golden_order r.order)).1 r
    × AllRight (apply book (golden_order r.order)).0 rs

record_result-right :
    (r : OrderResult) (a : ApplyResult) (rest : Fills)
    → IsRight a r
    → rest.contestant ≡ right_answers rest.golden
    → (record_result r a rest).contestant ≡ right_answers (record_result r a rest).golden
record_result-right r (failed e) rest h k = k
record_result-right r (filled gf) rest h k = ground (arith, h.0, h.1, k)

replay-right :
    (book : GoldenOrderbook) (rs : List OrderResult)
    → AllRight book rs
    → (replay book rs).contestant ≡ right_answers (replay book rs).golden
unfolding replay
replay-right book [] h = refl
replay-right book (r ∷ rs) h =
    let next = apply book (golden_order r.order) in
    record_result-right r next.1 (replay next.0 rs) h.0 (replay-right next.0 rs h.1)

module _ (F : FloatOps) where
  check-counts :
      (cs : List ContestantFill) (gs : List GoldenFill) → (check F cs gs).counts ≡ count_fills cs gs
  unfolding check count_fills golden_by_id tally_fills unmatched
  check-counts [] [] = refl
  check-counts (c ∷ cs) gs = refl
  check-counts [] (g ∷ gs) = refl

  -- Where every result is right, the correctness check counts one correct fill
  -- for each ID among the golden fills, and as incorrect every fill whose ID stood in a fill before,
  -- although the contestant gave the golden answer to it.
  pub check_correctness_lem :
      (results : List OrderResult)
      → AllRight new_golden_orderbook results
      → let golden = (replay new_golden_orderbook results).golden in
        let counts = (check_correctness F results).counts in
        (counts.correct_fills ≡ first_fills [] golden)
        × (counts.incorrect_fills ≡ repeated_fills [] golden)
  unfolding check_correctness
  check_correctness_lem results h =
      let fills = replay new_golden_orderbook results in
      rw (check-counts fills.contestant fills.golden, replay-right new_golden_orderbook results h)
        (count_fills-right_answers fills.golden)
