-- ===== src/Executor/Replay.antt =====
-- `checkCorrectness` of internal/worker/executor.go: the fleet's orders are replayed through the
-- golden orderbook, and the contestant's fills are compared with what it answers.
use nexus_bench.Base.{List, [], ◌∷◌, if◌then◌else◌}
use nexus_bench.Base.Float.{FloatOps}
use nexus_bench.Orderbook.{
  GoldenOrder, GoldenFill, GoldenOrderbook, ApplyResult, filled, failed, new_golden_orderbook,
  apply,
}
use nexus_bench.Checker.{ContestantFill, CorrectnessResult, check}
use nexus_bench.Fleet.{Order, Fill, OrderResult}

abbrev pub golden_order : Order → GoldenOrder
golden_order o = record {
  id = o.id;
  kind = o.kind;
  side = o.side;
  price = o.price;
  quantity = o.quantity;
}

abbrev pub contestant_fill : Fill → ContestantFill
contestant_fill f = record {
  order_id = f.order_id;
  executed_price = f.executed_price;
  executed_qty = f.executed_qty;
  accepted = f.accepted;
}

-- `goldenFills` and `contestantFills`
pub record Fills : Type 0 where
  pub golden : List GoldenFill
  pub contestant : List ContestantFill

-- What the loop body appends for one result, in front of what the rest appends.
abbrev pub record_result : OrderResult → ApplyResult → Fills → Fills
record_result r (failed e) rest = rest
record_result r (filled gf) rest = record {
  golden = gf ∷ rest.golden;
  contestant = if r.failed then rest.contestant else contestant_fill r.fill ∷ rest.contestant;
}

unfoldable pub replay : GoldenOrderbook → List OrderResult → Fills
replay book [] = record { golden = []; contestant = [] }
replay book (r ∷ rs) =
    let (book', answer) = apply book (golden_order r.order) in
    record_result r answer (replay book' rs)

module _ (F : FloatOps) where
  unfoldable pub check_correctness : List OrderResult → CorrectnessResult F
  check_correctness results =
      let fills = replay new_golden_orderbook results in check F fills.contestant fills.golden
