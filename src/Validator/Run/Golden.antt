-- ===== src/Validator/Run/Golden.antt =====
-- The golden orderbook on the fixed scenarios.
use nexus_bench.Base.{
  String, Bool, true, false, ◌&&◌, not, List, [], ◌∷◌, ◌≡◌, ℤ, pos_part, pos_part_pos, lt→ltb, refl,
  sym, subst, arith, All, pos, is_positive, eq_ℤ, eq_ℤ_iff, str_eq,
}
use nexus_bench.Base.Sorting.{sort_stable}
use nexus_bench.Base.Dict
use nexus_bench.Orderbook.{
  GoldenFill, GoldenOrder, GoldenOrderbook, ApplyResult, filled, failed, new_golden_orderbook,
  apply, apply_limit, apply_market, apply_cancel, cancel_side, match_loop, sort_sells, sort_buys,
  remove_entry, buy, limit,
}
use nexus_bench.Checker.{eq_Bool}
use nexus_bench.Fleet.{Order}
use nexus_bench.Executor.Replay.{golden_order}
use nexus_bench.Validator.Scenarios.{Scenario, sequential_scenarios, concurrent_burst}
use nexus_bench.Validator.Compare.Matching.{eq_Bool_iff}
use nexus_bench.Validator.Run.Burst.{Expects}

-- the golden book after some orders
unfoldable pub replayed : GoldenOrderbook → List Order → GoldenOrderbook
replayed g [] = g
replayed g (o ∷ os) = replayed (apply g (golden_order o)).0 os

abbrev pub agrees : ApplyResult → GoldenFill → Bool
agrees (failed x) e = false
agrees (filled gf) e =
    eq_Bool gf.accepted e.accepted
    && (eq_ℤ gf.executed_price e.executed_price && eq_ℤ gf.executed_qty e.executed_qty)

-- The golden book gives the expected answers.
unfoldable pub follows : GoldenOrderbook → List Order → List GoldenFill → Bool
follows g [] es = true
follows g (o ∷ os) [] = false
follows g (o ∷ os) (e ∷ es) =
    agrees (apply g (golden_order o)).1 e && follows (apply g (golden_order o)).0 os es

unfoldable pub all_follow : GoldenOrderbook → List Scenario → Bool
all_follow g [] = true
all_follow g (sc ∷ scs) =
    not sc.is_concurrent
    && (follows g sc.orders sc.expected && all_follow (replayed g sc.orders) scs)

unfoldable pub all_replayed : GoldenOrderbook → List Scenario → GoldenOrderbook
all_replayed g [] = g
all_replayed g (sc ∷ scs) = all_replayed (replayed g sc.orders) scs

-- The expected fills of the sequential scenarios are those of the golden book, which is empty on
-- the sell side when they are over.
pub sequential_scenarios_golden : all_follow new_golden_orderbook sequential_scenarios ≡ true
unfolding all_follow follows replayed new_golden_orderbook apply apply_limit apply_market
    apply_cancel cancel_side match_loop sort_sells sort_buys sort_stable remove_entry Dict.get
    Dict.put Dict.remove
sequential_scenarios_golden = refl

pub sequential_scenarios_sells : (all_replayed new_golden_orderbook sequential_scenarios).sells ≡ []
unfolding all_replayed replayed new_golden_orderbook apply apply_limit apply_market apply_cancel
    cancel_side match_loop sort_sells sort_buys sort_stable remove_entry Dict.get Dict.put
    Dict.remove
sequential_scenarios_sells = refl

-- A limit buy with an ID, a price and a quantity.
abbrev can_rest : Order → Bool
can_rest o = not (str_eq o.id "") && (is_positive o.price && is_positive o.quantity)

unfoldable pub IsRestingBuy : Order → Type 0
IsRestingBuy o = (o.kind ≡ limit) × ((o.side ≡ buy) × (can_rest o ≡ true))

abbrev pub Resting : GoldenOrderbook × ApplyResult → Type 0
Resting r =
    (r.0.sells ≡ [])
    × ((gf : GoldenFill) × ((r.1 ≡ filled gf)
          × ((gf.accepted ≡ true) × ((gf.executed_price ≡ pos 0) × (gf.executed_qty ≡ pos 0)))))

abbrev limit_buy : String → ℤ → ℤ → GoldenOrder
limit_buy id p q = record { id = id; kind = limit; side = buy; price = p; quantity = q }

limit_buy-Resting :
    (g : GoldenOrderbook) (id : String) (p q : ℤ)
    → g.sells ≡ []
    → str_eq id "" ≡ false
    → is_positive p ≡ true
    → is_positive q ≡ true
    → Resting (apply g (limit_buy id p q))
unfolding apply apply_limit match_loop sort_sells sort_stable
limit_buy-Resting g id p q e i hp hq =
    rw (i, hq, hp, e, lt→ltb 0 (pos_part q) (pos_part_pos q hq))
      (refl, (_, (refl, (refl, (refl, refl)))))

pub apply-Resting :
    (g : GoldenOrderbook) (o : Order)
    → g.sells ≡ []
    → IsRestingBuy o
    → Resting (apply g (golden_order o))
unfolding IsRestingBuy
apply-Resting g o e (k, (b, h)) =
    subst (λ (x : GoldenOrder). Resting (apply g x)) (sym same)
      (limit_buy-Resting g o.id o.price o.quantity e (ground arith) (ground arith) (ground arith))
  where
    same : golden_order o ≡ limit_buy o.id o.price o.quantity
    same = rw (k, b) refl

pub burst-IsRestingBuy : All IsRestingBuy concurrent_burst.orders
unfolding IsRestingBuy
burst-IsRestingBuy = ground arith

pub burst-Expects : All Expects concurrent_burst.expected
burst-Expects = ground arith

pub filled-cases :
    (r : ApplyResult) (e : GoldenFill)
    → agrees r e ≡ true
    → (gf : GoldenFill) × ((r ≡ filled gf)
        × ((gf.accepted ≡ e.accepted)
            × ((gf.executed_price ≡ e.executed_price) × (gf.executed_qty ≡ e.executed_qty))))
filled-cases (failed x) e h = absurd (ground arith)
filled-cases (filled gf) e h = (
  gf,
  (
    refl,
    ground (
      arith,
      eq_Bool_iff gf.accepted e.accepted,
      eq_ℤ_iff gf.executed_price e.executed_price,
      eq_ℤ_iff gf.executed_qty e.executed_qty,
    ),
  ),
)
