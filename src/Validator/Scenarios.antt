-- ===== src/Validator/Scenarios.antt =====
-- internal/validator/scenarios.go: the fixed orders of the pre-flight gate and the fills that a right
-- engine answers. Each scenario is a literal of the source, in its order.
use nexus_bench.Base.{ℕ, ◌*◌, ◌++◌, String, Bool, true, false, List, [], ◌∷◌, pos}
use nexus_bench.Orderbook.{GoldenFill, Side, buy, sell, other_side, limit, market, cancel}
use nexus_bench.Contest.Defaults.{second}
use nexus_bench.Fleet.{Order}

pub record Scenario : Type 0 where
  pub name : String
  pub orders : List Order
  pub expected : List GoldenFill
  pub book_context : String
  pub is_concurrent : Bool
  pub concurrent_deadline : ℕ

abbrev pub limit_order : String → Side → ℕ → ℕ → Order
limit_order id side price quantity = record {
  id = id;
  kind = limit;
  side = side;
  price = pos price;
  quantity = pos quantity;
}

abbrev market_order : String → Side → ℕ → Order
market_order id side quantity = record {
  id = id;
  kind = market;
  side = side;
  price = pos 0;
  quantity = pos quantity;
}

-- the side of a cancel is the empty string
abbrev cancel_of : String → Order
cancel_of id = record {
  id = id;
  kind = cancel;
  side = other_side "";
  price = pos 0;
  quantity = pos 0;
}

abbrev answer : String → Bool → ℕ → ℕ → GoldenFill
answer id ok price quantity = record {
  order_id = id;
  executed_price = pos price;
  executed_qty = pos quantity;
  accepted = ok;
}

abbrev one_by_one : String → String → List Order → List GoldenFill → Scenario
one_by_one name context orders expected = record {
  name = name;
  orders = orders;
  expected = expected;
  book_context = context;
  is_concurrent = false;
  concurrent_deadline = 0;
}

abbrev pub sequential_scenarios : List Scenario
sequential_scenarios =
    one_by_one "limit_buy_rests_on_empty_book" "book: empty"
      (limit_order "val-0-0" buy 10000 10 ∷ []) (answer "val-0-0" true 0 0 ∷ [])
    ∷ one_by_one "limit_sell_rests_above_best_bid" "book: 1 resting buy at $100.00 qty=10 (val-0-0)"
        (limit_order "val-1-0" sell 10100 10 ∷ []) (answer "val-1-0" true 0 0 ∷ [])
    ∷ one_by_one "limit_sell_crosses_buy_partial_fill"
        "book: 1 resting buy at $100.00 qty=10 (val-0-0); 1 resting sell at $101.00 qty=10 (val-1-0)"
        (limit_order "val-2-0" sell 10000 5 ∷ []) (answer "val-2-0" true 10000 5 ∷ [])
    ∷ one_by_one "market_buy_sweeps_resting_sell"
        "book: 1 resting buy at $100.00 qty=5 (val-0-0, partially filled); 1 resting sell at $101.00 qty=10 (val-1-0)"
        (market_order "val-3-0" buy 20 ∷ []) (answer "val-3-0" true 10100 10 ∷ [])
    ∷ one_by_one "cancel_of_known_resting_order_accepted"
        "book: 1 resting buy at $100.00 qty=5 (val-0-0, remaining after partial fill)"
        (cancel_of "val-0-0" ∷ []) (answer "val-0-0" true 0 0 ∷ [])
    ∷ one_by_one "cancel_of_unknown_id_rejected"
        "book: empty (val-0-0 canceled, val-1-0 swept by market buy)" (cancel_of "val-NEVER-0" ∷ [])
        (answer "val-NEVER-0" false 0 0 ∷ [])
    ∷ one_by_one "cancel_of_already_canceled_order_rejected"
        "book: empty (val-0-0 already canceled)" (cancel_of "val-0-0" ∷ [])
        (answer "val-0-0" false 0 0 ∷ [])
    ∷ one_by_one "zero_quantity_order_rejected" "book: empty"
        (limit_order "val-6-0" buy 10000 0 ∷ []) (answer "val-6-0" false 0 0 ∷ [])
    ∷ one_by_one "price_time_priority_setup_buy_100_50" "book: empty"
        (limit_order "val-7-0" buy 10050 5 ∷ []) (answer "val-7-0" true 0 0 ∷ [])
    ∷ one_by_one "price_time_priority_setup_buy_100_50_second"
        "book: 1 resting buy at $100.50 qty=5 (val-7-0)" (limit_order "val-8-0" buy 10050 3 ∷ [])
        (answer "val-8-0" true 0 0 ∷ [])
    ∷ one_by_one "price_time_priority_setup_buy_100_00"
        "book: 2 resting buys at $100.50 (val-7-0 qty=5, val-8-0 qty=3); 1 resting buy at $100.00 qty=10 (val-9-0)"
        (limit_order "val-9-0" buy 10000 10 ∷ []) (answer "val-9-0" true 0 0 ∷ [])
    ∷ one_by_one "price_time_priority_aggressive_sell_fills_best_bid_first"
        "book: val-7-0 qty=5 at $100.50 (highest bid, fills first); val-8-0 qty=3 at $100.50; val-9-0 qty=10 at $100.00"
        (limit_order "val-10-0" sell 10000 5 ∷ []) (answer "val-10-0" true 10050 5 ∷ [])
    ∷ one_by_one "price_time_priority_aggressive_sell_fills_second_bid"
        "book: val-8-0 qty=3 at $100.50; val-9-0 qty=10 at $100.00"
        (limit_order "val-11-0" sell 10000 5 ∷ []) (answer "val-11-0" true 10000 5 ∷ [])
    ∷ one_by_one "cancel_remaining_resting_buy"
        "book: val-9-0 qty=8 remaining at $100.00 (partially filled)" (cancel_of "val-9-0" ∷ [])
        (answer "val-9-0" true 0 0 ∷ [])
    ∷ one_by_one "resting_sell_at_ask" "book: empty buy side"
        (limit_order "val-13-0" sell 10100 10 ∷ []) (answer "val-13-0" true 0 0 ∷ [])
    ∷ one_by_one "market_sell_rejected_on_empty_buy_side"
        "book: empty buy side; 1 resting sell at $101.00 qty=10 (val-13-0)"
        (market_order "val-14-0" sell 5 ∷ []) (answer "val-14-0" false 0 0 ∷ [])
    ∷ one_by_one "limit_buy_fills_resting_sell" "book: 1 resting sell at $101.00 qty=10 (val-13-0)"
        (limit_order "val-15-0" buy 10100 3 ∷ []) (answer "val-15-0" true 10100 3 ∷ [])
    ∷ one_by_one "cancel_partially_consumed_sell"
        "book: val-13-0 qty=7 remaining at $101.00 (partially filled)" (cancel_of "val-13-0" ∷ [])
        (answer "val-13-0" true 0 0 ∷ [])
    ∷ one_by_one "multiple_unknown_cancels_all_rejected" "book: empty"
        (cancel_of "val-GHOST-1" ∷ cancel_of "val-GHOST-2" ∷ cancel_of "val-GHOST-3" ∷ [])
        (answer "val-GHOST-1" false 0 0
          ∷ answer "val-GHOST-2" false 0 0
          ∷ answer "val-GHOST-3" false 0 0
          ∷ [])
    ∷ []

abbrev pub burst_orders : List Order
burst_orders =
    limit_order "val-cb-0" buy 9000 1
    ∷ limit_order "val-cb-1" buy 9100 1
    ∷ limit_order "val-cb-2" buy 9200 1
    ∷ limit_order "val-cb-3" buy 9300 1
    ∷ limit_order "val-cb-4" buy 9400 1
    ∷ limit_order "val-cb-5" buy 9500 1
    ∷ limit_order "val-cb-6" buy 9600 1
    ∷ limit_order "val-cb-7" buy 9700 1
    ∷ limit_order "val-cb-8" buy 9800 1
    ∷ limit_order "val-cb-9" buy 9900 1
    ∷ []

abbrev burst_answers : List GoldenFill
burst_answers =
    answer "val-cb-0" true 0 0
    ∷ answer "val-cb-1" true 0 0
    ∷ answer "val-cb-2" true 0 0
    ∷ answer "val-cb-3" true 0 0
    ∷ answer "val-cb-4" true 0 0
    ∷ answer "val-cb-5" true 0 0
    ∷ answer "val-cb-6" true 0 0
    ∷ answer "val-cb-7" true 0 0
    ∷ answer "val-cb-8" true 0 0
    ∷ answer "val-cb-9" true 0 0
    ∷ []

abbrev pub concurrent_burst : Scenario
concurrent_burst = record {
  name = "concurrent_burst_10";
  orders = burst_orders;
  expected = burst_answers;
  book_context = "book: empty (all previous orders canceled or consumed)";
  is_concurrent = true;
  concurrent_deadline = 3 * second;
}

unfoldable pub fixed_scenarios : List Scenario
fixed_scenarios = sequential_scenarios ++ concurrent_burst ∷ []
