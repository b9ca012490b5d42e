-- ===== src/Examples/Book.antt =====
-- The golden orderbook at concrete orders.
use nexus_bench.Base.{
  ℕ, ◌-◌, ◌≤◌, ◌<◌, ◌≡◌, ◌≢◌, refl, String, true, [], ◌∷◌, arith, min, ltb, pos, pos_part, eq_iff,
}
use nexus_bench.Base.Dict.{get, remove}
use nexus_bench.Base.Sorting.{sort_stable}
use nexus_bench.Orderbook.{
  BookEntry, GoldenOrderbook, GoldenOrder, Side, buy, sell, limit, market, cancel, apply,
  apply_limit, apply_market, apply_cancel, match_loop, sort_sells, sort_buys,
}
use nexus_bench.Orderbook.Soundness.{IsSound}
use nexus_bench.Orderbook.Invariant.{apply-IsSound}
use nexus_bench.Orderbook.Limit.{
  opposite, tradable, WithinLimit, apply_limit-executed, apply_market-executed,
  apply_limit-WithinLimit,
}
use nexus_bench.Orderbook.Matching.{volume}
use nexus_bench.Orderbook.Conserved.{
  TakesBest, Moves, HasOpenEntries, apply_limit-TakesBest, apply_limit-Moves,
}
use nexus_bench.Orderbook.Index.{IsIndexed, resting_orders}
use nexus_bench.Orderbook.Cancel.{apply-IsIndexed, apply_cancel_lem}

abbrev entry : String → Side → ℕ → ℕ → ℕ → BookEntry
entry id side price seq remaining = record {
  id = id;
  side = side;
  price = price;
  quantity = remaining;
  seq = seq;
  remaining_q = remaining;
}

-- Two asks at one price, a dearer one, and a bid.
abbrev asks : GoldenOrderbook
asks = record {
  buys = entry "b" buy 9900 4 7 ∷ [];
  sells = entry "c" sell 10200 3 5 ∷ entry "a" sell 10100 1 3 ∷ entry "d" sell 10100 2 4 ∷ [];
  index = ("b", buy) ∷ ("c", sell) ∷ ("a", sell) ∷ ("d", sell) ∷ [];
  seq = 4;
}

abbrev buy_six : GoldenOrder
buy_six = record { id = "x"; kind = limit; side = buy; price = pos 10150; quantity = pos 6 }

abbrev buy_market : GoldenOrder
buy_market = record { id = "y"; kind = market; side = buy; price = pos 0; quantity = pos 20 }

abbrev cancel_a : GoldenOrder
cancel_a = record { id = "a"; kind = cancel; side = buy; price = pos 0; quantity = pos 0 }

-- "a" is filled, "d" keeps 1, and the last price is that of "d".
buy_six_fill : (apply_limit asks buy_six).1.executed_qty ≡ pos 6
unfolding apply_limit match_loop sort_sells sort_buys sort_stable remove
buy_six_fill = refl

asks-IsSound : IsSound asks
asks-IsSound = ground arith

apply-IsSound_example : IsSound (apply asks buy_six).0
apply-IsSound_example = apply-IsSound asks buy_six asks-IsSound

apply_limit-executed_example :
    ((apply_limit asks buy_six).1.accepted ≡ true)
    × ((apply_limit asks buy_six).1.executed_qty ≡ pos (min 6 (volume (tradable buy_six asks))))
apply_limit-executed_example = apply_limit-executed asks buy_six refl refl

apply_market-executed_example :
    ((apply_market asks buy_market).1.accepted ≡ ltb 0 (volume (opposite buy_market asks)))
    × ((apply_market asks buy_market).1.executed_qty
        ≡ pos (min 20 (volume (opposite buy_market asks))))
apply_market-executed_example = apply_market-executed asks buy_market refl

some_executed : 0 < pos_part (apply_limit asks buy_six).1.executed_qty
some_executed = rw buy_six_fill (omega arith)

apply_limit-WithinLimit_example :
    WithinLimit buy_six (pos_part (apply_limit asks buy_six).1.executed_price)
apply_limit-WithinLimit_example = apply_limit-WithinLimit asks buy_six refl refl some_executed

asks-HasOpenEntries : HasOpenEntries asks.sells
asks-HasOpenEntries = omega arith

apply_limit-TakesBest_example :
    TakesBest buy_six asks.sells
      (opposite buy_six (apply_limit asks buy_six).0)
      (pos_part (apply_limit asks buy_six).1.executed_qty)
apply_limit-TakesBest_example = apply_limit-TakesBest asks buy_six refl refl asks-HasOpenEntries

apply_limit-Moves_example :
    (pos_part (apply_limit asks buy_six).1.executed_qty ≤ 6)
    × Moves buy_six asks
        (apply_limit asks buy_six).0
        (pos_part (apply_limit asks buy_six).1.executed_qty)
        (6 - pos_part (apply_limit asks buy_six).1.executed_qty)
apply_limit-Moves_example = apply_limit-Moves asks buy_six refl refl

-- One resting ask.
abbrev one_ask : GoldenOrderbook
one_ask = record {
  buys = [];
  sells = entry "a" sell 10100 1 3 ∷ [];
  index = ("a", sell) ∷ [];
  seq = 1;
}

one_ask-IsIndexed : IsIndexed one_ask
unfolding get
one_ask-IsIndexed = record {
  unique = λ id. ground (arith, eq_iff "a" id);
  known = λ id s e. ground (arith, eq_iff "a" id, e);
  unknown = λ id e. ground (arith, eq_iff "a" id, e);
}

apply-IsIndexed_example : IsIndexed (apply one_ask buy_six).0
unfolding get
apply-IsIndexed_example = apply-IsIndexed one_ask buy_six (λ k. refl) one_ask-IsIndexed

apply_cancel_lem_example :
    ((apply_cancel one_ask cancel_a).1.accepted ≡ ltb 0 (resting_orders "a" one_ask))
    × (resting_orders "a" (apply_cancel one_ask cancel_a).0 ≡ 0)
    × ((j : String)
        → j ≢ "a"
        → resting_orders j (apply_cancel one_ask cancel_a).0 ≡ resting_orders j one_ask)
apply_cancel_lem_example = apply_cancel_lem one_ask cancel_a one_ask-IsIndexed
