-- ===== src/Examples/Fills.antt =====
-- The correctness checker at concrete fills.
use nexus_bench.Base.{◌≡◌, ◌≢◌, refl, String, true, none, List, [], ◌∷◌, ◌++◌, ℕ, pos}
use nexus_bench.Base.Dict.{get, put}
use nexus_bench.Orderbook.{GoldenFill}
use nexus_bench.Checker.{
  ContestantFill, Counts, count_fills, golden_by_id, tally_fill, tally_fills, unmatched,
  fills_match,
}
use nexus_bench.Checker.Counting.{answered, find_fill}
use nexus_bench.Checker.Laws.{after_fill, count_fills-append}

abbrev golden : String → ℕ → GoldenFill
golden id qty = record {
  order_id = id;
  executed_price = pos 10100;
  executed_qty = pos qty;
  accepted = true;
}

abbrev contestant : String → ℕ → ContestantFill
contestant id qty = record {
  order_id = id;
  executed_price = pos 10100;
  executed_qty = pos qty;
  accepted = true;
}

abbrev goldens : List GoldenFill
goldens = golden "a" 3 ∷ golden "b" 4 ∷ golden "c" 5 ∷ []

-- "a" is right, "b" has the wrong quantity, "x" is unknown, "c" is missing.
abbrev fills : List ContestantFill
fills = contestant "a" 3 ∷ contestant "b" 9 ∷ contestant "x" 1 ∷ []

abbrev three_wrong : Counts
three_wrong = record { total_fills = 4; correct_fills = 1; incorrect_fills = 3 }

fills_count : count_fills fills goldens ≡ three_wrong
unfolding count_fills golden_by_id tally_fill tally_fills unmatched fills_match get put
fills_count = refl

count_fills-append_example :
    count_fills (fills ++ contestant "c" 5 ∷ []) goldens
    ≡ after_fill
        (count_fills fills goldens)
        (answered "c" fills)
        (find_fill "c" goldens)
        (contestant "c" 5)
count_fills-append_example = count_fills-append goldens fills (contestant "c" 5)

known_b : find_fill "b" goldens ≢ none
known_b = λ e. cc
