-- ===== src/Checker/Laws.antt =====
-- What one more fill changes in the result of internal/correctness/checker.go.
use nexus_bench.Base.{
  ◌+◌, ◌-◌, ◌≡◌, ◌∙◌, Bool, true, false, Option, none, some, List, [], ◌∷◌, ◌++◌, arith,
  if◌then◌else◌, inl, inr, Option-cases,
}
use nexus_bench.Base.Dict.{Dict, get}
use nexus_bench.Orderbook.{GoldenFill}
use nexus_bench.Checker.{
  ContestantFill, Counts, fills_match, golden_by_id, is_matched, tally_fill, tally_fills,
  count_fills, no_tally,
}
use nexus_bench.Checker.Counting.{
  find_fill, answered, get-golden_by_id, tally_fills-append, tally_fills-matched, has-keys,
  golden_by_id-keys, unmatched-put, keys,
}

abbrev pub one_more_incorrect : Counts → Counts
one_more_incorrect a = record a {
  total_fills = a.total_fills + 1;
  incorrect_fills = a.incorrect_fills + 1;
}

-- An ID that was counted as unanswered is now counted as correct.
abbrev pub now_correct : Counts → Counts
now_correct a = record a {
  correct_fills = a.correct_fills + 1;
  incorrect_fills = a.incorrect_fills - 1;
}

abbrev pub after_fill : Counts → Bool → Option GoldenFill → ContestantFill → Counts
after_fill a seen none c = one_more_incorrect a
after_fill a true (some g) c = one_more_incorrect a
after_fill a false (some g) c = if fills_match c g then now_correct a else a

module _ (gs : List GoldenFill) (cs : List ContestantFill) (c : ContestantFill) where
  golden : Dict GoldenFill
  golden = golden_by_id gs []

  seen-eq :
      (g : GoldenFill)
      → find_fill c.order_id gs ≡ some g
      → (get c.order_id golden ≡ some g)
        × (is_matched c.order_id (tally_fills golden cs no_tally).matched ≡ answered c.order_id cs)
        × (keys c.order_id golden ≡ 1)
  unfolding golden get
  seen-eq g e =
      let f = get-golden_by_id c.order_id gs [] in
      (
        f ∙ e,
        ground (arith, f, e, tally_fills-matched golden c.order_id cs no_tally),
        ground (arith, f, e, has-keys c.order_id golden, golden_by_id-keys c.order_id gs []),
      )

  -- The result for one more contestant fill. A fill with no golden fill, or of an ID that was
  -- answered before, adds one incorrect fill. Any other takes the place of the unanswered golden
  -- fill: it becomes correct if all three values match, and stays incorrect otherwise.
  pub count_fills-append :
      count_fills (cs ++ c ∷ []) gs
      ≡ after_fill (count_fills cs gs) (answered c.order_id cs) (find_fill c.order_id gs) c
  unfolding count_fills tally_fill golden get
  count_fills-append = elim (Option-cases (find_fill c.order_id gs)) [
    | inl e ↦
        let f = get-golden_by_id c.order_id gs [] in
        ground (arith, e, f, tally_fills-append golden cs c no_tally)
    | inr (g, e) ↦
        let s = seen-eq g e in
        let m = (tally_fills golden cs no_tally).matched in
        ground (
          arith,
          e,
          s.0,
          s.1,
          tally_fills-append golden cs c no_tally,
          unmatched-put c.order_id golden m s.2,
        )
  ]
