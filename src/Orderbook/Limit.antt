-- ===== src/Orderbook/Limit.antt =====
-- What an order of internal/correctness/orderbook.go gets, and what it leaves: `applyLimit` and
-- `applyMarket` against a description that knows neither the loop nor the sorting.
use nexus_bench.Base.{
  ℕ, ◌≤◌, ◌<◌, ◌≡◌, refl, ap, true, false, List, [], ◌∷◌, arith, min, ltb, leb, if◌then◌else◌, All,
  keep_if, Bool-cases, inl, inr, pos, pos_part, is_positive, pos_part_pos,
}
use nexus_bench.Orderbook.{
  BookEntry, GoldenOrderbook, GoldenOrder, is_buy, buys_before, sells_before, sort_buys, sort_sells,
  too_expensive, too_cheap, never_stop, match_limit, match_market, apply_limit, apply_market,
}
use nexus_bench.Orderbook.Matching.{volume, match_loop-executed, match_loop-price}
use nexus_bench.Orderbook.Priority.{
  sort_sells-StaysStopped, sort_buys-StaysStopped, never_stop-StaysStopped,
  volume-eligible-sort_stable, eligible-sells, eligible-buys, eligible-all,
}

-- The side that an order trades with, and the side that it would rest on.
abbrev pub opposite : GoldenOrder → GoldenOrderbook → List BookEntry
opposite o g = if is_buy o.side then g.sells else g.buys

abbrev pub own : GoldenOrder → GoldenOrderbook → List BookEntry
own o g = if is_buy o.side then g.buys else g.sells

-- The entries whose price the order accepts.
abbrev pub tradable : GoldenOrder → GoldenOrderbook → List BookEntry
tradable o g =
    if is_buy o.side
    then keep_if (λ e. leb e.price (pos_part o.price)) g.sells
    else keep_if (λ e. leb (pos_part o.price) e.price) g.buys

-- A price that is no worse for the order than its limit.
abbrev pub WithinLimit : GoldenOrder → ℕ → Type 0
WithinLimit o p =
    (is_buy o.side ≡ true → p ≤ pos_part o.price) × (is_buy o.side ≡ false → pos_part o.price ≤ p)

match_limit-executed :
    (g : GoldenOrderbook) (o : GoldenOrder)
    → (match_limit g o).executed_qty ≡ min (pos_part o.quantity) (volume (tradable o g))
unfolding sort_sells sort_buys
match_limit-executed g o = elim (Bool-cases (is_buy o.side)) [
  | inl b ↦
      let p = pos_part o.price in
      let e =
        match_loop-executed (too_expensive p) (sort_sells g.sells) g.index (pos_part o.quantity) 0 0
          (sort_sells-StaysStopped p g.sells) in
      rw (b, ← eligible-sells p g.sells)
        (omega (arith, e, volume-eligible-sort_stable sells_before (too_expensive p) g.sells))
  | inr b ↦
      let p = pos_part o.price in
      let e =
        match_loop-executed (too_cheap p) (sort_buys g.buys) g.index (pos_part o.quantity) 0 0
          (sort_buys-StaysStopped p g.buys) in
      rw (b, ← eligible-buys p g.buys)
        (omega (arith, e, volume-eligible-sort_stable buys_before (too_cheap p) g.buys))
]

match_market-executed :
    (g : GoldenOrderbook) (o : GoldenOrder)
    → (match_market g o).executed_qty ≡ min (pos_part o.quantity) (volume (opposite o g))
unfolding sort_sells sort_buys
match_market-executed g o = elim (Bool-cases (is_buy o.side)) [
  | inl b ↦
      let e =
        match_loop-executed never_stop (sort_sells g.sells) g.index (pos_part o.quantity) 0 0
          (never_stop-StaysStopped (sort_sells g.sells)) in
      rw b (
        omega (
          arith,
          e,
          volume-eligible-sort_stable sells_before never_stop g.sells,
          ap volume (eligible-all g.sells),
        ))
  | inr b ↦
      let e =
        match_loop-executed never_stop (sort_buys g.buys) g.index (pos_part o.quantity) 0 0
          (never_stop-StaysStopped (sort_buys g.buys)) in
      rw b (
        omega (
          arith,
          e,
          volume-eligible-sort_stable buys_before never_stop g.buys,
          ap volume (eligible-all g.buys),
        ))
]

-- A limit order with a positive quantity and price is accepted, and executes exactly the smaller of
-- its quantity and what rests on the opposite side at prices it accepts.
pub apply_limit-executed :
    (g : GoldenOrderbook) (o : GoldenOrder)
    → is_positive o.quantity ≡ true
    → is_positive o.price ≡ true
    → ((apply_limit g o).1.accepted ≡ true)
      × ((apply_limit g o).1.executed_qty ≡ pos (min (pos_part o.quantity) (volume (tradable o g))))
unfolding apply_limit
apply_limit-executed g o hq hp = rw (hq, hp) (refl, ap pos (match_limit-executed g o))

-- A market order with a positive quantity executes the smaller of its quantity and all that rests on the opposite side,
-- and is accepted exactly when that side holds anything.
pub apply_market-executed :
    (g : GoldenOrderbook) (o : GoldenOrder)
    → is_positive o.quantity ≡ true
    → ((apply_market g o).1.accepted ≡ ltb 0 (volume (opposite o g)))
      × ((apply_market g o).1.executed_qty
          ≡ pos (min (pos_part o.quantity) (volume (opposite o g))))
unfolding apply_market
apply_market-executed g o hq =
    let e = match_market-executed g o in
    let q = pos_part_pos o.quantity hq in rw (hq, e) (ground (arith, e), refl)

above_limit : (p : ℕ) (es : List BookEntry) → All (λ x. too_expensive p x ≡ false → x.price ≤ p) es
above_limit p [] = tt
above_limit p (e ∷ es) = (λ h. ground arith, above_limit p es)

below_limit : (p : ℕ) (es : List BookEntry) → All (λ x. too_cheap p x ≡ false → p ≤ x.price) es
below_limit p [] = tt
below_limit p (e ∷ es) = (λ h. ground arith, below_limit p es)

-- A limit order with a positive quantity and price that executes anything reports a price no worse than its limit: at most the limit
-- for a buy, at least the limit for a sell.
pub apply_limit-WithinLimit :
    (g : GoldenOrderbook) (o : GoldenOrder)
    → is_positive o.quantity ≡ true
    → is_positive o.price ≡ true
    → 0 < pos_part (apply_limit g o).1.executed_qty
    → WithinLimit o (pos_part (apply_limit g o).1.executed_price)
unfolding apply_limit
apply_limit-WithinLimit g o hq hp =
    rw (hq, hp)
      (elim (Bool-cases (is_buy o.side)) [
        | inl b ↦
            let p = pos_part o.price in
            let bound =
              match_loop-price (too_expensive p) (λ x. x ≤ p) (sort_sells g.sells) g.index
                (pos_part o.quantity) 0 0 (above_limit p (sort_sells g.sells)) (λ z. omega arith) in
            rw b (λ l. (λ _. bound l, λ c. cc))
        | inr b ↦
            let p = pos_part o.price in
            let bound =
              match_loop-price (too_cheap p) (λ x. p ≤ x) (sort_buys g.buys) g.index
                (pos_part o.quantity) 0 0 (below_limit p (sort_buys g.buys))
                (λ z. absurd (omega arith)) in
            rw b (λ l. (λ c. cc, λ _. bound l))
      ])
