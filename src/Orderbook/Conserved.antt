-- ===== src/Orderbook/Conserved.antt =====
-- What an order of internal/correctness/orderbook.go leaves in the book: `applyLimit` and
-- `applyMarket` conserve quantity, and take it in price-time priority.
use nexus_bench.Base.{
  ℕ, ◌+◌, ◌-◌, ◌≤◌, ◌<◌, ◌≡◌, Bool, true, List, [], ◌∷◌, arith, if◌then◌else◌, All, sum_of-append,
  Bool-cases, inl, inr, pos_part, is_positive, Perm,
}
use nexus_bench.Base.Dict.{Dict}
use nexus_bench.Base.Sorting.{IsSorted, sort_stable-perm, sum_of-sort_stable, All-sort_stable}
use nexus_bench.Orderbook.{
  BookEntry, Side, GoldenOrderbook, GoldenOrder, is_buy, buys_before, sells_before, sort_buys,
  sort_sells, too_expensive, too_cheap, never_stop, match_loop, match_limit, match_market,
  after_match, rest_remainder, rest_entry, apply_limit, apply_market,
}
use nexus_bench.Orderbook.Matching.{volume, deduct, match_loop-volume, match_loop-deduct}
use nexus_bench.Orderbook.Limit.{opposite, own}
use nexus_bench.Orderbook.Priority.{sort_sells-IsSorted, sort_buys-IsSorted}

abbrev pub ranked_before : GoldenOrder → BookEntry → BookEntry → Bool
ranked_before o = if is_buy o.side then sells_before else buys_before

-- `after` is `before` with `n` units taken in price-time priority: best price first, then arrival.
abbrev pub TakesBest : GoldenOrder → List BookEntry → List BookEntry → ℕ → Type 0
TakesBest o before after n =
    (ranked : List BookEntry) × Perm ranked before
    × IsSorted (ranked_before o) ranked
    × (after ≡ deduct ranked n)

-- `n` units leave the opposite side, and `kept` units come to the order's own side.
abbrev pub Moves : GoldenOrder → GoldenOrderbook → GoldenOrderbook → ℕ → ℕ → Type 0
Moves o g g' n kept =
    (volume (opposite o g') + n ≡ volume (opposite o g))
    × (volume (own o g') ≡ volume (own o g) + kept)

-- Quantity is conserved: what a limit order with a positive quantity and price
-- executes is at most its quantity and leaves the opposite side, and all the rest of
-- its quantity comes to rest on its own side.
pub apply_limit-Moves :
    (g : GoldenOrderbook) (o : GoldenOrder)
    → is_positive o.quantity ≡ true
    → is_positive o.price ≡ true
    → let n = pos_part (apply_limit g o).1.executed_qty in
      (n ≤ pos_part o.quantity) × Moves o g (apply_limit g o).0 n (pos_part o.quantity - n)
unfolding apply_limit sort_sells sort_buys
apply_limit-Moves g o hq hp =
    rw (hq, hp)
      (elim (Bool-cases (is_buy o.side)) [
        | inl b ↦
            let v =
              match_loop-volume (too_expensive (pos_part o.price)) (sort_sells g.sells) g.index
                (pos_part o.quantity) 0 0 in
            let s = sum_of-sort_stable sells_before (λ e. e.remaining_q) g.sells in
            let a = sum_of-append (λ (e : BookEntry). e.remaining_q) g.buys in
            rw b (
              ground (
                arith,
                v,
                s,
                a (
                    rest_entry o (after_match g o (match_limit g o)).seq (match_limit g o).remaining
                    ∷ []),
              ))
        | inr b ↦
            let v =
              match_loop-volume (too_cheap (pos_part o.price)) (sort_buys g.buys) g.index
                (pos_part o.quantity) 0 0 in
            let s = sum_of-sort_stable buys_before (λ e. e.remaining_q) g.buys in
            let a = sum_of-append (λ (e : BookEntry). e.remaining_q) g.sells in
            rw b (
              ground (
                arith,
                v,
                s,
                a (
                    rest_entry o (after_match g o (match_limit g o)).seq (match_limit g o).remaining
                    ∷ []),
              ))
      ])

-- Every entry holds a quantity that can still be matched.
abbrev pub HasOpenEntries : List BookEntry → Type 0
HasOpenEntries = All λ e. 0 < e.remaining_q

module _ (stop : BookEntry → Bool) (ix : Dict Side) (r : ℕ) (es : List BookEntry) where
  take_sells :
      HasOpenEntries es
      → let m = match_loop stop (sort_sells es) ix r 0 0 in
        (ranked : List BookEntry) × Perm ranked es
        × IsSorted sells_before ranked
        × (m.resting ≡ deduct ranked m.executed_qty)
  unfolding sort_sells
  take_sells h = (
    sort_sells es,
    sort_stable-perm sells_before es,
    sort_sells-IsSorted es,
    match_loop-deduct stop (sort_sells es) ix r 0 0 _ (All-sort_stable sells_before _ es h)
        (omega arith),
  )

  take_buys :
      HasOpenEntries es
      → let m = match_loop stop (sort_buys es) ix r 0 0 in
        (ranked : List BookEntry) × Perm ranked es
        × IsSorted buys_before ranked
        × (m.resting ≡ deduct ranked m.executed_qty)
  unfolding sort_buys
  take_buys h = (
    sort_buys es,
    sort_stable-perm buys_before es,
    sort_buys-IsSorted es,
    match_loop-deduct stop (sort_buys es) ix r 0 0 _ (All-sort_stable buys_before _ es h)
        (omega arith),
  )

opposite-rest_remainder :
    (g : GoldenOrderbook) (o : GoldenOrder) (n : ℕ)
    → opposite o (rest_remainder g o n) ≡ opposite o g
opposite-rest_remainder g o n = ground arith

match_limit-TakesBest :
    (g : GoldenOrderbook) (o : GoldenOrder)
    → HasOpenEntries (opposite o g)
    → let m = match_limit g o in
      TakesBest o (opposite o g) (opposite o (after_match g o m)) m.executed_qty
match_limit-TakesBest g o h = elim (Bool-cases (is_buy o.side)) [
  | inl b ↦ rw b (
      take_sells (too_expensive (pos_part o.price)) g.index (pos_part o.quantity) g.sells
        (rw b at h))
  | inr b ↦
      rw b
        (take_buys (too_cheap (pos_part o.price)) g.index (pos_part o.quantity) g.buys (rw b at h))
]

match_market-TakesBest :
    (g : GoldenOrderbook) (o : GoldenOrder)
    → HasOpenEntries (opposite o g)
    → let m = match_market g o in
      TakesBest o (opposite o g) (opposite o (after_match g o m)) m.executed_qty
match_market-TakesBest g o h = elim (Bool-cases (is_buy o.side)) [
  | inl b ↦ rw b (take_sells never_stop g.index (pos_part o.quantity) g.sells (rw b at h))
  | inr b ↦ rw b (take_buys never_stop g.index (pos_part o.quantity) g.buys (rw b at h))
]

-- Price-time priority, where every entry of the opposite side is open: the opposite side after a limit order with a positive
-- quantity and price is the side before, ranked by best price and then by arrival, with exactly
-- the executed units taken from its front.
pub apply_limit-TakesBest :
    (g : GoldenOrderbook) (o : GoldenOrder)
    → is_positive o.quantity ≡ true
    → is_positive o.price ≡ true
    → HasOpenEntries (opposite o g)
    → let r = apply_limit g o in
      TakesBest o (opposite o g) (opposite o r.0) (pos_part r.1.executed_qty)
unfolding apply_limit
apply_limit-TakesBest g o hq hp h =
    rw (hq, hp)
      (rw
        (opposite-rest_remainder (after_match g o (match_limit g o)) o (match_limit g o).remaining)
        (match_limit-TakesBest g o h))

-- Price-time priority of a market order with a positive quantity, where every entry of the opposite
-- side is open: the opposite side after it is the side before, ranked by best price and then by
-- arrival, with exactly the executed units taken from its front.
pub apply_market-TakesBest :
    (g : GoldenOrderbook) (o : GoldenOrder)
    → is_positive o.quantity ≡ true
    → HasOpenEntries (opposite o g)
    → let r = apply_market g o in
      TakesBest o (opposite o g) (opposite o r.0) (pos_part r.1.executed_qty)
unfolding apply_market
apply_market-TakesBest g o hq h = rw hq (match_market-TakesBest g o h)
