-- ===== src/Orderbook/Invariant.antt =====
-- Every order keeps the golden orderbook of internal/correctness/orderbook.go sound.
use nexus_bench.Base.{
  ℕ, ◌≤◌, ◌<◌, ◌≡◌, true, false, List, [], ◌∷◌, ◌++◌, ltb, ltb→lt, All, All-map, All-append,
  Bool-cases, Option-cases, inl, inr, String, str_eq, pos_part, is_positive, pos_part_pos,
}
use nexus_bench.Base.Dict
use nexus_bench.Orderbook.{
  BookEntry, GoldenOrderbook, GoldenOrder, Side, OrderKind, is_buy, too_expensive, too_cheap,
  never_stop, match_limit, match_market, after_match, rest_remainder, rest_entry, apply_limit,
  apply_market, apply_cancel, remove_entry, cancel_side, apply_kind, apply, new_golden_orderbook,
  limit, market, cancel, other_kind,
}
use nexus_bench.Orderbook.Soundness.{
  IsOpen, Below, IsSound, All-both, sells_left-IsOpen, buys_left-IsOpen, sells_left-uncrossed,
  buys_left-uncrossed, new_buy-uncrossed, new_sell-uncrossed, match_limit-le,
}

-- What may come to rest: an open entry on its own side, at a price that crosses nothing.
abbrev MayRest : GoldenOrderbook → GoldenOrder → ℕ → Type 0
MayRest g o n =
    (0 < pos_part o.price)
    × (n ≤ pos_part o.quantity)
    × (is_buy o.side ≡ true → All (λ s. pos_part o.price < s.price) g.sells)
    × (is_buy o.side ≡ false → All (λ b. b.price < pos_part o.price) g.buys)

Below-append :
    (sells : List BookEntry) (s : BookEntry) (buys : List BookEntry)
    → All (Below sells) buys
    → All (λ b. b.price < s.price) buys
    → All (Below (sells ++ s ∷ [])) buys
Below-append sells s buys h k =
    All-map _ _ buys (λ b p. All-append _ sells (s ∷ []) p.0 (p.1, tt)) (All-both _ _ buys h k)

rest_remainder-IsSound :
    (g : GoldenOrderbook) (o : GoldenOrder) (n : ℕ)
    → (0 < n → MayRest g o n)
    → IsSound g
    → IsSound (rest_remainder g o n)
rest_remainder-IsSound g o n may v = elim (Bool-cases (ltb 0 n)) [
  | inr z ↦ rw z v
  | inl l ↦
      let m = may (ltb→lt 0 n l) in
      elim (Bool-cases (is_buy o.side)) [
        | inl b ↦
            rw (l, b)
              (record {
                buys_open =
                    All-append (IsOpen true) g.buys _ v.buys_open ((ltb→lt 0 n l, m.1, m.0, b), tt);
                sells_open = v.sells_open;
                uncrossed = All-append (Below g.sells) g.buys _ v.uncrossed (m.2 b, tt);
              })
        | inr b ↦
            rw (l, b)
              (record {
                buys_open = v.buys_open;
                sells_open =
                    All-append (IsOpen false) g.sells _ v.sells_open
                      ((ltb→lt 0 n l, m.1, m.0, b), tt);
                uncrossed = Below-append g.sells (rest_entry o g.seq n) g.buys v.uncrossed (m.3 b);
              })
      ]
]

after_limit-IsSound :
    (g : GoldenOrderbook) (o : GoldenOrder)
    → IsSound g
    → IsSound (after_match g o (match_limit g o))
after_limit-IsSound g o v =
    let p = pos_part o.price in
    let q = pos_part o.quantity in
    elim (Bool-cases (is_buy o.side)) [
      | inl b ↦ rw b (record {
        buys_open = v.buys_open;
        sells_open = sells_left-IsOpen (too_expensive p) g.index q g.sells false v.sells_open;
        uncrossed = sells_left-uncrossed (too_expensive p) g.index q g.sells g.buys v.uncrossed;
      })
      | inr b ↦ rw b (record {
        buys_open = buys_left-IsOpen (too_cheap p) g.index q g.buys true v.buys_open;
        sells_open = v.sells_open;
        uncrossed = buys_left-uncrossed (too_cheap p) g.index q g.buys g.sells v.uncrossed;
      })
    ]

after_market-IsSound :
    (g : GoldenOrderbook) (o : GoldenOrder)
    → IsSound g
    → IsSound (after_match g o (match_market g o))
after_market-IsSound g o v =
    let q = pos_part o.quantity in
    elim (Bool-cases (is_buy o.side)) [
      | inl b ↦ rw b (record {
        buys_open = v.buys_open;
        sells_open = sells_left-IsOpen never_stop g.index q g.sells false v.sells_open;
        uncrossed = sells_left-uncrossed never_stop g.index q g.sells g.buys v.uncrossed;
      })
      | inr b ↦ rw b (record {
        buys_open = buys_left-IsOpen never_stop g.index q g.buys true v.buys_open;
        sells_open = v.sells_open;
        uncrossed = buys_left-uncrossed never_stop g.index q g.buys g.sells v.uncrossed;
      })
    ]

limit-MayRest :
    (g : GoldenOrderbook) (o : GoldenOrder)
    → is_positive o.price ≡ true
    → 0 < (match_limit g o).remaining
    → MayRest (after_match g o (match_limit g o)) o (match_limit g o).remaining
limit-MayRest g o hp =
    let p = pos_part o.price in
    let q = pos_part o.quantity in
    let le = match_limit-le g o in
    let positive = pos_part_pos o.price hp in
    elim (Bool-cases (is_buy o.side)) [
      | inl b ↦
          rw b
            (λ l. (positive, rw b at le, (λ _. new_buy-uncrossed p q g.index g.sells l), λ c. cc))
      | inr b ↦
          rw b
            (λ l. (positive, rw b at le, (λ c. cc), λ _. new_sell-uncrossed p q g.index g.buys l))
    ]

apply_limit-IsSound :
    (g : GoldenOrderbook) (o : GoldenOrder) → IsSound g → IsSound (apply_limit g o).0
unfolding apply_limit
apply_limit-IsSound g o v = elim (Bool-cases (is_positive o.quantity)) [
  | inr a ↦ rw a v
  | inl a ↦ elim (Bool-cases (is_positive o.price)) [
    | inr b ↦ rw (a, b) v
    | inl b ↦
        rw (a, b)
          (rest_remainder-IsSound (after_match g o (match_limit g o)) o (match_limit g o).remaining
            (limit-MayRest g o b) (after_limit-IsSound g o v))
  ]
]

apply_market-IsSound :
    (g : GoldenOrderbook) (o : GoldenOrder) → IsSound g → IsSound (apply_market g o).0
unfolding apply_market
apply_market-IsSound g o v = elim (Bool-cases (is_positive o.quantity)) [
  | inr a ↦ rw a v
  | inl a ↦ rw a (after_market-IsSound g o v)
]

All-remove_entry :
    (P : BookEntry → Type 0) (es : List BookEntry) (id : String)
    → All P es
    → All P (remove_entry es id)
unfolding remove_entry
All-remove_entry P [] id h = tt
All-remove_entry P (e ∷ es) id h = elim (Bool-cases (str_eq e.id id)) [
  | inl s ↦ rw s h.1
  | inr s ↦ rw s (h.0, All-remove_entry P es id h.1)
]

cancel_side-IsSound :
    (g : GoldenOrderbook) (id : String) (side : Side) → IsSound g → IsSound (cancel_side g id side)
unfolding cancel_side
cancel_side-IsSound g id side v = elim (Bool-cases (is_buy side)) [
  | inl b ↦ rw b (record {
    buys_open = All-remove_entry _ g.buys id v.buys_open;
    sells_open = v.sells_open;
    uncrossed = All-remove_entry _ g.buys id v.uncrossed;
  })
  | inr b ↦ rw b (record {
    buys_open = v.buys_open;
    sells_open = All-remove_entry _ g.sells id v.sells_open;
    uncrossed = All-map _ _ g.buys (λ x h. All-remove_entry _ g.sells id h) v.uncrossed;
  })
]

apply_cancel-IsSound :
    (g : GoldenOrderbook) (o : GoldenOrder) → IsSound g → IsSound (apply_cancel g o).0
unfolding apply_cancel
apply_cancel-IsSound g o v = elim (Option-cases (Dict.get o.id g.index)) [
  | inl e ↦ rw (e, apply_cancel) v
  | inr (side, e) ↦ rw (e, apply_cancel) (cancel_side-IsSound g o.id side v)
]

apply_kind-IsSound :
    (k : OrderKind) (g : GoldenOrderbook) (o : GoldenOrder)
    → IsSound g
    → IsSound (apply_kind k g o).0
apply_kind-IsSound limit g o v = apply_limit-IsSound g o v
apply_kind-IsSound market g o v = apply_market-IsSound g o v
apply_kind-IsSound cancel g o v = apply_cancel-IsSound g o v
apply_kind-IsSound (other_kind k) g o v = v

-- Any order, of any kind and with any fields, refused or not, keeps the book sound: every resting
-- entry is open and on its own side, and every buy is priced below every sell.
pub apply-IsSound : (g : GoldenOrderbook) (o : GoldenOrder) → IsSound g → IsSound (apply g o).0
unfolding apply
apply-IsSound g o v = elim (Bool-cases (str_eq o.id "")) [
  | inl e ↦ rw e v
  | inr e ↦ rw e (apply_kind-IsSound o.kind g o v)
]

pub new_golden_orderbook-IsSound : IsSound new_golden_orderbook
unfolding new_golden_orderbook
new_golden_orderbook-IsSound = record { buys_open = tt; sells_open = tt; uncrossed = tt }
