-- ===== src/Orderbook/Cancel.antt =====
-- Every order of internal/correctness/orderbook.go keeps the cancel index exact, and a cancel takes
-- out exactly the order that it names.
use nexus_bench.Base.{
  ◌≡◌, ◌≢◌, refl, arith, ltb, none, some, Bool-cases, Option-cases, inl, inr, String, str_eq,
  eq_iff, is_positive,
}
use nexus_bench.Base.Dict.{get, get-remove}
use nexus_bench.Orderbook.{
  GoldenOrderbook, GoldenOrder, Side, OrderKind, match_limit, after_match, apply_limit,
  apply_market, apply_cancel, cancel_side, apply_kind, apply, new_golden_orderbook, limit, market,
  cancel, other_kind,
}
use nexus_bench.Orderbook.Index.{
  IsIndexed, resting_orders, occurrences-remove_entry, after_limit-IsIndexed,
  after_market-IsIndexed, after_limit-unknown, rest_remainder-IsIndexed,
}

cancel_side-IsIndexed :
    (g : GoldenOrderbook) (id : String) (side : Side)
    → get id g.index ≡ some side
    → IsIndexed g
    → IsIndexed (cancel_side g id side)
unfolding cancel_side
cancel_side-IsIndexed g id side e v = record {
  unique = λ j. ground (
    arith,
    v.unique j,
    occurrences-remove_entry id j g.buys,
    occurrences-remove_entry id j g.sells,
  );
  known = λ j s k. ground (
    arith,
    v.known j s,
    eq_iff id j,
    get-remove id j g.index,
    occurrences-remove_entry id j g.buys,
    occurrences-remove_entry id j g.sells,
  );
  unknown = λ j k. ground (
    arith,
    v.unknown j,
    v.unique j,
    v.known id side e,
    eq_iff id j,
    get-remove id j g.index,
    occurrences-remove_entry id j g.buys,
    occurrences-remove_entry id j g.sells,
  );
}

apply_limit-IsIndexed :
    (g : GoldenOrderbook) (o : GoldenOrder)
    → get o.id g.index ≡ none
    → IsIndexed g
    → IsIndexed (apply_limit g o).0
unfolding apply_limit
apply_limit-IsIndexed g o fresh v = elim (Bool-cases (is_positive o.quantity)) [
  | inr a ↦ rw a v
  | inl a ↦ elim (Bool-cases (is_positive o.price)) [
    | inr b ↦ rw (a, b) v
    | inl b ↦
        rw (a, b)
          (rest_remainder-IsIndexed (after_match g o (match_limit g o)) o
            (match_limit g o).remaining (after_limit-unknown g o o.id v fresh)
            (after_limit-IsIndexed g o v))
  ]
]

apply_market-IsIndexed :
    (g : GoldenOrderbook) (o : GoldenOrder) → IsIndexed g → IsIndexed (apply_market g o).0
unfolding apply_market
apply_market-IsIndexed g o v = elim (Bool-cases (is_positive o.quantity)) [
  | inr a ↦ rw a v
  | inl a ↦ rw a (after_market-IsIndexed g o v)
]

apply_cancel-IsIndexed :
    (g : GoldenOrderbook) (o : GoldenOrder) → IsIndexed g → IsIndexed (apply_cancel g o).0
unfolding apply_cancel
apply_cancel-IsIndexed g o v = elim (Option-cases (get o.id g.index)) [
  | inl e ↦ rw (e, apply_cancel) v
  | inr (side, e) ↦ rw (e, apply_cancel) (cancel_side-IsIndexed g o.id side e v)
]

apply_kind-IsIndexed :
    (k : OrderKind) (g : GoldenOrderbook) (o : GoldenOrder)
    → (k ≡ limit → get o.id g.index ≡ none)
    → IsIndexed g
    → IsIndexed (apply_kind k g o).0
apply_kind-IsIndexed limit g o fresh v = apply_limit-IsIndexed g o (fresh refl) v
apply_kind-IsIndexed market g o fresh v = apply_market-IsIndexed g o v
apply_kind-IsIndexed cancel g o fresh v = apply_cancel-IsIndexed g o v
apply_kind-IsIndexed (other_kind k) g o fresh v = v

-- Where no limit order reuses the ID of an order that still rests, every order keeps the index
-- exact: no ID rests twice, an indexed ID rests once, on the side that the index names, and an ID
-- that is not indexed does not rest.
pub apply-IsIndexed :
    (g : GoldenOrderbook) (o : GoldenOrder)
    → (o.kind ≡ limit → get o.id g.index ≡ none)
    → IsIndexed g
    → IsIndexed (apply g o).0
unfolding apply
apply-IsIndexed g o fresh v = elim (Bool-cases (str_eq o.id "")) [
  | inl e ↦ rw e v
  | inr e ↦ rw e (apply_kind-IsIndexed o.kind g o fresh v)
]

-- With an exact index a cancel is accepted exactly when its order rests in the book; then that
-- order is gone and every other ID rests as often as before.
pub apply_cancel_lem :
    (g : GoldenOrderbook) (o : GoldenOrder)
    → IsIndexed g
    → ((apply_cancel g o).1.accepted ≡ ltb 0 (resting_orders o.id g))
      × (resting_orders o.id (apply_cancel g o).0 ≡ 0)
      × ((j : String) → j ≢ o.id → resting_orders j (apply_cancel g o).0 ≡ resting_orders j g)
unfolding apply_cancel cancel_side
apply_cancel_lem g o v = elim (Option-cases (get o.id g.index)) [
  | inl e ↦ let u = v.unknown o.id e in rw (e, apply_cancel) (ground (arith, u), u, (λ j ne. refl))
  | inr (side, e) ↦
      rw (e, apply_cancel)
        (
          ground (arith, v.known o.id side e, v.unique o.id),
          ground (
            arith,
            v.known o.id side e,
            v.unique o.id,
            eq_iff o.id o.id,
            occurrences-remove_entry o.id o.id g.buys,
            occurrences-remove_entry o.id o.id g.sells,
          ),
          (λ j ne. ground (
            arith,
            ne,
            eq_iff o.id j,
            occurrences-remove_entry o.id j g.buys,
            occurrences-remove_entry o.id j g.sells,
          )),
        )
]

pub new_golden_orderbook-IsIndexed : IsIndexed new_golden_orderbook
unfolding new_golden_orderbook get
new_golden_orderbook-IsIndexed = record {
  unique = λ id. omega arith;
  known = λ id s e. cc;
  unknown = λ id e. refl;
}
