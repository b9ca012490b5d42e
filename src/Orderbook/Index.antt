-- ===== src/Orderbook/Index.antt =====
-- The cancel index of internal/correctness/orderbook.go: it knows exactly the resting orders,
-- also after the matching loop and after an order comes to rest.
use nexus_bench.Base.{
  ℕ, ◌+◌, ◌-◌, ◌≤◌, ◌≡◌, ◌⊎◌, refl, Bool, List, [], ◌∷◌, arith, none, some, if◌then◌else◌, sum_of,
  sum_of-append, Bool-cases, inl, inr, String, str_eq, eq_iff, pos_part,
}
use nexus_bench.Base.Dict
use nexus_bench.Base.Dict.{get, put, remove, get-put, get-remove}
use nexus_bench.Base.Sorting.{sum_of-sort_stable}
use nexus_bench.Orderbook.{
  BookEntry, GoldenOrderbook, GoldenOrder, Side, Matched, is_buy, buys_before, sells_before,
  sort_buys, sort_sells, too_expensive, too_cheap, never_stop, match_loop, match_limit, min64,
  match_market, after_match, rest_remainder, rest_entry, remove_entry,
}

abbrev pub has_id : String → BookEntry → ℕ
has_id id e = if str_eq e.id id then 1 else 0

-- How often an ID rests on a side, and in the book.
abbrev pub occurrences : String → List BookEntry → ℕ
occurrences id = sum_of (has_id id)

abbrev pub resting_orders : String → GoldenOrderbook → ℕ
resting_orders id g = occurrences id g.buys + occurrences id g.sells

abbrev pub side_of : GoldenOrderbook → Side → List BookEntry
side_of g s = if is_buy s then g.buys else g.sells

pub record IsIndexed (g : GoldenOrderbook) : Type 0 where
  pub unique : (id : String) → resting_orders id g ≤ 1
  pub known : (id : String) (s : Side) → get id g.index ≡ some s → occurrences id (side_of g s) ≡ 1
  pub unknown : (id : String) → get id g.index ≡ none → resting_orders id g ≡ 0

-- What the loop does to one ID: nothing, or its only entry is filled and leaves side and index.
abbrev pub KeepsOrFills : String → List BookEntry → Dict.Dict Side → Matched → Type 0
KeepsOrFills id es ix m =
    ((occurrences id m.resting ≡ occurrences id es) × (get id m.index ≡ get id ix))
    ⊎ ((occurrences id m.resting ≡ 0) × (get id m.index ≡ none) × (occurrences id es ≡ 1))

match_loop-KeepsOrFills :
    (id : String) (stop : BookEntry → Bool) (es : List BookEntry) (ix : Dict.Dict Side) (r q p : ℕ)
    → occurrences id es ≤ 1
    → KeepsOrFills id es ix (match_loop stop es ix r q p)
unfolding match_loop
match_loop-KeepsOrFills id stop [] ix r q p u = inl (refl, refl)
match_loop-KeepsOrFills id stop (e ∷ es) ix r q p u =
    let k = min64 r e.remaining_q in
    ground (
      arith,
      get-remove e.id id ix,
      match_loop-KeepsOrFills id stop es (remove e.id ix) (r - k) (q + k) e.price,
    )

pub occurrences-remove_entry :
    (id j : String) (es : List BookEntry)
    → occurrences j (remove_entry es id)
      ≡ (if str_eq id j then occurrences j es - 1 else occurrences j es)
unfolding remove_entry
occurrences-remove_entry id j [] = ground arith
occurrences-remove_entry id j (e ∷ es) =
    ground (arith, eq_iff e.id id, eq_iff e.id j, eq_iff id j, occurrences-remove_entry id j es)

sells_matched :
    (g : GoldenOrderbook) (m : Matched) (n : ℕ)
    → ((id : String) → KeepsOrFills id g.sells g.index m)
    → IsIndexed g
    → IsIndexed (record g { sells = m.resting; index = m.index; seq = n })
sells_matched g m n kf v = record {
  unique = λ id. ground (arith, v.unique id, kf id);
  known = λ id s e. ground (arith, v.unique id, kf id, v.known id s);
  unknown = λ id e. ground (arith, v.unique id, kf id, v.unknown id);
}

buys_matched :
    (g : GoldenOrderbook) (m : Matched) (n : ℕ)
    → ((id : String) → KeepsOrFills id g.buys g.index m)
    → IsIndexed g
    → IsIndexed (record g { buys = m.resting; index = m.index; seq = n })
buys_matched g m n kf v = record {
  unique = λ id. ground (arith, v.unique id, kf id);
  known = λ id s e. ground (arith, v.unique id, kf id, v.known id s);
  unknown = λ id e. ground (arith, v.unique id, kf id, v.unknown id);
}

module _ (g : GoldenOrderbook) (v : IsIndexed g) (stop : BookEntry → Bool) (q : ℕ) where
  match_sells :
      (id : String)
      → KeepsOrFills id g.sells g.index (match_loop stop (sort_sells g.sells) g.index q 0 0)
  unfolding sort_sells
  match_sells id =
      let s = sum_of-sort_stable sells_before (has_id id) g.sells in
      let u = v.unique id in
      ground (
        arith,
        s,
        u,
        match_loop-KeepsOrFills id stop (sort_sells g.sells) g.index q 0 0 (omega (arith, s, u)),
      )

  match_buys :
      (id : String)
      → KeepsOrFills id g.buys g.index (match_loop stop (sort_buys g.buys) g.index q 0 0)
  unfolding sort_buys
  match_buys id =
      let s = sum_of-sort_stable buys_before (has_id id) g.buys in
      let u = v.unique id in
      ground (
        arith,
        s,
        u,
        match_loop-KeepsOrFills id stop (sort_buys g.buys) g.index q 0 0 (omega (arith, s, u)),
      )

  sells_after :
      (n : ℕ)
      → let m = match_loop stop (sort_sells g.sells) g.index q 0 0 in
        IsIndexed (record g { sells = m.resting; index = m.index; seq = n })
  sells_after n =
      sells_matched g (match_loop stop (sort_sells g.sells) g.index q 0 0) n match_sells v

  buys_after :
      (n : ℕ)
      → let m = match_loop stop (sort_buys g.buys) g.index q 0 0 in
        IsIndexed (record g { buys = m.resting; index = m.index; seq = n })
  buys_after n = buys_matched g (match_loop stop (sort_buys g.buys) g.index q 0 0) n match_buys v

pub after_limit-IsIndexed :
    (g : GoldenOrderbook) (o : GoldenOrder)
    → IsIndexed g
    → IsIndexed (after_match g o (match_limit g o))
after_limit-IsIndexed g o v = elim (Bool-cases (is_buy o.side)) [
  | inl b ↦ rw b (sells_after g v (too_expensive (pos_part o.price)) (pos_part o.quantity) _)
  | inr b ↦ rw b (buys_after g v (too_cheap (pos_part o.price)) (pos_part o.quantity) _)
]

pub after_market-IsIndexed :
    (g : GoldenOrderbook) (o : GoldenOrder)
    → IsIndexed g
    → IsIndexed (after_match g o (match_market g o))
after_market-IsIndexed g o v = elim (Bool-cases (is_buy o.side)) [
  | inl b ↦ rw b (sells_after g v never_stop (pos_part o.quantity) _)
  | inr b ↦ rw b (buys_after g v never_stop (pos_part o.quantity) _)
]

pub after_limit-unknown :
    (g : GoldenOrderbook) (o : GoldenOrder) (id : String)
    → IsIndexed g
    → get id g.index ≡ none
    → get id (after_match g o (match_limit g o)).index ≡ none
after_limit-unknown g o id v e = elim (Bool-cases (is_buy o.side)) [
  | inl b ↦ rw b (
      ground
        (arith, e, match_sells g v (too_expensive (pos_part o.price)) (pos_part o.quantity) id))
  | inr b ↦
      rw b
        (ground (arith, e, match_buys g v (too_cheap (pos_part o.price)) (pos_part o.quantity) id))
]

pub rest_remainder-IsIndexed :
    (g : GoldenOrderbook) (o : GoldenOrder) (n : ℕ)
    → get o.id g.index ≡ none
    → IsIndexed g
    → IsIndexed (rest_remainder g o n)
rest_remainder-IsIndexed g o n fresh v = record {
  unique = λ id. ground (
    arith,
    v.unique id,
    v.unknown o.id fresh,
    eq_iff o.id id,
    sum_of-append (has_id id) g.buys (rest_entry o g.seq n ∷ []),
    sum_of-append (has_id id) g.sells (rest_entry o g.seq n ∷ []),
  );
  known = λ id s e. ground (
    arith,
    v.known id s,
    v.unknown o.id fresh,
    eq_iff o.id id,
    get-put o.id id o.side g.index,
    sum_of-append (has_id id) g.buys (rest_entry o g.seq n ∷ []),
    sum_of-append (has_id id) g.sells (rest_entry o g.seq n ∷ []),
  );
  unknown = λ id e. ground (
    arith,
    v.unknown id,
    eq_iff o.id id,
    get-put o.id id o.side g.index,
    sum_of-append (has_id id) g.buys (rest_entry o g.seq n ∷ []),
    sum_of-append (has_id id) g.sells (rest_entry o g.seq n ∷ []),
  );
}
