-- ===== src/Orderbook.antt =====
-- internal/correctness/orderbook.go: the golden orderbook, a price-time priority matching engine.
-- An int64 order field is an integer; what rests in the book has passed the `<= 0` guards (or is a
-- market order, which never rests), so the fields of a resting entry are natural numbers. Of the
-- entry that `index` points to the code reads only `side`, which never changes, so the index holds
-- the side and no alias of the entry. `seq` is a uint64 and wraps.
pub mod Matching
pub mod Priority
pub mod Limit
pub mod Conserved
pub mod Soundness
pub mod Index
pub mod Cancel
pub mod Invariant
use nexus_bench.Base.{
  ℕ, zero, suc, ◌+◌, ◌-◌, ◌%◌, ◌^◌, String, Bool, true, false, Option, none, some, List, [], ◌∷◌,
  ◌++◌, ℤ, pos, pos_part, is_positive, ltb, ◌==◌, if◌then◌else◌, str_eq,
}
use nexus_bench.Base.Dict
use nexus_bench.Base.Dict.{Dict, get, put, remove}
use nexus_bench.Base.Sorting.{sort_stable}

-- `Side` is a string type; the code only tests it against "buy".
pub data Side : Type 0 where
  buy sell : Side
  other_side : String → Side

pub data OrderKind : Type 0 where
  limit market cancel : OrderKind
  other_kind : String → OrderKind

pub record GoldenOrder : Type 0 where
  pub id : String
  pub kind : OrderKind
  pub side : Side
  pub price : ℤ
  pub quantity : ℤ

pub record GoldenFill : Type 0 where
  pub order_id : String
  pub executed_price : ℤ
  pub executed_qty : ℤ
  pub accepted : Bool

pub record BookEntry : Type 0 where
  pub id : String
  pub side : Side
  pub price : ℕ
  pub quantity : ℕ
  pub seq : ℕ
  pub remaining_q : ℕ

pub record GoldenOrderbook : Type 0 where
  pub buys : List BookEntry
  pub sells : List BookEntry
  pub index : Dict Side
  pub seq : ℕ

pub data ApplyError : Type 0 where
  empty_order_id : ApplyError
  unknown_order_kind : String → ApplyError

pub data ApplyResult : Type 0 where
  filled : GoldenFill → ApplyResult
  failed : ApplyError → ApplyResult

unfoldable pub new_golden_orderbook : GoldenOrderbook
new_golden_orderbook = record { buys = []; sells = []; index = []; seq = 0 }

abbrev pub is_buy : Side → Bool
is_buy buy = true
is_buy sell = false
is_buy (other_side s) = false

-- the comparison of `sortBuys`
abbrev pub buys_before : BookEntry → BookEntry → Bool
buys_before a b = if a.price == b.price then ltb a.seq b.seq else ltb b.price a.price

-- the comparison of `sortSells`
abbrev pub sells_before : BookEntry → BookEntry → Bool
sells_before a b = if a.price == b.price then ltb a.seq b.seq else ltb a.price b.price

unfoldable pub sort_buys : List BookEntry → List BookEntry
sort_buys = sort_stable buys_before

unfoldable pub sort_sells : List BookEntry → List BookEntry
sort_sells = sort_stable sells_before

abbrev pub min64 : ℕ → ℕ → ℕ
min64 a b = if ltb a b then a else b

-- The variables of the matching loop: the side that is matched against, the index, and the locals.
pub record Matched : Type 0 where
  pub resting : List BookEntry
  pub index : Dict Side
  pub remaining : ℕ
  pub executed_qty : ℕ
  pub executed_price : ℕ

-- The `for len(side) > 0 && remaining > 0` loop, which stands four times in the source: `stop` is
-- its `break` test. Where the best entry keeps a remainder, `remaining` has become 0 and the loop
-- is over.
unfoldable pub match_loop : (BookEntry → Bool) → List BookEntry → Dict Side → ℕ → ℕ → ℕ → Matched
match_loop stop [] index remaining qty price = record {
  resting = [];
  index = index;
  remaining = remaining;
  executed_qty = qty;
  executed_price = price;
}
match_loop stop (best ∷ rest) index remaining qty price =
    let match_qty = min64 remaining best.remaining_q in
    let left = best.remaining_q - match_qty in
    let stopped : Matched = record {
      resting = best ∷ rest;
      index = index;
      remaining = remaining;
      executed_qty = qty;
      executed_price = price;
    } in
    let partial : Matched = record {
      resting = record best { remaining_q = left } ∷ rest;
      index = index;
      remaining = remaining - match_qty;
      executed_qty = qty + match_qty;
      executed_price = best.price;
    } in
    let next =
      match_loop stop rest (Dict.remove best.id index) (remaining - match_qty) (qty + match_qty)
        best.price in
    if remaining == 0
    then stopped
    else if stop best
    then stopped
    else if left == 0
    then next
    else partial

-- the `break` tests of the two sides of a limit order, and their absence in a market order
abbrev pub too_expensive : ℕ → BookEntry → Bool
too_expensive price best = ltb price best.price

abbrev pub too_cheap : ℕ → BookEntry → Bool
too_cheap price best = ltb best.price price

abbrev pub never_stop : BookEntry → Bool
never_stop best = false

abbrev pub reject : String → GoldenFill
reject id = record { order_id = id; executed_price = pos 0; executed_qty = pos 0; accepted = false }

abbrev pub next_seq : ℕ → ℕ
next_seq n = (n + 1) % 2 ^ 64

-- the entry that rests with what was not matched
abbrev pub rest_entry : GoldenOrder → ℕ → ℕ → BookEntry
rest_entry o seq remaining = record {
  id = o.id;
  side = o.side;
  price = pos_part o.price;
  quantity = pos_part o.quantity;
  seq = seq;
  remaining_q = remaining;
}

-- `if remaining > 0` of `applyLimit`, for either side
abbrev pub rest_remainder : GoldenOrderbook → GoldenOrder → ℕ → GoldenOrderbook
rest_remainder g o remaining =
    let entry = rest_entry o g.seq remaining in
    if ltb 0 remaining
    then if is_buy o.side
      then record g { buys = g.buys ++ entry ∷ []; index = Dict.put o.id o.side g.index }
      else record g { sells = g.sells ++ entry ∷ []; index = Dict.put o.id o.side g.index }
    else g

-- the part of `applyLimit` behind the guards; `m` is what the loop on the other side leaves
abbrev pub match_limit : GoldenOrderbook → GoldenOrder → Matched
match_limit g o =
    if is_buy o.side
    then match_loop (too_expensive (pos_part o.price)) (sort_sells g.sells) g.index
        (pos_part o.quantity) 0 0
    else match_loop (too_cheap (pos_part o.price)) (sort_buys g.buys) g.index (pos_part o.quantity)
        0 0

abbrev pub match_market : GoldenOrderbook → GoldenOrder → Matched
match_market g o =
    if is_buy o.side
    then match_loop never_stop (sort_sells g.sells) g.index (pos_part o.quantity) 0 0
    else match_loop never_stop (sort_buys g.buys) g.index (pos_part o.quantity) 0 0

-- the book when the loop is done: the matched side, the index and the sequence number are new
abbrev pub after_match : GoldenOrderbook → GoldenOrder → Matched → GoldenOrderbook
after_match g o m =
    if is_buy o.side
    then record g { sells = m.resting; index = m.index; seq = next_seq g.seq }
    else record g { buys = m.resting; index = m.index; seq = next_seq g.seq }

abbrev pub fill_of : GoldenOrder → Matched → Bool → GoldenFill
fill_of o m ok = record {
  order_id = o.id;
  executed_price = pos m.executed_price;
  executed_qty = pos m.executed_qty;
  accepted = ok;
}

unfoldable pub apply_limit : GoldenOrderbook → GoldenOrder → GoldenOrderbook × GoldenFill
apply_limit g o =
    let m = match_limit g o in
    if is_positive o.quantity
    then if is_positive o.price
      then (rest_remainder (after_match g o m) o m.remaining, fill_of o m true)
      else (g, reject o.id)
    else (g, reject o.id)

unfoldable pub apply_market : GoldenOrderbook → GoldenOrder → GoldenOrderbook × GoldenFill
apply_market g o =
    let m = match_market g o in
    if is_positive o.quantity
    then (after_match g o m, fill_of o m (ltb 0 m.executed_qty))
    else (g, reject o.id)

-- the first entry with the ID goes
unfoldable pub remove_entry : List BookEntry → String → List BookEntry
remove_entry [] id = []
remove_entry (e ∷ es) id = if str_eq e.id id then es else e ∷ remove_entry es id

unfoldable pub cancel_side : GoldenOrderbook → String → Side → GoldenOrderbook
cancel_side g id side =
    let index = Dict.remove id g.index in
    if is_buy side
    then record g { buys = remove_entry g.buys id; index = index }
    else record g { sells = remove_entry g.sells id; index = index }

unfoldable pub apply_cancel : GoldenOrderbook → GoldenOrder → GoldenOrderbook × GoldenFill
unfolding cancel_side
apply_cancel g o = elim (Dict.get o.id g.index) [
  | none ↦ (g, reject o.id)
  | some side ↦ (
    cancel_side g o.id side,
    record { order_id = o.id; executed_price = pos 0; executed_qty = pos 0; accepted = true },
  )
]

abbrev pub with_fill : GoldenOrderbook × GoldenFill → GoldenOrderbook × ApplyResult
with_fill r = (r.0, filled r.1)

abbrev pub apply_kind : OrderKind → GoldenOrderbook → GoldenOrder → GoldenOrderbook × ApplyResult
apply_kind cancel g o = with_fill (apply_cancel g o)
apply_kind limit g o = with_fill (apply_limit g o)
apply_kind market g o = with_fill (apply_market g o)
apply_kind (other_kind k) g o = (g, failed (unknown_order_kind k))

unfoldable pub apply : GoldenOrderbook → GoldenOrder → GoldenOrderbook × ApplyResult
apply g o = if str_eq o.id "" then (g, failed empty_order_id) else apply_kind o.kind g o
