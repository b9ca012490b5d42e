-- ===== src/Orderbook/Soundness.antt =====
-- The invariant of the golden orderbook (internal/correctness/orderbook.go): open entries on the
-- right side, and a book that is never crossed.
use nexus_bench.Base.{
  ℕ, ◌≤◌, ◌<◌, ◌≡◌, Bool, true, false, List, [], ◌∷◌, arith, All, All-map, Bool-cases, inl, inr,
  pos_part,
}
use nexus_bench.Base.Dict
use nexus_bench.Base.Sorting.{All-sort_stable}
use nexus_bench.Orderbook.{
  BookEntry, GoldenOrderbook, GoldenOrder, Side, is_buy, buys_before, sells_before, sort_buys,
  sort_sells, too_expensive, too_cheap, match_loop, match_limit,
}
use nexus_bench.Orderbook.Matching.{match_loop-volume, match_loop-stopped, match_loop-All}
use nexus_bench.Orderbook.Priority.{sort_sells-StaysStopped, sort_buys-StaysStopped}

-- A resting entry holds some of its quantity still, at a positive price.
abbrev pub IsOpen : Bool → BookEntry → Type 0
IsOpen on_buys e =
    (0 < e.remaining_q) × (e.remaining_q ≤ e.quantity) × (0 < e.price) × (is_buy e.side ≡ on_buys)

abbrev pub Below : List BookEntry → BookEntry → Type 0
Below sells b = All (λ s. b.price < s.price) sells

pub record IsSound (g : GoldenOrderbook) : Type 0 where
  pub buys_open : All (IsOpen true) g.buys
  pub sells_open : All (IsOpen false) g.sells
  pub uncrossed : All (Below g.sells) g.buys

pub All-both {ℓ} :
    {A : Type ℓ} (P Q : A → Type 0) (xs : List A) → All P xs → All Q xs → All (λ x. P x × Q x) xs
All-both P Q [] h k = tt
All-both P Q (x ∷ xs) h k = ((h.0, k.0), All-both P Q xs h.1 k.1)

-- The matched side keeps what holds of each entry's price, and stays open.
module _ (stop : BookEntry → Bool) (ix : Dict.Dict Side) (r : ℕ) (es : List BookEntry) where
  pub sells_left-IsOpen :
      (b : Bool)
      → All (IsOpen b) es
      → All (IsOpen b) (match_loop stop (sort_sells es) ix r 0 0).resting
  unfolding sort_sells
  sells_left-IsOpen b h =
      match_loop-All stop (IsOpen b) (λ e n l k p. (l, omega arith, p.2, p.3)) (sort_sells es) ix r
        0 0 (All-sort_stable sells_before (IsOpen b) es h)

  pub buys_left-IsOpen :
      (b : Bool)
      → All (IsOpen b) es
      → All (IsOpen b) (match_loop stop (sort_buys es) ix r 0 0).resting
  unfolding sort_buys
  buys_left-IsOpen b h =
      match_loop-All stop (IsOpen b) (λ e n l k p. (l, omega arith, p.2, p.3)) (sort_buys es) ix r 0
        0 (All-sort_stable buys_before (IsOpen b) es h)

  pub sells_left-uncrossed :
      (buys : List BookEntry)
      → All (Below es) buys
      → All (Below (match_loop stop (sort_sells es) ix r 0 0).resting) buys
  unfolding sort_sells
  sells_left-uncrossed buys = All-map _ _ buys λ b h.
      match_loop-All stop (λ s. b.price < s.price) (λ e n l k p. p) (sort_sells es) ix r 0 0
        (All-sort_stable sells_before (λ s. b.price < s.price) es h)

  pub buys_left-uncrossed :
      (sells : List BookEntry)
      → All (Below sells) es
      → All (Below sells) (match_loop stop (sort_buys es) ix r 0 0).resting
  unfolding sort_buys
  buys_left-uncrossed sells h =
      match_loop-All stop (Below sells) (λ e n l k p. p) (sort_buys es) ix r 0 0
        (All-sort_stable buys_before (Below sells) es h)

-- A new buy rests only where all sells that are left are dearer, and a new sell the other way round.
pub new_buy-uncrossed :
    (p q : ℕ) (ix : Dict.Dict Side) (es : List BookEntry)
    → let m = match_loop (too_expensive p) (sort_sells es) ix q 0 0 in
      0 < m.remaining → All (λ s. p < s.price) m.resting
new_buy-uncrossed p q ix es l =
    All-map _ _ _ (λ s h. ground arith)
      (match_loop-stopped (too_expensive p) (sort_sells es) ix q 0 0 (sort_sells-StaysStopped p es)
        l)

pub new_sell-uncrossed :
    (p q : ℕ) (ix : Dict.Dict Side) (es : List BookEntry)
    → let m = match_loop (too_cheap p) (sort_buys es) ix q 0 0 in
      0 < m.remaining → All (λ b. b.price < p) m.resting
new_sell-uncrossed p q ix es l =
    All-map _ _ _ (λ s h. ground arith)
      (match_loop-stopped (too_cheap p) (sort_buys es) ix q 0 0 (sort_buys-StaysStopped p es) l)

pub match_limit-le :
    (g : GoldenOrderbook) (o : GoldenOrder) → (match_limit g o).remaining ≤ pos_part o.quantity
match_limit-le g o = elim (Bool-cases (is_buy o.side)) [
  | inl b ↦
      let v =
        match_loop-volume (too_expensive (pos_part o.price)) (sort_sells g.sells) g.index
          (pos_part o.quantity) 0 0 in
      rw b (omega (arith, v.1))
  | inr b ↦
      let v =
        match_loop-volume (too_cheap (pos_part o.price)) (sort_buys g.buys) g.index
          (pos_part o.quantity) 0 0 in
      rw b (omega (arith, v.1))
]
