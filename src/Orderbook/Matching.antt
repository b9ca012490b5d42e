-- ===== src/Orderbook/Matching.antt =====
-- What the matching loop of internal/correctness/orderbook.go does to one side of the book.
use nexus_bench.Base.{
  ℕ, ◌+◌, ◌-◌, ◌≤◌, ◌<◌, ◌≡◌, refl, Bool, true, false, not, List, [], ◌∷◌, arith, min, leb,
  if◌then◌else◌, All, sum_of, keep_if, Bool-cases, inl, inr,
}
use nexus_bench.Base.Dict
use nexus_bench.Base.Dict.{Dict}
use nexus_bench.Orderbook.{BookEntry, Side, match_loop, min64}

-- The quantity that rests on a side.
abbrev pub volume : List BookEntry → ℕ
volume = sum_of λ e. e.remaining_q

-- Take `n` units off the front: an entry whose units are all taken goes.
pub deduct : List BookEntry → ℕ → List BookEntry
deduct [] n = []
deduct (e ∷ es) n =
    let rest = deduct es (n - e.remaining_q) in
    if leb e.remaining_q n then rest else record e { remaining_q = e.remaining_q - n } ∷ es

-- Behind an entry at which the loop breaks there is none at which it would not.
abbrev pub StaysStopped : (BookEntry → Bool) → List BookEntry → Type 0
StaysStopped stop [] = Unit
StaysStopped stop (e ∷ es) = (stop e ≡ true → All (λ x. stop x ≡ true) es) × StaysStopped stop es

abbrev pub eligible : (BookEntry → Bool) → List BookEntry → List BookEntry
eligible stop = keep_if λ e. not (stop e)

eligible_none :
    (stop : BookEntry → Bool) (es : List BookEntry)
    → All (λ x. stop x ≡ true) es
    → volume (eligible stop es) ≡ 0
eligible_none stop [] h = refl
eligible_none stop (e ∷ es) h = rw (h.0) (eligible_none stop es h.1)

module _ (stop : BookEntry → Bool) where
  -- Nothing is lost: what leaves the side is what the order gets.
  pub match_loop-volume :
      (es : List BookEntry) (ix : Dict Side) (r q p : ℕ)
      → let m = match_loop stop es ix r q p in
        (volume m.resting + m.executed_qty ≡ volume es + q) × (m.remaining + m.executed_qty ≡ r + q)
  unfolding match_loop
  match_loop-volume [] ix r q p = (refl, refl)
  match_loop-volume (e ∷ es) ix r q p =
      let k = min64 r e.remaining_q in
      ground (arith, match_loop-volume es (Dict.remove e.id ix) (r - k) (q + k) e.price)

  -- The order gets as much as the eligible entries hold, up to its own quantity.
  pub match_loop-executed :
      (es : List BookEntry) (ix : Dict Side) (r q p : ℕ)
      → StaysStopped stop es
      → (match_loop stop es ix r q p).executed_qty ≡ q + min r (volume (eligible stop es))
  unfolding match_loop
  match_loop-executed [] ix r q p h = omega arith
  match_loop-executed (e ∷ es) ix r q p h = elim (Bool-cases (stop e)) [
    | inl s ↦ let z = eligible_none stop es (h.0 s) in rw s (ground (arith, z))
    | inr s ↦
        let k = min64 r e.remaining_q in
        rw s
          (ground (arith, match_loop-executed es (Dict.remove e.id ix) (r - k) (q + k) e.price h.1))
  ]

  -- An order that is not filled leaves no entry at which it could have matched.
  pub match_loop-stopped :
      (es : List BookEntry) (ix : Dict Side) (r q p : ℕ)
      → StaysStopped stop es
      → 0 < (match_loop stop es ix r q p).remaining
      → All (λ x. stop x ≡ true) (match_loop stop es ix r q p).resting
  unfolding match_loop
  match_loop-stopped [] ix r q p h l = tt
  match_loop-stopped (e ∷ es) ix r q p h l =
      let k = min64 r e.remaining_q in
      ground (arith, h.0, match_loop-stopped es (Dict.remove e.id ix) (r - k) (q + k) e.price h.1)

  -- The last matched price is that of an entry at which the loop does not break.
  pub match_loop-price :
      (Q : ℕ → Type 0) (es : List BookEntry) (ix : Dict Side) (r q p : ℕ)
      → All (λ x. stop x ≡ false → Q x.price) es
      → (0 < q → Q p)
      → 0 < (match_loop stop es ix r q p).executed_qty
      → Q (match_loop stop es ix r q p).executed_price
  unfolding match_loop
  match_loop-price Q [] ix r q p h hp l = hp l
  match_loop-price Q (e ∷ es) ix r q p h hp l =
      let k = min64 r e.remaining_q in
      ground (
        arith,
        hp,
        h.0,
        λ (s : stop e ≡ false).
            match_loop-price Q es (Dict.remove e.id ix) (r - k) (q + k) e.price h.1 (λ _. h.0 s),
      )

  -- What holds of each entry, and still holds when a part of it is taken, holds of what rests.
  pub match_loop-All :
      (P : BookEntry → Type 0)
      → ((e : BookEntry) (n : ℕ)
          → 0 < n
          → n ≤ e.remaining_q
          → P e
          → P (record e { remaining_q = n }))
      → (es : List BookEntry) (ix : Dict Side) (r q p : ℕ) → All P es
      → All P (match_loop stop es ix r q p).resting
  unfolding match_loop
  match_loop-All P part [] ix r q p h = tt
  match_loop-All P part (e ∷ es) ix r q p h =
      let k = min64 r e.remaining_q in
      ground (
        arith,
        part e (e.remaining_q - k),
        match_loop-All P part es (Dict.remove e.id ix) (r - k) (q + k) e.price h.1,
      )

  executed-ge :
      (es : List BookEntry) (ix : Dict Side) (r q p : ℕ)
      → q ≤ (match_loop stop es ix r q p).executed_qty
  unfolding match_loop
  executed-ge [] ix r q p = omega arith
  executed-ge (e ∷ es) ix r q p =
      let k = min64 r e.remaining_q in
      ground (arith, executed-ge es (Dict.remove e.id ix) (r - k) (q + k) e.price)

  -- The loop takes the matched units off the front of the side, in its order.
  pub match_loop-deduct :
      (es : List BookEntry) (ix : Dict Side) (r q p n : ℕ)
      → All (λ x. 0 < x.remaining_q) es
      → (match_loop stop es ix r q p).executed_qty ≡ q + n
      → (match_loop stop es ix r q p).resting ≡ deduct es n
  unfolding match_loop deduct
  match_loop-deduct [] ix r q p n h l = refl
  match_loop-deduct (e ∷ es) ix r q p n h l =
      let k = min64 r e.remaining_q in
      ground (
        arith,
        h.0,
        executed-ge es (Dict.remove e.id ix) (r - k) (q + k) e.price,
        match_loop-deduct es (Dict.remove e.id ix) (r - k) (q + k) e.price (n - k) h.1,
      )
