-- ===== src/Generator.antt =====
-- internal/botfleet/generator.go: `RandomGenerator`. The random numbers of one `Next` are given; an
-- int64 result wraps around.
pub mod InBounds
pub mod Buffer
pub mod Pending
use nexus_bench.Base.{
  ℕ, zero, suc, ◌*◌, ◌+◌, ◌-◌, ◌%◌, ◌^◌, String, not, Option, none, some, List, [], ◌∷◌, ◌++◌, ℤ,
  pos, negsuc, length, ltb, leb, ◌==◌, is_positive, less_ℤ, if◌then◌else◌, get_elem?,
}
use nexus_bench.Base.Float.{FloatOps}
use nexus_bench.Base.Strings.{str_append}
use nexus_bench.Base.Text.{TextOps, text, number}
use nexus_bench.Orderbook.{Side, buy, sell, other_side, limit, market, cancel, next_seq}
use nexus_bench.Fleet.{Order, RandomGeneratorConfig, ratios_valid}

-- `a - b` of natural numbers, as an integer
abbrev pub minus : ℕ → ℕ → ℤ
minus a b = if leb b a then pos (a - b) else negsuc (b - a - 1)

infixl 60 ◌+ℤ◌
abbrev pub ◌+ℤ◌ : ℤ → ℤ → ℤ
pos a +ℤ pos b = pos (a + b)
pos a +ℤ negsuc b = minus a (b + 1)
negsuc a +ℤ pos b = minus b (a + 1)
negsuc a +ℤ negsuc b = negsuc (a + b + 1)

-- an int64 by its 64 bits
abbrev pub of_bits : ℕ → ℤ
of_bits m = if ltb m (2 ^ 63) then pos m else negsuc (2 ^ 64 - 1 - m)

abbrev pub wrap : ℤ → ℤ
wrap (pos n) = of_bits (n % 2 ^ 64)
wrap (negsuc n) = of_bits (2 ^ 64 - 1 - n % 2 ^ 64)

abbrev pub coin_side : ℕ → Side
coin_side coin = if coin == 1 then sell else buy

abbrev pub negate : ℤ → ℤ
negate (pos zero) = pos 0
negate (pos (suc n)) = negsuc n
negate (negsuc n) = pos (suc n)

-- `rng.Int63n(n)`, which panics unless `n` is positive; `draw` is the random number
abbrev pub int63n : ℤ → ℕ → Option ℕ
int63n n draw = if is_positive n then some draw else none

-- `rng.Int63n(spread*2+1) - spread` in int64, 0 without a spread; `none` is the panic
abbrev pub price_offset : ℤ → ℕ → Option ℤ
price_offset (pos zero) draw = some (pos 0)
price_offset (pos (suc s)) draw = elim (int63n (wrap (pos (suc s * 2 + 1))) draw) [
  | none ↦ none
  | some d ↦ some (minus d (suc s))
]
price_offset (negsuc s) draw = some (pos 0)

abbrev pub cancel_of : String → Order
cancel_of id = record {
  id = id;
  kind = cancel;
  side = other_side "";
  price = pos 0;
  quantity = pos 0;
}

-- The random numbers of one call: `Float64()`, `Intn(2)`, two `Int63n`, and `Intn(len(pendingIDs))`.
pub record Draws (F : FloatOps) : Type 0 where
  pub roll : F.Float
  pub coin : ℕ
  pub offset : ℕ
  pub extra : ℕ
  pub index : ℕ

module _ (F : FloatOps) where
  pub record RandomGenerator : Type 0 where
    pub cfg : RandomGeneratorConfig F
    pub bot_id : String
    pub seq : ℕ
    pub pending_ids : List String

  -- `NewRandomGenerator`, `none` for an error; the seed goes to the random source
  unfoldable pub new_random_generator : String → RandomGeneratorConfig F → Option RandomGenerator
  new_random_generator bot_id cfg =
      if not (ratios_valid F cfg.ratios)
      then none
      else if not (is_positive cfg.quantity.min)
      then none
      else if less_ℤ cfg.quantity.max cfg.quantity.min
      then none
      else if less_ℤ cfg.price.spread (pos 0)
      then none
      else some (record { cfg = cfg; bot_id = bot_id; seq = 0; pending_ids = [] })

  abbrev pub draw_quantity : RandomGeneratorConfig F → ℕ → Option ℤ
  draw_quantity cfg extra =
      elim (int63n (wrap (cfg.quantity.max +ℤ negate cfg.quantity.min +ℤ pos 1)) extra) [
        | none ↦ none
        | some n ↦ some (wrap (cfg.quantity.min +ℤ pos n))
      ]

  -- an order with a price and a quantity, unless one of the draws panics
  abbrev pub limit_order : RandomGeneratorConfig F → String → Draws F → Option Order
  limit_order cfg id d = elim (price_offset cfg.price.spread d.offset) [
    | none ↦ none
    | some offset ↦ elim (draw_quantity cfg d.extra) [
      | none ↦ none
      | some quantity ↦ some (record {
        id = id;
        kind = limit;
        side = coin_side d.coin;
        price = wrap (cfg.price.mid_price +ℤ offset);
        quantity = quantity;
      })
    ]
  ]

  abbrev pub market_order : RandomGeneratorConfig F → String → Draws F → Option Order
  market_order cfg id d = elim (draw_quantity cfg d.extra) [
    | none ↦ none
    | some quantity ↦ some (record {
      id = id;
      kind = market;
      side = coin_side d.coin;
      price = pos 0;
      quantity = quantity;
    })
  ]

-- the last element of a list that is not empty, and what stands before it
abbrev pub last_of {ℓ} : {A : Type ℓ} → A → List A → A
last_of x [] = x
last_of x (y ∷ ys) = last_of y ys

abbrev pub but_last {ℓ} : {A : Type ℓ} → List A → List A
but_last [] = []
but_last (x ∷ []) = []
but_last (x ∷ y ∷ ys) = x ∷ but_last (y ∷ ys)

abbrev pub set_id : ℕ → String → List String → List String
set_id i s [] = []
set_id zero s (x ∷ xs) = s ∷ xs
set_id (suc i) s (x ∷ xs) = x ∷ set_id i s xs

-- `cancelOrder`: the element at `index` makes room for the last
abbrev pub take_pending : ℕ → List String → Option (String × List String)
take_pending i [] = none
take_pending i (x ∷ xs) = elim (get_elem? (x ∷ xs) i) [
  | none ↦ none
  | some target ↦ some (target, but_last (set_id i (last_of x xs) (x ∷ xs)))
]

module _ (F : FloatOps) (T : TextOps) where
  abbrev pub track : String → List String → List String
  track id ids = if ltb (length ids) 1000 then ids ++ id ∷ [] else ids

  abbrev pub next_cancel : RandomGenerator F → String → Draws F → RandomGenerator F × Order
  next_cancel g id d = elim (take_pending d.index g.pending_ids) [
    | none ↦ (g, cancel_of (str_append id "-unknown"))
    | some (target, rest) ↦ (record g { pending_ids = rest }, cancel_of target)
  ]

  -- the ID of the order that is generated next
  abbrev pub order_id : RandomGenerator F → String
  order_id g = T.sprintf "%s-%d" (text g.bot_id ∷ number (pos (next_seq g.seq)) ∷ [])

  -- an order that was made, with the generator after it
  abbrev pub made : RandomGenerator F → Option Order → Option (RandomGenerator F × Order)
  made g none = none
  made g (some o) = some (g, o)

  -- `none` is a panic of the random source
  unfoldable pub next : RandomGenerator F → Draws F → Option (RandomGenerator F × Order)
  next g d =
      let counted = record g { seq = next_seq g.seq } in
      if F.lt d.roll g.cfg.ratios.limit
      then made (record counted { pending_ids = track (order_id g) g.pending_ids })
          (limit_order F g.cfg (order_id g) d)
      else if F.lt d.roll (F.add g.cfg.ratios.limit g.cfg.ratios.market)
      then made counted (market_order F g.cfg (order_id g) d)
      else some (next_cancel counted (order_id g) d)
