-- ===== src/Generator/InBounds.antt =====
-- The range of the prices and quantities that `RandomGenerator` draws.
use nexus_bench.Base.{
  ℕ, ◌+◌, ◌-◌, ◌*◌, ◌^◌, ◌≤◌, ◌<◌, false, ◌≡◌, ℤ, pos, negsuc, less_ℤ, Option, some,
}
use nexus_bench.Base.Float.{FloatOps}
use nexus_bench.Base.Text.{TextOps}
use nexus_bench.Orderbook.{limit, market, cancel, other_kind, OrderKind}
use nexus_bench.Fleet.{Order, RandomGeneratorConfig}
use nexus_bench.Generator.{Draws, RandomGenerator, ◌+ℤ◌, minus}

-- the values of an int64
abbrev pub IsInt64 : ℤ → Type 0
IsInt64 (pos n) = n < 2 ^ 63
IsInt64 (negsuc n) = n < 2 ^ 63

-- `low <= z <= high`
abbrev pub Between : ℤ → ℤ → ℤ → Type 0
Between low z high = (less_ℤ z low ≡ false) × (less_ℤ high z ≡ false)

module _ (F : FloatOps) where
  -- What `NewRandomGenerator` accepts, with the prices and the range of the offset inside int64.
  pub record IsConfig (cfg : RandomGeneratorConfig F) (spread lo hi : ℕ) : Type 0 where
    pub spread_is : cfg.price.spread ≡ pos spread
    pub min_is : cfg.quantity.min ≡ pos lo
    pub max_is : cfg.quantity.max ≡ pos hi
    pub lo_positive : 0 < lo
    pub lo_hi : lo ≤ hi
    pub hi_fits : hi < 2 ^ 63
    pub range_fits : 2 * spread + 1 < 2 ^ 63
    pub lowest_fits : IsInt64 (cfg.price.mid_price +ℤ minus 0 spread)
    pub highest_fits : IsInt64 (cfg.price.mid_price +ℤ pos spread)

  -- the ranges of `Int63n`
  abbrev pub InRange : Draws F → ℕ → ℕ → ℕ → Type 0
  InRange d spread lo hi = (d.offset < 2 * spread + 1) × (d.extra < hi - lo + 1)

  -- The range of an order of each kind that is generated.
  abbrev pub OfKind : OrderKind → RandomGeneratorConfig F → ℕ → Order → Type 0
  OfKind limit cfg spread o =
      Between (cfg.price.mid_price +ℤ minus 0 spread) o.price (cfg.price.mid_price +ℤ pos spread)
      × Between cfg.quantity.min o.quantity cfg.quantity.max
  OfKind market cfg spread o =
      (o.price ≡ pos 0) × Between cfg.quantity.min o.quantity cfg.quantity.max
  OfKind cancel cfg spread o = (o.price ≡ pos 0) × (o.quantity ≡ pos 0)
  OfKind (other_kind k) cfg spread o = ⊥

  module _ (cfg : RandomGeneratorConfig F) (d : Draws F) (spread lo hi : ℕ)
      (config : IsConfig cfg spread lo hi) (drawn : InRange d spread lo hi) where
    -- The order is made, and in its kind's range.
    abbrev Makes : OrderKind → Option Order → Type 0
    Makes kind o = (x : Order) × (o ≡ some x) × (x.kind ≡ kind) × OfKind kind cfg spread x

  module _ (T : TextOps) where
    -- What `next` gives where it gives something.
    abbrev pub Gives : RandomGeneratorConfig F → ℕ → Option (RandomGenerator F × Order) → Type 0
    Gives cfg spread r =
        (g' : RandomGenerator F) × (o : Order) × (r ≡ some (g', o)) × OfKind o.kind cfg spread o
