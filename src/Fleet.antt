-- ===== src/Fleet.antt =====
-- internal/botfleet/order.go, fleet.go, generator.go: orders, results and the configuration of a bot
-- fleet. `Side` and `OrderKind` are string types that internal/correctness declares again with the
-- same values; the executor casts the one to the other, so one type stands for both. Times and
-- durations are in nanoseconds. How the bots run is not modelled: goroutines and a network.
use nexus_bench.Base.{
  ℕ, ◌*◌, String, Bool, false, ◌||◌, not, ℤ, pos, is_positive, str_eq, if◌then◌else◌,
}
use nexus_bench.Base.Float.{FloatOps}
use nexus_bench.Orderbook.{Side, OrderKind}
use nexus_bench.Contest.Defaults.{second}

pub record Order : Type 0 where
  pub id : String
  pub kind : OrderKind
  pub side : Side
  pub price : ℤ
  pub quantity : ℤ

pub record Fill : Type 0 where
  pub order_id : String
  pub executed_price : ℤ
  pub executed_qty : ℤ
  pub accepted : Bool

-- `failed` is `Err != nil`
pub record OrderResult : Type 0 where
  pub order : Order
  pub fill : Fill
  pub sent_at : ℕ
  pub acked_at : ℕ
  pub latency_ns : ℕ
  pub failed : Bool

pub record PriceConfig : Type 0 where
  pub mid_price : ℤ
  pub spread : ℤ

pub record QuantityConfig : Type 0 where
  pub min : ℤ
  pub max : ℤ

module _ (F : FloatOps) where
  open F use {Float, of_ℕ, ratio, add, lt}

  pub record OrderRatios : Type 0 where
    pub limit : Float
    pub market : Float
    pub cancel : Float

  pub record RandomGeneratorConfig : Type 0 where
    pub ratios : OrderRatios
    pub price : PriceConfig
    pub quantity : QuantityConfig
    pub seed : ℤ

  pub record FleetConfig : Type 0 where
    pub bot_count : ℤ
    pub ramp_up_duration : ℤ
    pub test_duration : ℤ
    pub target_url : String
    pub protocol : String
    pub per_bot_http_timeout : ℤ
    pub generator_config : RandomGeneratorConfig

  abbrev pub default_random_generator_config : RandomGeneratorConfig
  default_random_generator_config = record {
    ratios = record { limit = ratio 60 100; market = ratio 30 100; cancel = ratio 10 100 };
    price = record { mid_price = pos 10_000; spread = pos 500 };
    quantity = record { min = pos 1; max = pos 100 };
    seed = pos 0;
  }

  abbrev pub default_fleet_config : String → FleetConfig
  default_fleet_config target_url = record {
    bot_count = pos 100;
    ramp_up_duration = pos (5 * second);
    test_duration = pos (60 * second);
    target_url = target_url;
    protocol = "rest";
    per_bot_http_timeout = pos (2 * second);
    generator_config = default_random_generator_config;
  }

  abbrev pub ratios_valid : OrderRatios → Bool
  ratios_valid r =
      let sum = add (add r.limit r.market) r.cancel in
      let none_negative =
        not (lt r.limit (of_ℕ 0) || (lt r.market (of_ℕ 0) || lt r.cancel (of_ℕ 0))) in
      if lt sum (ratio 999 1000) || lt (ratio 1001 1000) sum then false else none_negative

  abbrev pub protocol_known : String → Bool
  protocol_known protocol =
      str_eq protocol "" || (str_eq protocol "rest" || str_eq protocol "websocket")

  -- `Validate() == nil`, which `NewFleet` asks
  abbrev pub config_valid : FleetConfig → Bool
  config_valid c =
      if not (is_positive c.bot_count)
      then false
      else if not (is_positive c.test_duration)
      then false
      else if str_eq c.target_url ""
      then false
      else if not (ratios_valid c.generator_config.ratios)
      then false
      else protocol_known c.protocol
