-- ===== src/Contest/Defaults.antt =====
-- internal/contest/defaults.go: the default volatility profiles.
use nexus_bench.Base.{ℕ, ◌*◌, pos}
use nexus_bench.Base.Float.{FloatOps}
use nexus_bench.Models.{VolatilityProfile}

-- `time.Second` in nanoseconds
abbrev pub second : ℕ
second = 1_000_000_000

module _ (F : FloatOps) where
  open F use {of_ℕ, ratio}

  unfoldable pub default_low_profile : VolatilityProfile F
  default_low_profile = record {
    label = "low";
    bot_count = pos 10;
    test_duration = pos (60 * second);
    market_data_path = "";
    limit_ratio = ratio 80 100;
    market_ratio = ratio 10 100;
    cancel_ratio = ratio 10 100;
    price_spread_cents = pos 100;
    max_quantity = pos 10;
    target_p99_ns = pos 10_000_000;
    target_sustain_tps = of_ℕ 5_000;
    latency_weight = ratio 20 100;
    throughput_weight = ratio 30 100;
    correctness_weight = ratio 50 100;
  }

  unfoldable pub default_medium_profile : VolatilityProfile F
  default_medium_profile = record {
    label = "medium";
    bot_count = pos 100;
    test_duration = pos (120 * second);
    market_data_path = "";
    limit_ratio = ratio 60 100;
    market_ratio = ratio 30 100;
    cancel_ratio = ratio 10 100;
    price_spread_cents = pos 500;
    max_quantity = pos 100;
    target_p99_ns = pos 5_000_000;
    target_sustain_tps = of_ℕ 20_000;
    latency_weight = ratio 35 100;
    throughput_weight = ratio 35 100;
    correctness_weight = ratio 30 100;
  }

  unfoldable pub default_high_profile : VolatilityProfile F
  default_high_profile = record {
    label = "high";
    bot_count = pos 1_000;
    test_duration = pos (180 * second);
    market_data_path = "";
    limit_ratio = ratio 40 100;
    market_ratio = ratio 40 100;
    cancel_ratio = ratio 20 100;
    price_spread_cents = pos 2_000;
    max_quantity = pos 1_000;
    target_p99_ns = pos 1_000_000;
    target_sustain_tps = of_ℕ 50_000;
    latency_weight = ratio 20 100;
    throughput_weight = ratio 50 100;
    correctness_weight = ratio 30 100;
  }
