-- ===== src/Executor/Scores.antt =====
-- `buildResults` and the final score of internal/worker/executor.go.
use nexus_bench.Base.{ℕ, ◌-◌, String, not, Option, none, some, ℤ, str_eq, if◌then◌else◌}
use nexus_bench.Base.Float.{FloatOps}
use nexus_bench.Base.Text.{TextOps}
use nexus_bench.Models.{BenchmarkResults, Submission, VolatilityProfile, Contest, result_by_label}
use nexus_bench.Checker.{CorrectnessResult}
use nexus_bench.Stats.{BotStats}

module _ (F : FloatOps) (T : TextOps) (of_ℤ : ℤ → F.Float) where
  open F use {Float, of_ℕ, ratio, add, sub, mul, div, lt}
  open T use {format_duration}

  abbrev at_most_one : Float → Float
  at_most_one x = if lt (of_ℕ 1) x then of_ℕ 1 else x

  -- 1 up to the target, down to 0 at the worst value; `a <= b` on numbers that are no NaN is not
  -- `b < a`
  abbrev pub norm_latency : Float → Float → Float → Float
  norm_latency p99 target worst =
      if not (lt target p99)
      then of_ℕ 1
      else if lt p99 worst
      then sub (of_ℕ 1) (div (sub p99 target) (sub worst target))
      else of_ℕ 0

  unfoldable pub legacy_score : BotStats F → Float → Float
  legacy_score stats correctness =
      let norm_p99 = norm_latency stats.p99_ns (of_ℕ 1_000_000) (of_ℕ 100_000_000) in
      let norm_tps = at_most_one (div stats.max_tps (of_ℕ 50_000)) in
      mul
        (add (add (mul (ratio 5 10) norm_p99) (mul (ratio 3 10) norm_tps))
          (mul (ratio 2 10) correctness))
        (of_ℕ 100)

  unfoldable pub profile_score : BotStats F → VolatilityProfile F → Float → Float
  profile_score stats profile correctness =
      let target = of_ℤ profile.target_p99_ns in
      let norm_p99 = norm_latency stats.p99_ns target (mul target (of_ℕ 10)) in
      let norm_tps =
        if lt (of_ℕ 0) profile.target_sustain_tps
        then at_most_one (div stats.sustained_tps profile.target_sustain_tps)
        else of_ℕ 0 in
      add
        (mul correctness
          (add (mul profile.latency_weight norm_p99) (mul profile.throughput_weight norm_tps)))
        (mul profile.correctness_weight correctness)

  -- the milliseconds of P50Ms, P90Ms and P99Ms
  abbrev in_ms : Float → Float
  in_ms ns = div ns (of_ℕ 1_000_000)

  -- The scores are still zero, as in the struct literal. The correctness result is never nil here.
  abbrev unscored : BotStats F → CorrectnessResult F → ℕ → ℕ → String → BenchmarkResults F
  unscored stats cr started_at finished_at label = record {
    volatility_label = label;
    p50_latency_ms = in_ms stats.p50_ns;
    p90_latency_ms = in_ms stats.p90_ns;
    p99_latency_ms = in_ms stats.p99_ns;
    max_tps = stats.max_tps;
    sustained_tps = stats.sustained_tps;
    correctness_score = cr.score;
    total_orders = stats.total_orders;
    correct_fills = cr.counts.correct_fills;
    incorrect_fills = cr.counts.incorrect_fills;
    run_score = of_ℕ 0;
    composite_score = of_ℕ 0;
    benchmark_duration = format_duration (finished_at - started_at);
    completed_at = finished_at;
  }

  unfoldable pub build_results :
      BotStats F → CorrectnessResult F → ℕ → ℕ → VolatilityProfile F → String → BenchmarkResults F
  build_results stats cr started_at finished_at profile label =
      let result = unscored stats cr started_at finished_at label in
      let run = profile_score stats profile cr.score in
      if str_eq label ""
      then record result { composite_score = legacy_score stats cr.score }
      else record result { run_score = run; composite_score = mul run (of_ℕ 100) }

  abbrev pub safe_score : Submission F → String → Float
  safe_score s label = elim (result_by_label F s label) [ none ↦ of_ℕ 0 | some r ↦ r.run_score ]

  abbrev pub weighted : Float → Float → Float → Submission F → Float
  weighted low_w med_w high_w s =
      mul
        (add (add (mul low_w (safe_score s "low")) (mul med_w (safe_score s "medium")))
          (mul high_w (safe_score s "high")))
        (of_ℕ 100)

  unfoldable pub final_score : Option (Contest F) → Submission F → Float
  final_score none s = weighted (ratio 20 100) (ratio 35 100) (ratio 45 100) s
  final_score (some c) s = weighted c.low_weight c.medium_weight c.high_weight s
