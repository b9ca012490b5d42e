-- ===== src/Stats.antt =====
-- internal/botfleet/stats.go: latency and throughput of a fleet run. Unix times and latencies in
-- nanoseconds are natural numbers (the clock is past 1970 and monotonic); the -1 that marks "no send
-- yet" is `none`. `sort.Slice` on numbers has one result, that of any sort.
pub mod Percentile
pub mod Window
pub mod Slide
use nexus_bench.Base.{
  ℕ, zero, suc, ◌+◌, ◌-◌, ◌*◌, ◌/◌, String, Bool, true, false, Option, none, some, List, [], ◌∷◌,
  ◌++◌, ltb, leb, ◌==◌, if◌then◌else◌, length, get_elem?, ℤ,
}
use nexus_bench.Base.Float.{FloatOps}
use nexus_bench.Base.Sorting.{sort_stable}
use nexus_bench.Fleet.{OrderResult}

unfoldable pub sort_numbers : List ℕ → List ℕ
sort_numbers = sort_stable ltb

-- rank - 1, with the rank clamped to [1, n]
abbrev pub rank_index : ℕ → ℕ → ℕ
rank_index n pct =
    let rank = (pct * n + 99) / 100 in
    let at_least = if ltb rank 1 then 1 else rank in (if ltb n at_least then n else at_least) - 1

-- An index out of range is a panic, hence `none`; the caller passes no empty slice.
unfoldable pub percentile_value : List ℕ → ℕ → Option ℕ
percentile_value [] pct = none
percentile_value (x ∷ []) pct = some x
percentile_value xs pct = get_elem? xs (rank_index (length xs) pct)

-- 100 ms in nanoseconds
abbrev pub window_ns : ℕ
window_ns = 100_000_000

-- A position in the sorted slice is its index with what stands from there on.
-- `for sentAts[right]-sentAts[left] > windowNs { left++ }`
unfoldable pub advance : ℕ → List ℕ → ℕ → ℕ × List ℕ
advance left [] t = (left, [])
advance left (x ∷ xs) t =
    let next = advance (left + 1) xs t in if ltb window_ns (t - x) then next else (left, x ∷ xs)

-- the loop over `right`, with `maxCount` as accumulator
unfoldable pub slide : ℕ → ℕ → List ℕ → List ℕ → ℕ → ℕ
slide right left from_left [] max_count = max_count
slide right left from_left (t ∷ ts) max_count =
    let (left', from_left') = advance left from_left t in
    let count = right - left' + 1 in
    slide (right + 1) left' from_left' ts (if ltb max_count count then count else max_count)

unfoldable pub max_window : List ℕ → ℕ
max_window sent_ats = let sorted = sort_numbers sent_ats in slide 0 0 sorted sorted 0

-- The variables of the loop over the results.
pub record Totals : Type 0 where
  pub latencies : List ℕ
  pub sent_ats : List ℕ
  pub total_orders : ℕ
  pub successful_orders : ℕ
  pub error_orders : ℕ
  pub first_sent_ns : Option ℕ
  pub last_acked_ns : ℕ

abbrev pub earlier : Option ℕ → ℕ → Option ℕ
earlier none t = some t
earlier (some first) t = if ltb t first then some t else some first

abbrev pub add_result : Totals → OrderResult → Totals
add_result s r =
    let counted : Totals = record s { total_orders = s.total_orders + 1 } in
    if r.failed then record counted { error_orders = s.error_orders + 1 } else record counted {
      successful_orders = s.successful_orders + 1;
      latencies = s.latencies ++ r.latency_ns ∷ [];
      sent_ats = s.sent_ats ++ r.sent_at ∷ [];
      first_sent_ns = earlier s.first_sent_ns r.sent_at;
      last_acked_ns = if ltb s.last_acked_ns r.acked_at then r.acked_at else s.last_acked_ns;
    }

unfoldable pub add_results : Totals → List OrderResult → Totals
add_results s [] = s
add_results s (r ∷ rs) = add_results (add_result s r) rs

abbrev pub no_totals : Totals
no_totals = record {
  latencies = [];
  sent_ats = [];
  total_orders = 0;
  successful_orders = 0;
  error_orders = 0;
  first_sent_ns = none;
  last_acked_ns = 0;
}

module _ (F : FloatOps) where
  open F use {Float, of_ℕ, mul, div}

  pub record BotStats : Type 0 where
    pub p50_ns : Float
    pub p90_ns : Float
    pub p99_ns : Float
    pub max_tps : Float
    pub sustained_tps : Float
    pub total_orders : ℕ
    pub successful_orders : ℕ
    pub error_orders : ℕ

  pub compute_max_tps : List ℕ → Float
  compute_max_tps [] = of_ℕ 0
  compute_max_tps (t ∷ ts) = mul (of_ℕ (max_window (t ∷ ts))) (of_ℕ 10)

  -- an index panic does not happen here, so its value is left open
  abbrev float_or_zero : Option ℕ → Float
  float_or_zero none = of_ℕ 0
  float_or_zero (some v) = of_ℕ v

  abbrev elapsed_ns : Totals → ℕ
  elapsed_ns s = elim s.first_sent_ns [ none ↦ 0 | some first ↦ s.last_acked_ns - first ]

  abbrev counts_only : Totals → BotStats
  counts_only s = record {
    p50_ns = of_ℕ 0;
    p90_ns = of_ℕ 0;
    p99_ns = of_ℕ 0;
    max_tps = of_ℕ 0;
    sustained_tps = of_ℕ 0;
    total_orders = s.total_orders;
    successful_orders = s.successful_orders;
    error_orders = s.error_orders;
  }

  summary : Totals → List ℕ → BotStats
  summary s [] = counts_only s
  summary s (l ∷ ls) =
      let sorted = sort_numbers (l ∷ ls) in
      let elapsed = elapsed_ns s in
      record (counts_only s) {
        p50_ns = float_or_zero (percentile_value sorted 50);
        p90_ns = float_or_zero (percentile_value sorted 90);
        p99_ns = float_or_zero (percentile_value sorted 99);
        sustained_tps =
            if ltb 0 elapsed
            then div (of_ℕ s.successful_orders) (div (of_ℕ elapsed) (of_ℕ 1_000_000_000))
            else of_ℕ 0;
        max_tps = compute_max_tps s.sent_ats;
      }

  -- For no results the totals are zero, as in the early return.
  pub compute_stats : List OrderResult → BotStats
  unfolding summary
  compute_stats results = let s = add_results no_totals results in summary s s.latencies
