-- ===== src/Consumer.antt =====
-- internal/consumer/consumer.go, percentile.go, store.go: latency windows. Given are what a record decodes to, which
-- writes the store refuses, `range` over a map, and `math.Ceil(p*float64(n))`; a latency is a natural
-- number, which internal/telemetry checks where it emits one. The Kafka client and SQL are not modelled.
pub mod Conserved
pub mod Table
pub mod Stored
pub mod Ordered
pub mod Shutdown
use nexus_bench.Base.{
  ℕ, zero, suc, ◌+◌, ◌-◌, ◌*◌, ◌/◌, ◌%◌, ◌^◌, String, Bool, true, false, ◌&&◌, Option, none, some,
  List, [], ◌∷◌, ◌++◌, ℤ, pos, negsuc, length, ltb, ◌==◌, str_eq, if◌then◌else◌, get_elem?, sum_of,
}
use nexus_bench.Base.Dict
use nexus_bench.Base.Dict.{Dict, get, put, remove}
use nexus_bench.Base.Float.{FloatOps}
use nexus_bench.Contest.Defaults.{second}
use nexus_bench.Stats.{sort_numbers}

-- The fields of a telemetry event that the consumer reads.
pub record Event : Type 0 where
  pub kind : String
  pub submission_id : String
  pub timestamp : ℕ
  pub latency_ns : ℕ

abbrev pub window_duration : ℕ
window_duration = 5 * second

-- `Truncate(WindowDuration)`
abbrev pub bucket_of : ℕ → ℕ
bucket_of t = t - t % window_duration

-- `windowState` with its accumulator, whose `windowStart` is the bucket's start
pub record WindowState : Type 0 where
  pub submission_id : String
  pub bucket_start : ℕ
  pub samples : List ℕ

abbrev pub new_window : String → ℕ → WindowState
new_window id bucket = record { submission_id = id; bucket_start = bucket; samples = [] }

abbrev pub add_sample : WindowState → ℕ → WindowState
add_sample w latency = record w { samples = w.samples ++ latency ∷ [] }

-- the element at an index, where there is one
abbrev pub sample_at : List ℕ → ℕ → ℕ
sample_at xs i = elim (get_elem? xs i) [ none ↦ 0 | some x ↦ x ]

-- an int64 sum, by its 64 bits, over a positive count; Go's division rounds towards 0
abbrev pub negated : ℕ → ℤ
negated zero = pos 0
negated (suc n) = negsuc n

abbrev pub mean_of_bits : ℕ → ℕ → ℤ
mean_of_bits m n = if ltb m (2 ^ 63) then pos (m / n) else negated ((2 ^ 64 - m) / n)

unfoldable pub mean : List ℕ → ℤ
mean [] = pos 0
mean (x ∷ xs) = mean_of_bits (sum_of (λ y. y) (x ∷ xs) % 2 ^ 64) (length (x ∷ xs))

module _ (F : FloatOps) (ceil_rank : ℕ → ℕ → ℕ) where
  pub record LatencyWindow : Type 0 where
    pub window_start : ℕ
    pub submission_id : String
    pub p50_ns : ℕ
    pub p90_ns : ℕ
    pub p99_ns : ℕ
    pub min_ns : ℕ
    pub max_ns : ℕ
    pub mean_ns : ℤ
    pub tps : F.Float
    pub sample_n : ℕ

  -- the index of `percentile`, clamped; `rank - 1` below 0 is clamped to 0
  abbrev pub percentile_index : ℕ → ℕ → ℕ
  percentile_index n pct = let idx = ceil_rank pct n - 1 in if ltb idx n then idx else n - 1

  abbrev pub percentile : List ℕ → ℕ → ℕ
  percentile sorted pct = sample_at sorted (percentile_index (length sorted) pct)

  abbrev pub window_of : WindowState → List ℕ → LatencyWindow
  window_of w sorted = record {
    window_start = w.bucket_start;
    submission_id = w.submission_id;
    p50_ns = percentile sorted 50;
    p90_ns = percentile sorted 90;
    p99_ns = percentile sorted 99;
    min_ns = sample_at sorted 0;
    max_ns = sample_at sorted (length sorted - 1);
    mean_ns = mean sorted;
    tps = F.div (F.of_ℕ (length sorted)) (F.of_ℕ 5);
    sample_n = length w.samples;
  }

  -- without samples every other field is 0
  abbrev pub empty_window : WindowState → LatencyWindow
  empty_window w = record {
    window_start = w.bucket_start;
    submission_id = w.submission_id;
    p50_ns = 0;
    p90_ns = 0;
    p99_ns = 0;
    min_ns = 0;
    max_ns = 0;
    mean_ns = pos 0;
    tps = F.of_ℕ 0;
    sample_n = 0;
  }

  unfoldable pub compute : WindowState → LatencyWindow
  compute w = if length w.samples == 0 then empty_window w else window_of w (sort_numbers w.samples)

  -- the key of the table, `(time, submission_id)`
  abbrev pub same_key : LatencyWindow → LatencyWindow → Bool
  same_key w r = str_eq r.submission_id w.submission_id && (r.window_start == w.window_start)

  unfoldable pub has_key : LatencyWindow → List LatencyWindow → Bool
  has_key w [] = false
  has_key w (r ∷ rows) = if same_key w r then true else has_key w rows

  -- `WriteWindow` of the store, on the rows of the table: an empty window is skipped, and so is, by the
  -- `ON CONFLICT DO NOTHING` of the insert, one whose key is in the table.
  unfoldable pub write_window : List LatencyWindow → LatencyWindow → List LatencyWindow
  write_window rows w =
      if w.sample_n == 0 then rows else if has_key w rows then rows else rows ++ w ∷ []

  -- The table after the writes that met no error.
  unfoldable pub write_windows : List LatencyWindow → List LatencyWindow → List LatencyWindow
  write_windows rows [] = rows
  write_windows rows (w ∷ ws) = write_windows (write_window rows w) ws

  -- The open windows, and those for which `WriteWindow` answered no error, the last at the end.
  pub record Consumer : Type 0 where
    pub windows : Dict WindowState
    pub sent : List LatencyWindow
    pub writes : ℕ

  abbrev pub new_consumer : Consumer
  new_consumer = record { windows = []; sent = []; writes = 0 }

  -- `state.acc.Add` on the window that stands under the event's submission
  abbrev pub add_event : Consumer → Event → WindowState → Consumer
  add_event c e w = record c { windows = put e.submission_id (add_sample w e.latency_ns) c.windows }

  -- `refuses n`: the store answers an error to the n-th `WriteWindow`
  module _ (refuses : ℕ → Bool) where
    -- with `true` where the window was written
    unfoldable pub flush_window : Consumer → String → WindowState → Consumer × Bool
    flush_window c id w =
        if refuses c.writes then (record c { writes = c.writes + 1 }, false) else (
          record {
            windows = Dict.remove id c.windows;
            sent = c.sent ++ compute w ∷ [];
            writes = c.writes + 1;
          },
          true,
        )

    -- `handleRecord` behind the guards, with the window that is open for the submission
    abbrev pub handle_state : Consumer → Event → WindowState → Consumer × Bool
    handle_state c e w =
        let bucket = bucket_of e.timestamp in
        let flushed = flush_window c e.submission_id w in
        if w.bucket_start == bucket
        then (add_event c e w, true)
        else if flushed.1
        then (add_event flushed.0 e (new_window e.submission_id bucket), true)
        else (flushed.0, false)

    -- `handleRecord`: with `false` for an error
    unfoldable pub handle_record : Consumer → Option Event → Consumer × Bool
    handle_record c none = (c, false)
    handle_record c (some e) =
        if str_eq e.kind "heartbeat" then (c, true) else elim (get e.submission_id c.windows) [
          | some w ↦ handle_state c e w
          | none ↦ (add_event c e (new_window e.submission_id (bucket_of e.timestamp)), true)
        ]

    -- the records of the `Run` loop; an error is logged and the record counts as done
    unfoldable pub handle_records : Consumer → List (Option Event) → Consumer
    handle_records c [] = c
    handle_records c (r ∷ rs) = handle_records (handle_record c r).0 rs

    -- the windows of a `range`, one after the other
    unfoldable pub flush_each : Consumer → List (String × WindowState) → Consumer
    flush_each c [] = c
    flush_each c (kw ∷ kws) = flush_each (flush_window c kw.0 kw.1).0 kws

    unfoldable pub flush_all :
        (Dict WindowState → List (String × WindowState)) → Consumer → Consumer
    flush_all range c = flush_each c (range c.windows)
