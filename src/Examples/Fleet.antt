-- ===== src/Examples/Fleet.antt =====
-- The worker registry and the fleet statistics at concrete data.
use nexus_bench.Base.{
  ℕ, ◌*◌, ◌≡◌, ◌≢◌, ◌≤◌, ◌<◌, refl, String, some, List, [], ◌∷◌, arith, leb, ltb, count_if, pos,
}
use nexus_bench.Base.Dict.{get}
use nexus_bench.Base.Sorting.{sort_stable}
use nexus_bench.Registry.{
  WorkerRecord, Workers, WorkerStatus, stats, list_workers, mark_all, records, count_statuses,
}
use nexus_bench.Registry.Sweep.{how_many, live_idle, live_busy, gone, stats_lem}
use nexus_bench.Registry.Laws.{
  Call, IsSilent, IsTidy, Returned, beats, counts, lists, registers, run, stats_keeps_job,
}
use nexus_bench.Stats.{sort_numbers, percentile_value, max_window, slide, advance}
use nexus_bench.Stats.Percentile.{percentile_value_lem}
use nexus_bench.Stats.Window.{in_window}
use nexus_bench.Stats.Slide.{max_window_lem}

abbrev worker : String → WorkerStatus → String → ℕ → WorkerRecord
worker id status job beat = record {
  id = id;
  status = status;
  current_job_id = job;
  registered_at = 0;
  last_heartbeat = beat;
  jobs_completed = pos 1;
}

abbrev pub workers : Workers
workers =
    ("w1", worker "w1" WorkerStatus.idle "" 29_000_000_000)
    ∷ ("w2", worker "w2" WorkerStatus.busy "job" 3_000_000_000)
    ∷ ("w3", worker "w3" WorkerStatus.busy "other" 20_000_000_000)
    ∷ []

-- 30 s in nanoseconds: "w2" has been silent for 27 s
abbrev now : ℕ
now = 30_000_000_000

stats_example_run : (stats workers now).1 ≡ record { total = 3; idle = 1; busy = 1; dead = 1 }
unfolding stats mark_all records count_statuses
stats_example_run = refl

stats_lem_example :
    ((stats workers now).1.total ≡ 3)
    × ((stats workers now).1.idle ≡ how_many (live_idle now) workers)
    × ((stats workers now).1.busy ≡ how_many (live_busy now) workers)
    × ((stats workers now).1.dead ≡ how_many (gone now) workers)
stats_lem_example = stats_lem workers now

found_w2 : get "w2" workers ≡ some (worker "w2" WorkerStatus.busy "job" 3_000_000_000)
unfolding get
found_w2 = refl

some_job : (◌≢◌ {A = String}) "job" ""
some_job = λ e. cc

abbrev later_calls : List Call
later_calls =
    lists 31_000_000_000
    ∷ registers 32_000_000_000 "w4"
    ∷ counts 33_000_000_000
    ∷ beats 34_000_000_000 "w3"
        (record { status = WorkerStatus.busy; current_job_id = "j"; jobs_completed = pos 2 })
    ∷ []

w2-IsSilent : IsSilent "w2" later_calls
w2-IsSilent = (refl, (refl, tt))

stats_keeps_job_example :
    let (stored, returned) = list_workers (run (stats workers now).0 later_calls) 35_000_000_000 in
    let w2 = worker "w2" WorkerStatus.dead "job" 3_000_000_000 in
    (get "w2" stored ≡ some w2) × Returned w2 returned × (¬ IsTidy stored)
stats_keeps_job_example =
    stats_keeps_job workers now later_calls 35_000_000_000 "w2"
      (worker "w2" WorkerStatus.busy "job" 3_000_000_000) found_w2 refl some_job w2-IsSilent

abbrev samples : List ℕ
samples = 40 ∷ 10 ∷ 30 ∷ 20 ∷ []

percentile_run : percentile_value (sort_numbers samples) 90 ≡ some 40
unfolding percentile_value sort_numbers sort_stable
percentile_run = refl

percentile_value_lem_example :
    (v : ℕ) × (percentile_value (sort_numbers samples) 90 ≡ some v)
    × (90 * 4 ≤ 100 * count_if (λ x. leb x v) samples)
    × (100 * count_if (λ x. ltb x v) samples < 90 * 4)
percentile_value_lem_example =
    percentile_value_lem samples 90 (omega arith) (omega arith) (omega arith)

-- Three of these sends fall into 100 ms.
abbrev sends : List ℕ
sends = 250_000_000 ∷ 0 ∷ 150_000_000 ∷ 200_000_000 ∷ 50_000_001 ∷ []

max_window_run : max_window sends ≡ 3
unfolding max_window slide advance sort_numbers sort_stable
max_window_run = refl

max_window_lem_example :
    ((s : ℕ) → in_window s sends ≤ max_window sends)
    × ((s : ℕ) × (in_window s sends ≡ max_window sends))
max_window_lem_example = max_window_lem sends
