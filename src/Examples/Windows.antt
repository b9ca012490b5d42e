-- ===== src/Examples/Windows.antt =====
-- Events in two windows, in order and out of order.
use mathlib.Core.List.Perm
use nexus_bench.Base.{
  ℕ, arith, ◌+◌, ◌*◌, ◌/◌, ◌≡◌, refl, none, some, List, [], ◌∷◌, Option, map, sum_of,
}
use nexus_bench.Base.Dict.{get, put, remove}
use nexus_bench.Base.Sorting.{sort_stable}
use nexus_bench.Contest.Defaults.{second}
use nexus_bench.Stats.{sort_numbers}
use nexus_bench.Consumer.{
  Event, compute, flush_all, flush_each, flush_window, handle_record, handle_records, mean,
  new_consumer, LatencyWindow, has_key, write_window, write_windows,
}
use nexus_bench.Consumer.Conserved.{counts, never, window_samples}
use nexus_bench.Consumer.Stored.{InOrder}
use nexus_bench.Consumer.Shutdown.{flush_all-handle_records}
use nexus_bench.Examples.Floats.{thousandths}

abbrev fill_at : ℕ → ℕ → Option Event
fill_at t latency =
    some
      (record { kind = "fill"; submission_id = "s"; timestamp = t * second; latency_ns = latency })

-- The second event belongs to the next window, and the third to the first again.
abbrev events : List (Option Event)
events = fill_at 1 100 ∷ fill_at 6 300 ∷ none ∷ fill_at 2 200 ∷ []

abbrev ceil_per_cent : ℕ → ℕ → ℕ
ceil_per_cent pct n = (pct * n + 99) / 100

abbrev handle : List (Option Event) → List (LatencyWindow thousandths ceil_per_cent)
handle rs =
    write_windows thousandths ceil_per_cent []
      (flush_all thousandths ceil_per_cent never (λ m. m)
        (handle_records thousandths ceil_per_cent never (new_consumer thousandths ceil_per_cent)
          rs)).sent

-- Out of order, the first window is written twice, and its second part is dropped by the table.
late_sample_dropped :
    map {B = ℕ × ℕ} (λ w. (w.window_start, w.sample_n)) (handle events)
    ≡ (0, 1) ∷ (5 * second, 1) ∷ []
unfolding flush_all flush_each flush_window handle_records handle_record compute get put remove
    sort_numbers sort_stable mean write_windows write_window has_key
late_sample_dropped = refl

abbrev in_order : List (Option Event)
in_order = fill_at 1 100 ∷ fill_at 2 200 ∷ none ∷ fill_at 6 300 ∷ []

in_order-InOrder : InOrder in_order
in_order-InOrder = (
  (λ a b s. omega arith, (tt, (λ a b s. omega arith, tt))),
  ((tt, (λ a b s. omega arith, tt)), ((tt, tt), (tt, tt))),
)

abbrev sent_in_order : List (LatencyWindow thousandths ceil_per_cent)
sent_in_order =
    (flush_all thousandths ceil_per_cent never (λ m. m)
      (handle_records thousandths ceil_per_cent never (new_consumer thousandths ceil_per_cent)
        in_order)).sent

flush_all-handle_records_example :
    (sum_of (window_samples thousandths ceil_per_cent "s" 0) (handle in_order)
      ≡ sum_of (counts "s" 0) in_order)
    × (write_windows thousandths ceil_per_cent (handle in_order) sent_in_order ≡ handle in_order)
flush_all-handle_records_example =
    flush_all-handle_records thousandths ceil_per_cent (λ m. m) (λ m. Perm.refl m) in_order
      in_order-InOrder "s" 0
