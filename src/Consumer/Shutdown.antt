-- ===== src/Consumer/Shutdown.antt =====
-- What the table holds when a consumer is shut down.
use nexus_bench.Base.{
  ℕ, ◌+◌, ◌≤◌, String, ◌&&◌, Option, none, some, List, [], ◌∷◌, Perm, ◌≡◌, refl, arith, inl, inr,
  All, Bool-cases, Option-cases, length, sum_of, sum_of-append, ◌==◌, ==_iff, ◌∙◌, str_eq,
  if◌then◌else◌,
}
use nexus_bench.Base.Dict.{Dict, get, keys, keys-get, keys-put-le, keys-remove-le, All-get}
use nexus_bench.Base.Float.{FloatOps}
use nexus_bench.Base.Rearranged.{sum_of-perm}
use nexus_bench.Consumer.{
  Consumer, Event, WindowState, add_event, add_sample, bucket_of, compute, flush_all, flush_each,
  flush_window, handle_record, handle_records, handle_state, new_consumer, new_window,
  write_windows,
}
use nexus_bench.Consumer.Ordered.{IsTimely, handle_records-IsFresh}
use nexus_bench.Consumer.Stored.{InOrder, IsFresh, compute-keyed, fresh-open}
use nexus_bench.Consumer.Table.{keyed, occurrences, write_windows-again, write_windows-samples}
use nexus_bench.Consumer.Conserved.{
  IsOwn, compute-samples, counts, flush_window-closes, handle_records-IsOwn,
  handle_records-accounted, never, samples_in, window_samples,
}

-- What an open window holds for a submission and a bucket, wherever it stands.
abbrev window_holds : String → ℕ → String × WindowState → ℕ
window_holds id bucket kw =
    if str_eq kw.1.submission_id id && (kw.1.bucket_start == bucket) then length kw.1.samples else 0

none_left : (id : String) (m : Dict WindowState) → keys id m ≡ 0 → get id m ≡ none
none_left id m h = elim (Option-cases (get id m)) [
  | inl e ↦ e
  | inr (w, e) ↦ absurd (omega (arith, keys-get id w m e))
]

open_windows :
    (id : String) (bucket : ℕ) (m : Dict WindowState)
    → All (λ kw. kw.1.submission_id ≡ kw.0) m
    → keys id m ≤ 1
    → sum_of (window_holds id bucket) m ≡ samples_in bucket (get id m)
unfolding get
open_windows id bucket [] own h = refl
open_windows id bucket ((k, w) ∷ m) (own, owns) h =
    ground (arith, own, open_windows id bucket m owns, none_left id m)

module _ (F : FloatOps) (ceil_rank : ℕ → ℕ → ℕ) where
  -- At most one window is open under a submission.
  abbrev HasOneWindow : Consumer F ceil_rank → Type 0
  HasOneWindow c = (id : String) → keys id c.windows ≤ 1

  flush_window-HasOneWindow :
      (c : Consumer F ceil_rank) (key : String) (w : WindowState)
      → HasOneWindow c
      → HasOneWindow (flush_window F ceil_rank never c key w).0
  unfolding flush_window
  flush_window-HasOneWindow c key w h id = keys-remove-le key id c.windows (h id)

  add_event-HasOneWindow :
      (c : Consumer F ceil_rank) (e : Event) (w : WindowState)
      → HasOneWindow c
      → HasOneWindow (add_event F ceil_rank c e w)
  add_event-HasOneWindow c e w h id =
      keys-put-le e.submission_id id (add_sample w e.latency_ns) c.windows (h id)

  handle_record-HasOneWindow :
      (c : Consumer F ceil_rank) (r : Option Event)
      → HasOneWindow c
      → HasOneWindow (handle_record F ceil_rank never c r).0
  unfolding handle_record
  handle_record-HasOneWindow c none h = h
  handle_record-HasOneWindow c (some e) h = elim (Bool-cases (str_eq e.kind "heartbeat")) [
    | inl k ↦ rw (handle_record, k) h
    | inr k ↦ elim (Option-cases (get e.submission_id c.windows)) [
      | inl g ↦
          rw (handle_record, k, g)
            (add_event-HasOneWindow c e (new_window e.submission_id (bucket_of e.timestamp)) h)
      | inr (w, g) ↦ elim (Bool-cases (w.bucket_start == bucket_of e.timestamp)) [
        | inl b ↦ rw (handle_record, k, g, handle_state, b) (add_event-HasOneWindow c e w h)
        | inr b ↦
            rw
              (
                handle_record,
                k,
                g,
                handle_state,
                b,
                (flush_window-closes F ceil_rank c e.submission_id w).1,
              )
              (add_event-HasOneWindow (flush_window F ceil_rank never c e.submission_id w).0 e
                (new_window e.submission_id (bucket_of e.timestamp))
                (flush_window-HasOneWindow c e.submission_id w h))
      ]
    ]
  ]

  handle_records-HasOneWindow :
      (c : Consumer F ceil_rank) (rs : List (Option Event))
      → HasOneWindow c
      → HasOneWindow (handle_records F ceil_rank never c rs)
  unfolding handle_records
  handle_records-HasOneWindow c [] h = h
  handle_records-HasOneWindow c (r ∷ rs) h =
      handle_records-HasOneWindow (handle_record F ceil_rank never c r).0 rs
        (handle_record-HasOneWindow c r h)

  flush_each-sent :
      (id : String) (bucket : ℕ) (c : Consumer F ceil_rank) (kws : List (String × WindowState))
      → sum_of (window_samples F ceil_rank id bucket) (flush_each F ceil_rank never c kws).sent
        ≡ sum_of (window_samples F ceil_rank id bucket) c.sent + sum_of (window_holds id bucket) kws
  unfolding flush_each flush_window
  flush_each-sent id bucket c [] = omega arith
  flush_each-sent id bucket c (kw ∷ kws) = omega (
    arith,
    flush_each-sent id bucket (flush_window F ceil_rank never c kw.0 kw.1).0 kws,
    sum_of-append (window_samples F ceil_rank id bucket) c.sent (compute F ceil_rank kw.1 ∷ []),
    compute-samples F ceil_rank id bucket kw.1,
  )

  -- What an open window adds to the windows of a key.
  abbrev window_keyed : String → ℕ → String × WindowState → ℕ
  window_keyed id bucket kw =
      if str_eq kw.1.submission_id id && (kw.1.bucket_start == bucket) then 1 else 0

  abbrev opened : ℕ → Option WindowState → ℕ
  opened bucket none = 0
  opened bucket (some w) = if w.bucket_start == bucket then 1 else 0

  open_keyed :
      (id : String) (bucket : ℕ) (m : Dict WindowState)
      → All (λ kw. kw.1.submission_id ≡ kw.0) m
      → keys id m ≤ 1
      → sum_of (window_keyed id bucket) m ≡ opened bucket (get id m)
  unfolding get
  open_keyed id bucket [] own h = refl
  open_keyed id bucket ((k, w) ∷ m) (own, owns) h =
      ground (arith, own, open_keyed id bucket m owns, none_left id m)

  flush_each-occurrences :
      (id : String) (bucket : ℕ) (c : Consumer F ceil_rank) (kws : List (String × WindowState))
      → occurrences F ceil_rank id bucket (flush_each F ceil_rank never c kws).sent
        ≡ occurrences F ceil_rank id bucket c.sent + sum_of (window_keyed id bucket) kws
  unfolding flush_each flush_window
  flush_each-occurrences id bucket c [] = omega arith
  flush_each-occurrences id bucket c (kw ∷ kws) = omega (
    arith,
    flush_each-occurrences id bucket (flush_window F ceil_rank never c kw.0 kw.1).0 kws,
    sum_of-append (keyed F ceil_rank id bucket) c.sent (compute F ceil_rank kw.1 ∷ []),
    compute-keyed F ceil_rank id bucket kw.1,
  )

  fresh-once :
      (c : Consumer F ceil_rank) (id : String) (bucket : ℕ)
      → IsFresh F ceil_rank c
      → occurrences F ceil_rank id bucket c.sent + opened bucket (get id c.windows) ≤ 1
  fresh-once c id bucket h = elim (Option-cases (get id c.windows)) [
    | inl g ↦ rw g (omega (arith, (h id bucket).0))
    | inr (w, g) ↦ rw g (elim (Bool-cases (w.bucket_start == bucket)) [
      | inr b ↦ rw b (omega (arith, (h id bucket).0))
      | inl b ↦ rw b (
          omega (
            arith,
            fresh-open F ceil_rank c id (some w) bucket h g
                (omega (arith, (==_iff w.bucket_start bucket).0 b)),
          ))
    ])
  ]

  module _ (range : Dict WindowState → List (String × WindowState))
      (ranging : (m : Dict WindowState) → Perm (range m) m) (rs : List (Option Event)) where
    abbrev start : Consumer F ceil_rank
    start = new_consumer F ceil_rank

    abbrev handled : Consumer F ceil_rank
    handled = handle_records F ceil_rank never start rs

    start-IsOwn : IsOwn F ceil_rank start
    unfolding get
    start-IsOwn = λ k w e. absurd cc

    handled-owns : All (λ kw. kw.1.submission_id ≡ kw.0) handled.windows
    handled-owns =
        All-get (λ k w. w.submission_id ≡ k) handled.windows
          (handle_records-HasOneWindow start rs (λ k. omega arith))
          (handle_records-IsOwn F ceil_rank start rs start-IsOwn)

    handled-HasOneWindow : HasOneWindow handled
    handled-HasOneWindow = handle_records-HasOneWindow start rs (λ k. omega arith)

    -- Every window is written, so all samples are sent to the store.
    flush_all-sent :
        (id : String) (bucket : ℕ)
        → sum_of
            (window_samples F ceil_rank id bucket)
            (flush_all F ceil_rank never range handled).sent
          ≡ sum_of (counts id bucket) rs
    unfolding flush_all get
    flush_all-sent id bucket = omega (
      arith,
      flush_each-sent id bucket handled (range handled.windows),
      sum_of-perm (window_holds id bucket) (ranging handled.windows),
      open_windows id bucket handled.windows handled-owns (handled-HasOneWindow id),
      handle_records-accounted F ceil_rank start rs id bucket start-IsOwn,
    )

    timely : (rs' : List (Option Event)) → All (IsTimely F ceil_rank start) rs'
    unfolding get
    timely [] = tt
    timely (none ∷ rs') = (tt, timely rs')
    timely (some e ∷ rs') = (λ h. tt, timely rs')

    -- In order, no two writes have one key.
    flush_all-once :
        (id : String) (bucket : ℕ)
        → InOrder rs
        → occurrences F ceil_rank id bucket (flush_all F ceil_rank never range handled).sent ≤ 1
    unfolding flush_all
    flush_all-once id bucket o = omega (
      arith,
      flush_each-occurrences id bucket handled (range handled.windows),
      sum_of-perm (window_keyed id bucket) (ranging handled.windows),
      open_keyed id bucket handled.windows handled-owns (handled-HasOneWindow id),
      fresh-once handled id bucket (
          handle_records-IsFresh F ceil_rank start rs start-IsOwn (λ j b. (omega arith, λ k. refl))
            o (timely rs)),
    )

  -- Where no write meets an error and `range` yields each open window once, in any order: if the events of
  -- each submission come in the order of their 5 s buckets, then after any records and the shutdown the
  -- table, which keeps one row for a submission and a bucket, holds for each as many samples as there were
  -- decodable events of that submission in that bucket that are no heartbeats; and a consumer that
  -- starts again and handles the same records leaves the table as it is.
  pub flush_all-handle_records :
      (range : Dict WindowState → List (String × WindowState))
      → ((m : Dict WindowState) → Perm (range m) m)
      → (rs : List (Option Event)) → InOrder rs
      → (id : String) (bucket : ℕ)
      → let c = handle_records F ceil_rank never (new_consumer F ceil_rank) rs in
        let sent = (flush_all F ceil_rank never range c).sent in
        let table = write_windows F ceil_rank [] sent in
        (sum_of (window_samples F ceil_rank id bucket) table ≡ sum_of (counts id bucket) rs)
        × (write_windows F ceil_rank table sent ≡ table)
  flush_all-handle_records range ranging rs o id bucket =
      let sent =
        (flush_all F ceil_rank never range
          (handle_records F ceil_rank never (new_consumer F ceil_rank) rs)).sent in
      (
        write_windows-samples F ceil_rank [] sent id bucket
              (λ j b. omega (arith, flush_all-once range ranging rs j b o))
            ∙ omega (arith, flush_all-sent range ranging rs id bucket),
        write_windows-again F ceil_rank [] sent,
      )
