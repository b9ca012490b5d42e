-- ===== src/Consumer/Conserved.antt =====
-- No sample is lost or counted twice while the store takes every window.
use nexus_bench.Base.{
  ℕ, ◌+◌, String, Bool, true, false, ◌&&◌, not, Option, none, some, List, [], ◌∷◌, ◌≡◌, refl, arith,
  inl, inr, Bool-cases, Option-cases, some-injective, length, length-append, sum_of, sum_of-append,
  ◌==◌, ==_iff, str_eq, eq_iff, if◌then◌else◌,
}
use nexus_bench.Base.Dict.{get, put, get-put, get-remove}
use nexus_bench.Base.Float.{FloatOps}
use nexus_bench.Consumer.{
  Consumer, Event, LatencyWindow, WindowState, add_event, add_sample, bucket_of, compute,
  flush_window, handle_record, handle_records, handle_state, new_window,
}

-- The samples of an open window, if it is that of a bucket.
abbrev pub samples_in : ℕ → Option WindowState → ℕ
samples_in bucket none = 0
samples_in bucket (some w) = if w.bucket_start == bucket then length w.samples else 0

-- The event counts for a submission and a bucket.
abbrev pub counts : String → ℕ → Option Event → ℕ
counts id bucket none = 0
counts id bucket (some e) =
    if not (str_eq e.kind "heartbeat")
      && (str_eq e.submission_id id && (bucket_of e.timestamp == bucket))
    then 1
    else 0

-- a store that takes every window
abbrev pub never : ℕ → Bool
never n = false

module _ (F : FloatOps) (ceil_rank : ℕ → ℕ → ℕ) where
  abbrev pub window_samples : String → ℕ → LatencyWindow F ceil_rank → ℕ
  window_samples id bucket w =
      if str_eq w.submission_id id && (w.window_start == bucket) then w.sample_n else 0

  -- The samples of a submission and a bucket that are in windows that the store took, or are open.
  abbrev pub accounted : String → ℕ → Consumer F ceil_rank → ℕ
  accounted id bucket c =
      sum_of (window_samples id bucket) c.sent + samples_in bucket (get id c.windows)

  pub compute-samples :
      (id : String) (bucket : ℕ) (w : WindowState)
      → window_samples id bucket (compute F ceil_rank w)
        ≡ (if str_eq w.submission_id id && (w.bucket_start == bucket) then length w.samples else 0)
  unfolding compute
  compute-samples id bucket w = elim (Bool-cases (length w.samples == 0)) [
    | inl e ↦ rw (compute, e) (ground arith)
    | inr e ↦ rw (compute, e) refl
  ]

  -- Every window stands under its submission.
  abbrev pub IsOwn : Consumer F ceil_rank → Type 0
  IsOwn c = (id : String) (w : WindowState) → get id c.windows ≡ some w → w.submission_id ≡ id

  put-IsOwn :
      (c : Consumer F ceil_rank) (id : String) (w : WindowState)
      → IsOwn c
      → w.submission_id ≡ id
      → IsOwn (record c { windows = put id w c.windows })
  put-IsOwn c id w own e j v h =
      ground (arith, own j v, get-put id j w c.windows, eq_iff id j, some-injective {x = w} {y = v})

  add_event-accounted :
      (id : String) (bucket : ℕ) (c : Consumer F ceil_rank) (e : Event) (w : WindowState)
      → accounted id bucket (add_event F ceil_rank c e w)
          + (if str_eq e.submission_id id
              then samples_in bucket (get e.submission_id c.windows)
              else 0)
        ≡ accounted id bucket c
          + (if str_eq e.submission_id id
              then samples_in bucket (some (add_sample w e.latency_ns))
              else 0)
  add_event-accounted id bucket c e w = elim (Bool-cases (str_eq e.submission_id id)) [
    | inl s ↦
        let same = (eq_iff e.submission_id id).0 s in
        rw (get-put e.submission_id id (add_sample w e.latency_ns) c.windows, s, same) (omega arith)
    | inr s ↦ rw (get-put e.submission_id id (add_sample w e.latency_ns) c.windows, s) (omega arith)
  ]

  flush_window-accounted :
      (id key : String) (bucket : ℕ) (c : Consumer F ceil_rank) (w : WindowState)
      → get key c.windows ≡ some w
      → w.submission_id ≡ key
      → accounted id bucket (flush_window F ceil_rank never c key w).0 ≡ accounted id bucket c
  unfolding flush_window
  flush_window-accounted id key bucket c w g own =
      let taken = sum_of-append (window_samples id bucket) c.sent (compute F ceil_rank w ∷ []) in
      elim (Bool-cases (str_eq key id)) [
        | inl s ↦ ground (
          arith,
          taken,
          compute-samples id bucket w,
          get-remove key id c.windows,
          eq_iff key id,
          own,
          g,
        )
        | inr s ↦
            ground (arith, taken, compute-samples id bucket w, get-remove key id c.windows, own, g)
      ]

  -- What one record adds, for every submission and bucket.
  abbrev pub Adds : Consumer F ceil_rank → Option Event → Consumer F ceil_rank → Type 0
  Adds c r c' =
      IsOwn c'
      × ((id : String) (bucket : ℕ)
          → accounted id bucket c' ≡ accounted id bucket c + counts id bucket r)

  flush_window-IsOwn :
      (c : Consumer F ceil_rank) (key : String) (w : WindowState)
      → IsOwn c
      → IsOwn (flush_window F ceil_rank never c key w).0
  unfolding flush_window
  flush_window-IsOwn c key w own j v h = own j v (ground (arith, get-remove key j c.windows))

  pub flush_window-closes :
      (c : Consumer F ceil_rank) (key : String) (w : WindowState)
      → (get key (flush_window F ceil_rank never c key w).0.windows ≡ none)
        × ((flush_window F ceil_rank never c key w).1 ≡ true)
  unfolding flush_window
  flush_window-closes c key w = (ground (arith, get-remove key key c.windows, eq_iff key key), refl)

  handle_state-Adds :
      (c : Consumer F ceil_rank) (e : Event) (w : WindowState)
      → IsOwn c
      → str_eq e.kind "heartbeat" ≡ false
      → get e.submission_id c.windows ≡ some w
      → Adds c (some e) (handle_state F ceil_rank never c e w).0
  handle_state-Adds c e w own h g = elim (Bool-cases (w.bucket_start == bucket_of e.timestamp)) [
    | inl b ↦ rw b (
      put-IsOwn c e.submission_id (add_sample w e.latency_ns) own (own e.submission_id w g),
      λ id bucket. ground (
        arith,
        h,
        g,
        add_event-accounted id bucket c e w,
        length-append w.samples (e.latency_ns ∷ []),
        ==_iff w.bucket_start (bucket_of e.timestamp),
      ),
    )
    | inr b ↦
        let c1 = (flush_window F ceil_rank never c e.submission_id w).0 in
        let fresh = new_window e.submission_id (bucket_of e.timestamp) in
        let (closed, written) = flush_window-closes c e.submission_id w in
        rw (b, written)
          (
            put-IsOwn c1 e.submission_id (add_sample fresh e.latency_ns)
                (flush_window-IsOwn c e.submission_id w own) refl,
            λ id bucket. ground (
              arith,
              h,
              closed,
              add_event-accounted id bucket c1 e fresh,
              flush_window-accounted id e.submission_id bucket c w g (own e.submission_id w g),
            ),
          )
  ]

  pub handle_record-Adds :
      (c : Consumer F ceil_rank) (r : Option Event)
      → IsOwn c
      → Adds c r (handle_record F ceil_rank never c r).0
  unfolding handle_record
  handle_record-Adds c none own = (own, λ id bucket. omega arith)
  handle_record-Adds c (some e) own = elim (Bool-cases (str_eq e.kind "heartbeat")) [
    | inl h ↦ rw (handle_record, h) (own, λ id bucket. omega arith)
    | inr h ↦ elim (Option-cases (get e.submission_id c.windows)) [
      | inr (w, g) ↦
          let (own', adds) = handle_state-Adds c e w own h g in
          rw (handle_record, h, g) (own', λ id bucket. ground (arith, h, adds id bucket))
      | inl g ↦
          let fresh = new_window e.submission_id (bucket_of e.timestamp) in
          rw (handle_record, h, g)
            (
              put-IsOwn c e.submission_id (add_sample fresh e.latency_ns) own refl,
              λ id bucket. ground (arith, h, g, add_event-accounted id bucket c e fresh),
            )
    ]
  ]

  pub handle_records-IsOwn :
      (c : Consumer F ceil_rank) (rs : List (Option Event))
      → IsOwn c
      → IsOwn (handle_records F ceil_rank never c rs)
  unfolding handle_records
  handle_records-IsOwn c [] own = own
  handle_records-IsOwn c (r ∷ rs) own =
      handle_records-IsOwn (handle_record F ceil_rank never c r).0 rs (handle_record-Adds c r own).0

  pub handle_records-accounted :
      (c : Consumer F ceil_rank) (rs : List (Option Event)) (id : String) (bucket : ℕ)
      → IsOwn c
      → accounted id bucket (handle_records F ceil_rank never c rs)
        ≡ accounted id bucket c + sum_of (counts id bucket) rs
  unfolding handle_records
  handle_records-accounted c [] id bucket own = omega arith
  handle_records-accounted c (r ∷ rs) id bucket own =
      let (own', adds) = handle_record-Adds c r own in
      omega (
        arith,
        adds id bucket,
        handle_records-accounted (handle_record F ceil_rank never c r).0 rs id bucket own',
      )
