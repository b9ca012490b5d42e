-- ===== src/Consumer/Stored.antt =====
-- Which windows of internal/consumer/consumer.go have the same key in the table of store.go.
use nexus_bench.Base.{
  ◌∙◌, ℕ, ◌+◌, ◌≤◌, ◌<◌, String, Bool, true, false, ◌&&◌, not, Option, none, some, List, [], ◌∷◌,
  sym, subst, ◌∙◌, ◌≡◌, arith, inl, inr, All, Bool-cases, sum_of-append, ◌==◌, ==_iff, str_eq,
  eq_iff, if◌then◌else◌,
}
use nexus_bench.Base.Dict.{get, get-put, get-remove}
use nexus_bench.Base.Float.{FloatOps}
use nexus_bench.Consumer.{
  Consumer, Event, WindowState, add_event, add_sample, bucket_of, compute, flush_window,
}
use nexus_bench.Consumer.Table.{keyed, occurrences}
use nexus_bench.Consumer.Conserved.{never}

-- A record that opens or fills a window.
abbrev pub is_counted : Event → Bool
is_counted e = not (str_eq e.kind "heartbeat")

-- The second record is for another submission than the first, or for no earlier bucket.
abbrev pub NotBefore : Option Event → Option Event → Type 0
NotBefore none r = Unit
NotBefore (some d) none = Unit
NotBefore (some d) (some e) =
    (is_counted d ≡ true)
    → (is_counted e ≡ true)
    → d.submission_id ≡ e.submission_id
    → bucket_of d.timestamp ≤ bucket_of e.timestamp

-- The records of each submission come in the order of their buckets.
abbrev pub InOrder : List (Option Event) → Type 0
InOrder [] = Unit
InOrder (r ∷ rs) = All (NotBefore r) rs × InOrder rs

abbrev pub OpenBy : ℕ → Option WindowState → Type 0
OpenBy bucket none = Unit
OpenBy bucket (some w) = w.bucket_start ≤ bucket

module _ (F : FloatOps) (ceil_rank : ℕ → ℕ → ℕ) where
  pub compute-keyed :
      (id : String) (bucket : ℕ) (w : WindowState)
      → keyed F ceil_rank id bucket (compute F ceil_rank w)
        ≡ (if str_eq w.submission_id id && (w.bucket_start == bucket) then 1 else 0)
  unfolding compute
  compute-keyed id bucket w = ground arith

  -- No window was written twice, nor one of the bucket that is open or a later one.
  abbrev pub IsFresh : Consumer F ceil_rank → Type 0
  IsFresh c =
      (id : String) (bucket : ℕ)
      → (occurrences F ceil_rank id bucket c.sent ≤ 1)
        × (OpenBy bucket (get id c.windows) → occurrences F ceil_rank id bucket c.sent ≡ 0)

  -- What a window under `id` may not have been written before.
  abbrev pub Unwritten : String → ℕ → Consumer F ceil_rank → Type 0
  Unwritten id from c = (bucket : ℕ) → from ≤ bucket → occurrences F ceil_rank id bucket c.sent ≡ 0

  pub fresh-open :
      (c : Consumer F ceil_rank) (id : String) (o : Option WindowState) (bucket : ℕ)
      → IsFresh c
      → get id c.windows ≡ o
      → OpenBy bucket o
      → occurrences F ceil_rank id bucket c.sent ≡ 0
  fresh-open c id o bucket h e k = (h id bucket).1 (subst (OpenBy bucket) (sym e) k)

  pub add_event-IsFresh :
      (c : Consumer F ceil_rank) (e : Event) (w : WindowState)
      → ((id : String) (bucket : ℕ) → occurrences F ceil_rank id bucket c.sent ≤ 1)
      → Unwritten e.submission_id w.bucket_start c
      → ((id : String) (bucket : ℕ)
          → str_eq e.submission_id id ≡ false
          → OpenBy bucket (get id c.windows)
          → occurrences F ceil_rank id bucket c.sent ≡ 0)
      → IsFresh (add_event F ceil_rank c e w)
  add_event-IsFresh c e w once new others id bucket = (
    once id bucket,
    elim (Bool-cases (str_eq e.submission_id id)) [
      | inl s ↦
          rw (get-put e.submission_id id (add_sample w e.latency_ns) c.windows, s)
            (subst (λ x. w.bucket_start ≤ bucket → occurrences F ceil_rank x bucket c.sent ≡ 0)
              ((eq_iff e.submission_id id).0 s) (new bucket))
      | inr s ↦
          rw (get-put e.submission_id id (add_sample w e.latency_ns) c.windows, s)
            (others id bucket s)
    ],
  )

  flush_window-occurrences :
      (c : Consumer F ceil_rank) (key : String) (w : WindowState) (id : String) (bucket : ℕ)
      → w.submission_id ≡ key
      → occurrences F ceil_rank id bucket (flush_window F ceil_rank never c key w).0.sent
        ≡ occurrences F ceil_rank id bucket c.sent
          + (if str_eq key id && (w.bucket_start == bucket) then 1 else 0)
  unfolding flush_window
  flush_window-occurrences c key w id bucket own =
      sum_of-append (keyed F ceil_rank id bucket) c.sent (compute F ceil_rank w ∷ [])
      ∙ ground (arith, own, compute-keyed id bucket w)

  pub flush_window-others :
      (c : Consumer F ceil_rank) (key : String) (w : WindowState) (id : String)
      → str_eq key id ≡ false
      → get id (flush_window F ceil_rank never c key w).0.windows ≡ get id c.windows
  unfolding flush_window
  flush_window-others c key w id s = ground (arith, s, get-remove key id c.windows)

  -- Closing a window for one of a later bucket.
  pub reopened-IsFresh :
      (c : Consumer F ceil_rank) (e : Event) (w fresh : WindowState)
      → w.submission_id ≡ e.submission_id
      → get e.submission_id c.windows ≡ some w
      → w.bucket_start < fresh.bucket_start
      → IsFresh c
      → IsFresh
          (add_event F ceil_rank (flush_window F ceil_rank never c e.submission_id w).0 e fresh)
  reopened-IsFresh c e w fresh own g lt h =
      let c1 = (flush_window F ceil_rank never c e.submission_id w).0 in
      add_event-IsFresh c1 e fresh
        (λ id bucket. elim (Bool-cases (str_eq e.submission_id id && (w.bucket_start == bucket))) [
          | inr s ↦ omega (
            arith,
            (h id bucket).0,
            rw s at (flush_window-occurrences c e.submission_id w id bucket own),
          )
          | inl s ↦ ground (
            arith,
            s,
            eq_iff e.submission_id id,
            ==_iff w.bucket_start bucket,
            fresh-open c e.submission_id (some w) bucket h g,
            flush_window-occurrences c e.submission_id w id bucket own,
          )
        ])
        (λ bucket k. ground (
          arith,
          lt,
          k,
          ==_iff w.bucket_start bucket,
          fresh-open c e.submission_id (some w) bucket h g,
          flush_window-occurrences c e.submission_id w e.submission_id bucket own,
        ))
        (λ id bucket s k. ground (
          arith,
          s,
          fresh-open c id _ bucket h (sym (flush_window-others c e.submission_id w id s)) k,
          flush_window-occurrences c e.submission_id w id bucket own,
        ))
