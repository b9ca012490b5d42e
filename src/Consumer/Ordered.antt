-- ===== src/Consumer/Ordered.antt =====
-- Records in order write every window of internal/consumer/consumer.go once.
use nexus_bench.Base.{
  ℕ, ◌≤◌, String, true, false, Option, none, some, List, [], ◌∷◌, ◌≡◌, refl, sym, ◌∙◌, subst, arith,
  inl, inr, All, Bool-cases, Option-cases, ◌==◌, ==_iff, str_eq, eq_iff,
}
use nexus_bench.Base.Dict.{get, get-put}
use nexus_bench.Base.Float.{FloatOps}
use nexus_bench.Consumer.{
  Consumer, Event, WindowState, add_event, add_sample, bucket_of, flush_window, handle_record,
  handle_records, handle_state, new_window,
}
use nexus_bench.Consumer.Conserved.{IsOwn, flush_window-closes, handle_record-Adds, never}
use nexus_bench.Consumer.Stored.{
  InOrder, IsFresh, NotBefore, OpenBy, add_event-IsFresh, flush_window-others, fresh-open,
  is_counted, reopened-IsFresh,
}

module _ (F : FloatOps) (ceil_rank : ℕ → ℕ → ℕ) where
  -- No later window than the record's is open for its submission.
  abbrev pub IsTimely : Consumer F ceil_rank → Option Event → Type 0
  IsTimely c none = Unit
  IsTimely c (some e) =
      (is_counted e ≡ true) → OpenBy (bucket_of e.timestamp) (get e.submission_id c.windows)

  -- What a counted event leaves open: its own bucket for its submission, and all else as it was.
  abbrev Reopens : Consumer F ceil_rank → Event → Consumer F ceil_rank → Type 0
  Reopens c e c' =
      ((w : WindowState) × (get e.submission_id c'.windows ≡ some w)
        × (w.bucket_start ≡ bucket_of e.timestamp))
      × ((id : String) → str_eq e.submission_id id ≡ false → get id c'.windows ≡ get id c.windows)

  add_event-Reopens :
      (c : Consumer F ceil_rank) (e : Event) (w : WindowState)
      → w.bucket_start ≡ bucket_of e.timestamp
      → Reopens c e (add_event F ceil_rank c e w)
  add_event-Reopens c e w b = (
    (
      add_sample w e.latency_ns,
      ground (
        arith,
        get-put e.submission_id e.submission_id (add_sample w e.latency_ns) c.windows,
        eq_iff e.submission_id e.submission_id,
      ),
      b,
    ),
    λ id s. ground (arith, s, get-put e.submission_id id (add_sample w e.latency_ns) c.windows),
  )

  abbrev Handles : Consumer F ceil_rank → Event → Consumer F ceil_rank → Type 0
  Handles c e c' = IsFresh F ceil_rank c' × Reopens c e c'

  handle_state-Handles :
      (c : Consumer F ceil_rank) (e : Event) (w : WindowState)
      → IsOwn F ceil_rank c
      → get e.submission_id c.windows ≡ some w
      → w.bucket_start ≤ bucket_of e.timestamp
      → IsFresh F ceil_rank c
      → Handles c e (handle_state F ceil_rank never c e w).0
  handle_state-Handles c e w own g le h =
      elim (Bool-cases (w.bucket_start == bucket_of e.timestamp)) [
        | inl b ↦ rw b (
          add_event-IsFresh F ceil_rank c e w (λ id bucket. (h id bucket).0)
              (λ bucket k. fresh-open F ceil_rank c e.submission_id (some w) bucket h g k)
              (λ id bucket s k. fresh-open F ceil_rank c id _ bucket h refl k),
          add_event-Reopens c e w ((==_iff w.bucket_start (bucket_of e.timestamp)).0 b),
        )
        | inr b ↦
            let c1 = (flush_window F ceil_rank never c e.submission_id w).0 in
            let fresh = new_window e.submission_id (bucket_of e.timestamp) in
            let (opens, same) = add_event-Reopens c1 e fresh refl in
            rw (b, (flush_window-closes F ceil_rank c e.submission_id w).1)
              (
                reopened-IsFresh F ceil_rank c e w fresh (own e.submission_id w g) g
                    (ground (arith, le, b, ==_iff w.bucket_start (bucket_of e.timestamp))) h,
                (
                  opens,
                  λ id s. same id s ∙ flush_window-others F ceil_rank c e.submission_id w id s,
                ),
              )
      ]

  handle_event-Handles :
      (c : Consumer F ceil_rank) (e : Event)
      → IsOwn F ceil_rank c
      → is_counted e ≡ true
      → IsTimely c (some e)
      → IsFresh F ceil_rank c
      → Handles c e (handle_record F ceil_rank never c (some e)).0
  unfolding handle_record
  handle_event-Handles c e own counted timely h =
      let k : str_eq e.kind "heartbeat" ≡ false = ground (arith, counted) in
      elim (Option-cases (get e.submission_id c.windows)) [
        | inr (w, g) ↦
            rw (handle_record, k, g) (handle_state-Handles c e w own g (rw g at (timely counted)) h)
        | inl g ↦
            rw (handle_record, k, g)
              (
                add_event-IsFresh F ceil_rank c e
                    (new_window e.submission_id (bucket_of e.timestamp))
                    (λ id bucket. (h id bucket).0)
                    (λ bucket x. fresh-open F ceil_rank c e.submission_id none bucket h g tt)
                    (λ id bucket s x. fresh-open F ceil_rank c id _ bucket h refl x),
                add_event-Reopens c e (new_window e.submission_id (bucket_of e.timestamp)) refl,
              )
      ]

  Handles-IsTimely :
      (c c' : Consumer F ceil_rank) (e : Event) (r : Option Event)
      → Reopens c e c'
      → is_counted e ≡ true
      → NotBefore (some e) r
      → IsTimely c r
      → IsTimely c' r
  Handles-IsTimely c c' e none opens counted after timely = tt
  Handles-IsTimely c c' e (some d) ((w, g, b), same) counted after timely = λ x.
      elim (Bool-cases (str_eq e.submission_id d.submission_id)) [
        | inl s ↦
            let own = (eq_iff e.submission_id d.submission_id).0 s in
            subst (λ i. OpenBy (bucket_of d.timestamp) (get i c'.windows)) own
              (subst (OpenBy (bucket_of d.timestamp)) (sym g)
                (omega (arith, b, after counted x own)))
        | inr s ↦ subst (OpenBy (bucket_of d.timestamp)) (sym (same d.submission_id s)) (timely x)
      ]

  -- One record keeps the windows fresh, and no record that is in order after it comes too late.
  abbrev Goes : Consumer F ceil_rank → Option Event → Consumer F ceil_rank → Type 0
  Goes c r c' =
      IsFresh F ceil_rank c'
      × ((r' : Option Event) → NotBefore r r' → IsTimely c r' → IsTimely c' r')

  handle_record-Goes :
      (c : Consumer F ceil_rank) (r : Option Event)
      → IsOwn F ceil_rank c
      → IsTimely c r
      → IsFresh F ceil_rank c
      → Goes c r (handle_record F ceil_rank never c r).0
  unfolding handle_record
  handle_record-Goes c none own timely h = (h, λ r' a t. t)
  handle_record-Goes c (some e) own timely h = elim (Bool-cases (is_counted e)) [
    | inr k ↦
        let heartbeat : str_eq e.kind "heartbeat" ≡ true = ground (arith, k) in
        rw (handle_record, heartbeat) (h, λ r' a t. t)
    | inl k ↦
        let (fresh, opens) = handle_event-Handles c e own k timely h in
        (
          fresh,
          λ r' a t.
              Handles-IsTimely c (handle_record F ceil_rank never c (some e)).0 e r' opens k a t,
        )
  ]

  All-later :
      (c c' : Consumer F ceil_rank) (r : Option Event) (rs : List (Option Event))
      → ((r' : Option Event) → NotBefore r r' → IsTimely c r' → IsTimely c' r')
      → All (NotBefore r) rs
      → All (IsTimely c) rs
      → All (IsTimely c') rs
  All-later c c' r [] f a t = tt
  All-later c c' r (r' ∷ rs) f (a, as') (t, ts) = (f r' a t, All-later c c' r rs f as' ts)

  pub handle_records-IsFresh :
      (c : Consumer F ceil_rank) (rs : List (Option Event))
      → IsOwn F ceil_rank c
      → IsFresh F ceil_rank c
      → InOrder rs
      → All (IsTimely c) rs
      → IsFresh F ceil_rank (handle_records F ceil_rank never c rs)
  unfolding handle_records
  handle_records-IsFresh c [] own h o t = h
  handle_records-IsFresh c (r ∷ rs) own h (after, o) (timely, ts) =
      let (fresh, later) = handle_record-Goes c r own timely h in
      handle_records-IsFresh (handle_record F ceil_rank never c r).0 rs
        (handle_record-Adds F ceil_rank c r own).0 fresh o
        (All-later c (handle_record F ceil_rank never c r).0 r rs later after ts)
