-- ===== src/Bus/Delivery.antt =====
-- What a slow subscriber of internal/api/bus.go receives.
use nexus_bench.Base.{
  ℕ, zero, suc, ◌≤◌, ◌≡◌, refl, ◌∙◌, sym, ap, str_eq, false, String, Option, none, some, List, [],
  ◌∷◌, ◌++◌, arith, ltb, length, length-append, inl, inr, Bool-cases, eq_iff,
}
use mathlib.Core.List.{append_assoc, append-nil}
use nexus_bench.Base.Dict.{get, put, get-put, get-remove}
use nexus_bench.Bus.{
  LeaderboardBus, broadcast, do_unsubscribe, deliver, subscriber_chan_size, do_subscribe,
}

-- The calls of the bus.
pub data Call (A : Type 0) : Type 0 where
  subscribes unsubscribes : String → Call A
  sends : A → Call A

module _ {A : Type 0} where
  abbrev pub take : ℕ → List A → List A
  take zero xs = []
  take (suc n) [] = []
  take (suc n) (x ∷ xs) = x ∷ take n xs

  take-all : (n : ℕ) (xs : List A) → length xs ≤ n → take n xs ≡ xs
  take-all zero [] h = refl
  take-all zero (x ∷ xs) h = absurd (omega arith)
  take-all (suc n) [] h = refl
  take-all (suc n) (x ∷ xs) h = ap (◌∷◌ x) (take-all n xs (omega arith))

  take-full : (n : ℕ) (xs ys : List A) → length xs ≡ n → take n (xs ++ ys) ≡ xs
  take-full zero [] ys h = refl
  take-full zero (x ∷ xs) ys h = absurd (omega arith)
  take-full (suc n) [] ys h = absurd (omega arith)
  take-full (suc n) (x ∷ xs) ys h = ap (◌∷◌ x) (take-full n xs ys (omega arith))

  abbrev deliver_to : A → Option (List A) → Option (List A)
  deliver_to e none = none
  deliver_to e (some ch) = some (deliver e ch)

  get-broadcast :
      (e : A) (id : String) (subs : LeaderboardBus A)
      → get id (broadcast e subs) ≡ deliver_to e (get id subs)
  unfolding get broadcast
  get-broadcast e id [] = refl
  get-broadcast e id ((j, ch) ∷ subs) = ground (arith, get-broadcast e id subs)

  deliver-bounded :
      (e : A) (ch : List A)
      → length ch ≤ subscriber_chan_size
      → length (deliver e ch) ≤ subscriber_chan_size
  deliver-bounded e ch h = ground (arith, h, length-append ch (e ∷ []))

  take-deliver :
      (e : A) (ch es : List A)
      → length ch ≤ subscriber_chan_size
      → take subscriber_chan_size (deliver e ch ++ es) ≡ take subscriber_chan_size (ch ++ e ∷ es)
  take-deliver e ch es h = elim (Bool-cases (ltb (length ch) subscriber_chan_size)) [
    | inl a ↦ rw a (ap (take subscriber_chan_size) (append_assoc ch (e ∷ []) es))
    | inr a ↦
        let full : length ch ≡ subscriber_chan_size = ground (arith, a, h) in
        rw a (
          take-full subscriber_chan_size ch es full
          ∙ sym (take-full subscriber_chan_size ch (e ∷ es) full))
  ]

  abbrev pub step : LeaderboardBus A → Call A → LeaderboardBus A
  step subs (subscribes j) = do_subscribe j subs
  step subs (unsubscribes j) = do_unsubscribe j subs
  step subs (sends e) = broadcast e subs

  unfoldable pub run : LeaderboardBus A → List (Call A) → LeaderboardBus A
  run subs [] = subs
  run subs (c ∷ cs) = run (step subs c) cs

  -- The events of the broadcasts, in order.
  abbrev pub sent : List (Call A) → List A
  sent [] = []
  sent (subscribes j ∷ cs) = sent cs
  sent (unsubscribes j ∷ cs) = sent cs
  sent (sends e ∷ cs) = e ∷ sent cs

  -- Whoever subscribes or leaves has another ID.
  abbrev pub Spares : String → List (Call A) → Type 0
  Spares id [] = Unit
  Spares id (subscribes j ∷ cs) = (str_eq j id ≡ false) × Spares id cs
  Spares id (unsubscribes j ∷ cs) = (str_eq j id ≡ false) × Spares id cs
  Spares id (sends e ∷ cs) = Spares id cs

  subscribe-other :
      (j id : String) (subs : LeaderboardBus A)
      → str_eq j id ≡ false
      → get id (do_subscribe j subs) ≡ get id subs
  unfolding do_subscribe
  subscribe-other j id subs h = ground (arith, h, get-put j id [] subs)

  unsubscribe-other :
      (j id : String) (subs : LeaderboardBus A)
      → str_eq j id ≡ false
      → get id (do_unsubscribe j subs) ≡ get id subs
  unfolding do_unsubscribe
  unsubscribe-other j id subs h = ground (arith, h, get-remove j id subs)

  run-held :
      (cs : List (Call A)) (id : String) (subs : LeaderboardBus A) (ch : List A)
      → Spares id cs
      → get id subs ≡ some ch
      → length ch ≤ subscriber_chan_size
      → get id (run subs cs) ≡ some (take subscriber_chan_size (ch ++ sent cs))
  unfolding run
  run-held [] id subs ch s e h =
      e
      ∙ ap some (
          sym (take-all subscriber_chan_size ch h)
          ∙ ap (take subscriber_chan_size) (sym (append-nil ch)))
  run-held (subscribes j ∷ cs) id subs ch s e h =
      run-held cs id (do_subscribe j subs) ch s.1 (subscribe-other j id subs s.0 ∙ e) h
  run-held (unsubscribes j ∷ cs) id subs ch s e h =
      run-held cs id (do_unsubscribe j subs) ch s.1 (unsubscribe-other j id subs s.0 ∙ e) h
  run-held (sends x ∷ cs) id subs ch s e h =
      run-held cs id (broadcast x subs) (deliver x ch) s
        (get-broadcast x id subs ∙ ap (deliver_to x) e) (deliver-bounded x ch h)
      ∙ ap some (take-deliver x ch (sent cs) h)

  -- A subscriber that reads nothing holds the first four events that are broadcast after it subscribed:
  -- later ones are dropped and none before them is, whichever other subscribers come and go between.
  pub subscribe_lem :
      (cs : List (Call A)) (id : String) (subs : LeaderboardBus A)
      → Spares id cs
      → get id (run (do_subscribe id subs) cs) ≡ some (take subscriber_chan_size (sent cs))
  unfolding do_subscribe
  subscribe_lem cs id subs s =
      run-held cs id (put id [] subs) [] s (ground (arith, get-put id id [] subs, eq_iff id id))
        (omega arith)
