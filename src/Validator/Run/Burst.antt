-- ===== src/Validator/Run/Burst.antt =====
-- A burst whose orders are all answered as resting passes, whatever the order of the turns.
use nexus_bench.Base.{
  some-injective, ℕ, zero, suc, ◌+◌, ◌<◌, Bool, true, false, ◌||◌, none, some, List, [], ◌∷◌, ◌≡◌,
  refl, ◌⊎◌, inl, inr, arith, All, Bool-cases, length, pos, ◌==◌, ==_iff, get_elem?, subst, sym, ap,
  ◌∙◌,
}
use nexus_bench.Base.Text.{TextOps}
use nexus_bench.Orderbook.{GoldenFill}
use nexus_bench.Fleet.{Order, Fill}
use nexus_bench.Validator.Scenarios.{Scenario}
use nexus_bench.Validator.Compare.Matching.{Answers, compare_fills_match}
use nexus_bench.Validator.Run.{
  ConcurrentResult, sent, pass, fill_sent, result_of, timed_out_ids, set_at, place, zero_fills,
  compare_sorted, transport_failure, judge_burst,
}

abbrev pub occurs : ℕ → List ℕ → Bool
occurs i [] = false
occurs i (j ∷ js) = j == i || occurs i js

-- a fill that accepts an order and executes nothing
abbrev pub Rests : Fill → Type 0
Rests f = (f.accepted ≡ true) × ((f.executed_price ≡ pos 0) × (f.executed_qty ≡ pos 0))

abbrev pub Expects : GoldenFill → Type 0
Expects e = (e.accepted ≡ true) × ((e.executed_price ≡ pos 0) × (e.executed_qty ≡ pos 0))

abbrev pub RestsSent : ConcurrentResult → Type 0
RestsSent r = (f : Fill) × ((r.answer ≡ sent f) × Rests f)

abbrev pub arrived : ℕ → List ConcurrentResult → Bool
arrived i [] = false
arrived i (r ∷ rs) = r.idx == i || arrived i rs

arrived-result :
    (i : ℕ) (rs : List ConcurrentResult)
    → All RestsSent rs
    → arrived i rs ≡ true
    → (f : Fill) × (result_of i rs ≡ some (sent f))
unfolding result_of
arrived-result i [] h a = absurd (ground arith)
arrived-result i (r ∷ rs) ((f, (e, h)), hs) a = elim (Bool-cases (r.idx == i)) [
  | inl t ↦ (f, rw (result_of, t, e) refl)
  | inr t ↦ rw (result_of, t) (arrived-result i rs hs (rw t at a))
]

arrived-at :
    {i j : ℕ} (rs : List ConcurrentResult) → i ≡ j → arrived i rs ≡ true → arrived j rs ≡ true
arrived-at rs e = subst (λ (k : ℕ). arrived k rs ≡ true) e

no_timeouts :
    (i : ℕ) (os : List Order) (rs : List ConcurrentResult)
    → All RestsSent rs
    → ((j : ℕ) → j < length os → arrived (i + j) rs ≡ true)
    → timed_out_ids i os rs ≡ []
unfolding timed_out_ids
no_timeouts i [] rs h a = refl
no_timeouts i (o ∷ os) rs h a =
    let (f, e) = arrived-result i rs h (arrived-at rs (omega arith) (a 0 (omega arith))) in
    rw (timed_out_ids, e)
      (no_timeouts (suc i) os rs h λ j lt. arrived-at rs (omega arith) (a (suc j) (omega arith)))

no_failures :
    (T : TextOps) (sc : Scenario) (rs : List ConcurrentResult)
    → All RestsSent rs
    → transport_failure T sc rs ≡ none
unfolding transport_failure
no_failures T sc [] h = refl
no_failures T sc (r ∷ rs) ((f, (e, h)), hs) = rw (transport_failure, e) (no_failures T sc rs hs)

abbrev RestsAt : ℕ → List Fill → Type 0
RestsAt i fs = (f : Fill) × ((get_elem? fs i ≡ some f) × Rests f)

length-set_at : (i : ℕ) (f : Fill) (fs : List Fill) → length (set_at i f fs) ≡ length fs
unfolding set_at
length-set_at i f [] = refl
length-set_at zero f (x ∷ xs) = refl
length-set_at (suc i) f (x ∷ xs) = ap suc (length-set_at i f xs)

RestsAt-set_same :
    (i : ℕ) (f : Fill) (fs : List Fill) → i < length fs → Rests f → RestsAt i (set_at i f fs)
unfolding set_at
RestsAt-set_same i f [] lt h = absurd (omega arith)
RestsAt-set_same zero f (x ∷ xs) lt h = (f, (refl, h))
RestsAt-set_same (suc i) f (x ∷ xs) lt h = RestsAt-set_same i f xs (omega arith) h

RestsAt-set_at :
    (i j : ℕ) (f : Fill) (fs : List Fill) → Rests f → RestsAt i fs → RestsAt i (set_at j f fs)
unfolding set_at
RestsAt-set_at i j f [] h r = r
RestsAt-set_at zero zero f (x ∷ xs) h r = (f, (refl, h))
RestsAt-set_at (suc i) zero f (x ∷ xs) h r = r
RestsAt-set_at zero (suc j) f (x ∷ xs) h r = r
RestsAt-set_at (suc i) (suc j) f (x ∷ xs) h r = RestsAt-set_at i j f xs h r

length-place : (rs : List ConcurrentResult) (fs : List Fill) → length (place rs fs) ≡ length fs
unfolding place
length-place [] fs = refl
length-place (r ∷ rs) fs =
    length-place rs (set_at r.idx (fill_sent r.answer) fs)
    ∙ length-set_at r.idx (fill_sent r.answer) fs

fill_sent-Rests : (r : ConcurrentResult) → RestsSent r → Rests (fill_sent r.answer)
fill_sent-Rests r (f, (e, h)) = rw (fill_sent, e) h

RestsAt-place :
    (i : ℕ) (rs : List ConcurrentResult) (fs : List Fill)
    → All RestsSent rs
    → i < length fs
    → RestsAt i fs ⊎ (arrived i rs ≡ true)
    → RestsAt i (place rs fs)
unfolding place
RestsAt-place i [] fs h lt (inl r) = r
RestsAt-place i [] fs h lt (inr a) = absurd (ground arith)
RestsAt-place i (r ∷ rs) fs (h, hs) lt (inl at) =
    RestsAt-place i rs _ hs (rw length-set_at lt)
      (inl (RestsAt-set_at i r.idx _ fs (fill_sent-Rests r h) at))
RestsAt-place i (r ∷ rs) fs (h, hs) lt (inr a) = elim (Bool-cases (r.idx == i)) [
  | inl e ↦ RestsAt-place i rs _ hs (rw length-set_at lt) (
      inl (
        subst (λ (k : ℕ). RestsAt i (set_at k (fill_sent r.answer) fs)) (sym ((==_iff r.idx i).0 e))
          (RestsAt-set_same i _ fs lt (fill_sent-Rests r h))))
  | inr e ↦ RestsAt-place i rs _ hs (rw length-set_at lt) (inr (rw e at a))
]

All-RestsAt : (fs : List Fill) → ((i : ℕ) → i < length fs → RestsAt i fs) → All Rests fs
All-RestsAt [] h = tt
All-RestsAt (f ∷ fs) h = (
  (let (g, (e, r)) = h 0 (omega arith) in subst Rests (some-injective (sym e)) r),
  All-RestsAt fs (λ i lt. h (suc i) (omega arith)),
)

Rests-Answers : (f : Fill) (e : GoldenFill) → Rests f → Expects e → Answers f e
unfolding Answers
Rests-Answers f e (a, (b, c)) (x, (y, z)) = (cc, (cc, cc))

compare_sorted-Rests :
    (T : TextOps) (sc : Scenario) (fs : List Fill) (os : List Order) (es : List GoldenFill)
    → length fs ≡ length os
    → length os ≡ length es
    → All Rests fs
    → All Expects es
    → compare_sorted T sc fs os es ≡ pass sc
unfolding compare_sorted
compare_sorted-Rests T sc [] os es a b h k = refl
compare_sorted-Rests T sc (f ∷ fs) [] es a b h k = absurd (omega arith)
compare_sorted-Rests T sc (f ∷ fs) (o ∷ os) [] a b h k = absurd (omega arith)
compare_sorted-Rests T sc (f ∷ fs) (o ∷ os) (e ∷ es) a b (h, hs) (k, ks) =
    rw (compare_fills_match T o f e sc.book_context (Rests-Answers f e h k))
      (compare_sorted-Rests T sc fs os es (omega arith) (omega arith) hs ks)

length-zero_fills : (os : List Order) → length (zero_fills os) ≡ length os
length-zero_fills [] = refl
length-zero_fills (o ∷ os) = ap suc (length-zero_fills os)

-- If every order has a result, every result is a fill that rests, and such fills are expected, then
-- the burst passes.
pub judge_burst-pass :
    (T : TextOps) (sc : Scenario) (rs : List ConcurrentResult)
    → All RestsSent rs
    → ((j : ℕ) → j < length sc.orders → arrived j rs ≡ true)
    → length sc.orders ≡ length sc.expected
    → All Expects sc.expected
    → judge_burst T sc rs ≡ pass sc
unfolding judge_burst
judge_burst-pass T sc rs h a n k =
    rw
      (
        no_timeouts 0 sc.orders rs h (λ j lt. arrived-at rs (omega arith) (a j lt)),
        no_failures T sc rs h,
      )
      (compare_sorted-Rests T sc _ sc.orders sc.expected placed n
        (All-RestsAt _ λ i lt.
          RestsAt-place i rs _ h (omega (arith, length-place rs (zero_fills sc.orders)))
            (inr (a i (omega (arith, placed)))))
        k)
  where
    placed : length (place rs (zero_fills sc.orders)) ≡ length sc.orders
    placed = length-place rs (zero_fills sc.orders) ∙ length-zero_fills sc.orders
