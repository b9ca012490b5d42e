-- ===== src/Validator/Run/Verdict.antt =====
-- What a sequential scenario's verdict says of the engine.
use nexus_bench.Base.{
  String, ◌⊎◌, false, none, List, [], ◌∷◌, ◌≡◌, ◌≢◌, ◌↔◌, refl, inl, inr, arith, Bool-cases,
  Option-cases, str_eq, eq_iff,
}
use nexus_bench.Base.Text.{TextOps}
use nexus_bench.Orderbook.{GoldenFill}
use nexus_bench.Fleet.{Order, Fill}
use nexus_bench.Validator.Scenarios.{Scenario}
use nexus_bench.Validator.Compare.{compare_fills}
use nexus_bench.Validator.Compare.Matching.{
  Answers, KeepsText, compare_fills_match, compare_fills_mismatch,
}
use nexus_bench.Validator.Run.{
  Engine, Sent, sent, send_error, pass, fail, after_error, send_all, run_scenario,
}

Sent-cases : (a : Sent) → ((f : Fill) × (a ≡ sent f)) ⊎ ((e : String) × (a ≡ send_error e))
Sent-cases (sent f) = inl (f, refl)
Sent-cases (send_error e) = inr (e, refl)

module _ (T : TextOps) (E : Engine) where
  open E use {State, send, ctx_err}

  -- The engine answers the orders in turn with the expected values, and the context stays open.
  unfoldable pub AnswersAll : State → List Order → List GoldenFill → Type 0
  AnswersAll s [] es = Unit
  AnswersAll s (o ∷ os) [] = ⊥
  AnswersAll s (o ∷ os) (e ∷ es) =
      (ctx_err s ≡ none)
      × ((f : Fill) × (((send s o).1 ≡ sent f) × (Answers f e × AnswersAll (send s o).0 os es)))

  pub AnswersAll-passes :
      (sc : Scenario) (s : State) (os : List Order) (es : List GoldenFill)
      → AnswersAll s os es
      → (send_all T E sc s os es).1 ≡ pass sc
  unfolding send_all AnswersAll
  AnswersAll-passes sc s [] es h = refl
  AnswersAll-passes sc s (o ∷ os) [] h = absurd h
  AnswersAll-passes sc s (o ∷ os) (e ∷ es) (c, (f, (a, (m, rest)))) =
      rw (send_all, c, a, compare_fills_match T o f e sc.book_context m)
        (AnswersAll-passes sc (send s o).0 os es rest)

  fail-pass : (sc : Scenario) (reason : String) → fail sc reason ≢ pass sc
  fail-pass sc reason h = ground arith

  after_error-pass :
      (sc : Scenario) (s : State) (o : Order) (m : String) → (after_error T E sc s o m).1 ≢ pass sc
  after_error-pass sc s o m = elim (Option-cases (ctx_err s)) [
    | inl e ↦ rw (after_error, e) (fail-pass sc _)
    | inr (c, e) ↦ rw (after_error, e) (λ h. absurd cc)
  ]

  send_all-AnswersAll :
      (sc : Scenario) (s : State) (os : List Order) (es : List GoldenFill)
      → KeepsText T
      → (send_all T E sc s os es).1 ≡ pass sc
      → AnswersAll s os es
  unfolding send_all AnswersAll
  send_all-AnswersAll sc s [] es texts h = tt
  send_all-AnswersAll sc s (o ∷ os) [] texts h = elim (Option-cases (ctx_err s)) [
    | inr (c, e) ↦ absurd (cc (rw (send_all, e) at h))
    | inl e ↦ elim (Sent-cases (send s o).1) [
      | inr (m, f) ↦ absurd (after_error-pass sc (send s o).0 o m (rw (send_all, e, f) at h))
      | inl (f, a) ↦ absurd (cc (rw (send_all, e, a) at h))
    ]
  ]
  send_all-AnswersAll sc s (o ∷ os) (x ∷ es) texts h = elim (Option-cases (ctx_err s)) [
    | inr (c, e) ↦ absurd (cc (rw (send_all, e) at h))
    | inl e ↦ elim (Sent-cases (send s o).1) [
      | inr (m, f) ↦ absurd (after_error-pass sc (send s o).0 o m (rw (send_all, e, f) at h))
      | inl (f, a) ↦ elim (Bool-cases (str_eq (compare_fills T o f x sc.book_context) "")) [
        | inr m ↦ absurd (cc (rw (send_all, e, a, m) at h))
        | inl m ↦ (
          e,
          (
            f,
            (
              a,
              (
                compare_fills_mismatch T o f x sc.book_context texts ((eq_iff _ _).0 m),
                send_all-AnswersAll sc (send s o).0 os es texts (rw (send_all, e, a, m) at h),
              ),
            ),
          ),
        )
      ]
    ]
  ]

  -- If `fmt.Sprintf` keeps the text of the three mismatch formats, then a scenario that is not
  -- concurrent passes exactly when the engine answers each of its orders in turn, with no error and
  -- before the context ends, with a fill whose accepted flag, price and quantity are the expected.
  pub run_scenario_lem :
      (sc : Scenario) (s : State)
      → KeepsText T
      → sc.is_concurrent ≡ false
      → ((run_scenario T E sc s).1 ≡ pass sc) ↔ AnswersAll s sc.orders sc.expected
  unfolding run_scenario
  run_scenario_lem sc s texts h =
      simp (run_scenario, h)
        (
          send_all-AnswersAll sc s sc.orders sc.expected texts,
          AnswersAll-passes sc s sc.orders sc.expected,
        )
