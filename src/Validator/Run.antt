-- ===== src/Validator/Run.antt =====
-- `Run`, `runScenario` and `runConcurrentScenario` of internal/validator/validator.go against an
-- engine. The transport and the context are given: `send` is `transport.Send`, `ctx_err` is `ctx.Err()`
-- at that moment, and `turns` is the order in which the sends of the goroutines of a burst take effect
-- and their results arrive on the channel. A Go slice access out of range is the outcome `panicked`.
pub mod Verdict
pub mod Burst
pub mod Golden
pub mod Pass
use nexus_bench.Base.{
  ℕ, zero, suc, ◌-◌, String, Bool, true, false, ◌&&◌, ◌||◌, Option, none, some, List, [], ◌∷◌, ◌++◌,
  length, pos, ltb, ◌==◌, str_eq, if◌then◌else◌, get_elem?,
}
use nexus_bench.Base.Strings.{contains}
use nexus_bench.Base.Text.{TextOps, text, number, texts}
use nexus_bench.Orderbook.{GoldenFill}
use nexus_bench.Fleet.{Order, Fill}
use nexus_bench.Validator.Scenarios.{Scenario, fixed_scenarios}
use nexus_bench.Validator.Compare.{compare_fills, describe_order}

pub data Sent : Type 0 where
  sent : Fill → Sent
  send_error : String → Sent

pub record Engine : Type 1 where
  pub State : Type 0
  pub send : State → Order → State × Sent
  pub ctx_err : State → Option String
  pub turns : State → ℕ → List ℕ

pub record ScenarioResult : Type 0 where
  pub name : String
  pub passed : Bool
  pub reason : String

-- `aborted` is an error that `Run` returns
pub data Outcome : Type 0 where
  finished : ScenarioResult → Outcome
  aborted : String → Outcome
  panicked : Outcome

pub record ConcurrentResult : Type 0 where
  pub idx : ℕ
  pub answer : Sent

pub record ValidationResult : Type 0 where
  pub submission_id : String
  pub scenarios : List ScenarioResult
  pub all_passed : Bool
  pub tested_at : ℕ

pub data RunAnswer : Type 0 where
  complete : ValidationResult → RunAnswer
  incomplete : ValidationResult → String → RunAnswer
  crashed : RunAnswer

abbrev pub pass : Scenario → Outcome
pass sc = finished (record { name = sc.name; passed = true; reason = "" })

abbrev pub fail : Scenario → String → Outcome
fail sc reason = finished (record { name = sc.name; passed = false; reason = reason })

-- what `make([]concurrentResult, n)` holds
abbrev pub zero_fill : Fill
zero_fill = record { order_id = ""; executed_price = pos 0; executed_qty = pos 0; accepted = false }

abbrev pub fill_sent : Sent → Fill
fill_sent (sent f) = f
fill_sent (send_error e) = zero_fill

-- `err != nil` with a text that tells a timeout
abbrev pub timed_out : Sent → Bool
timed_out (sent f) = false
timed_out (send_error e) = contains e "deadline" || contains e "context canceled"

-- The first result of a goroutine, in order of arrival.
unfoldable pub result_of : ℕ → List ConcurrentResult → Option Sent
result_of i [] = none
result_of i (r ∷ rs) = if r.idx == i then some r.answer else result_of i rs

-- The loop that fills `timedOutIDs`; `i` is the index of the first order.
unfoldable pub timed_out_ids : ℕ → List Order → List ConcurrentResult → List String
timed_out_ids i [] collected = []
timed_out_ids i (o ∷ os) collected =
    let rest = timed_out_ids (suc i) os collected in
    elim (result_of i collected) [
      | none ↦ o.id ∷ rest
      | some a ↦ if timed_out a then o.id ∷ rest else rest
    ]

unfoldable pub set_at {ℓ} : {A : Type ℓ} → ℕ → A → List A → List A
set_at i a [] = []
set_at zero a (x ∷ xs) = a ∷ xs
set_at (suc i) a (x ∷ xs) = x ∷ set_at i a xs

-- the loop that fills `sorted`
unfoldable pub place : List ConcurrentResult → List Fill → List Fill
place [] fills = fills
place (r ∷ rs) fills = place rs (set_at r.idx (fill_sent r.answer) fills)

abbrev pub zero_fills : List Order → List Fill
zero_fills [] = []
zero_fills (o ∷ os) = zero_fill ∷ zero_fills os

module _ (T : TextOps) where
  open T use {sprintf}

  abbrev transport_reason : Order → String → String
  transport_reason o e = sprintf "order %q: transport error: %v" (text o.id ∷ text e ∷ [])

  abbrev burst_transport_reason : Scenario → Order → String → String
  burst_transport_reason sc o e =
      sprintf "concurrent burst of %d orders: order %q %s: transport error: %v"
        (number (pos (length sc.orders)) ∷ text o.id ∷ text (describe_order T o) ∷ text e ∷ [])

  abbrev timeout_reason : Scenario → List String → String
  timeout_reason sc ids =
      let n = length sc.orders in
      sprintf
        "concurrent burst of %d orders: only %d/%d responses arrived within %s deadline.\nMissing or timed-out order IDs: [%s].\nThis indicates your engine may be deadlocking or dropping connections under concurrent load. Check for: global mutexes held during I/O, unbounded work queues, goroutine leaks, or per-request goroutine exhaustion."
        (number (pos n)
          ∷ number (pos (n - length ids))
          ∷ number (pos n)
          ∷ text (T.format_duration sc.concurrent_deadline)
          ∷ texts ids
          ∷ [])

  abbrev burst_reason : Scenario → String → String
  burst_reason sc reason =
      sprintf
        "concurrent burst of %d orders: %s\nEngine may be rejecting or mishandling orders under concurrent load (possible race condition in order validation or book state management)."
        (number (pos (length sc.orders)) ∷ text reason ∷ [])

  -- the loop over `sorted`
  unfoldable pub compare_sorted : Scenario → List Fill → List Order → List GoldenFill → Outcome
  compare_sorted sc [] os es = pass sc
  compare_sorted sc (f ∷ fs) [] es = panicked
  compare_sorted sc (f ∷ fs) (o ∷ os) [] = panicked
  compare_sorted sc (f ∷ fs) (o ∷ os) (e ∷ es) =
      let reason = compare_fills T o f e sc.book_context in
      let rest = compare_sorted sc fs os es in
      if str_eq reason "" then rest else fail sc (burst_reason sc reason)

  -- the first error that is no timeout
  unfoldable pub transport_failure : Scenario → List ConcurrentResult → Option Outcome
  transport_failure sc [] = none
  transport_failure sc (r ∷ rs) = elim r.answer [
    | sent f ↦ transport_failure sc rs
    | send_error e ↦ elim (get_elem? sc.orders r.idx) [
      | none ↦ some panicked
      | some o ↦ some (fail sc (burst_transport_reason sc o e))
    ]
  ]

  -- What `runConcurrentScenario` makes of the collected results.
  unfoldable pub judge_burst : Scenario → List ConcurrentResult → Outcome
  judge_burst sc collected =
      let ids = timed_out_ids 0 sc.orders collected in
      if ltb 0 (length ids)
      then fail sc (timeout_reason sc ids)
      else elim (transport_failure sc collected) [
        | some failure ↦ failure
        | none ↦ compare_sorted sc (place collected (zero_fills sc.orders)) sc.orders sc.expected
      ]

  module _ (E : Engine) where
    open E use {State, send, ctx_err}

    -- `err != nil` in `runScenario`
    abbrev after_error : Scenario → State → Order → String → State × Outcome
    after_error sc s o e = elim (ctx_err s) [
      | some c ↦ (s, aborted c)
      | none ↦ (s, fail sc (transport_reason o e))
    ]

    -- the loop of `runScenario`
    unfoldable pub send_all : Scenario → State → List Order → List GoldenFill → State × Outcome
    send_all sc s [] es = (s, pass sc)
    send_all sc s (o ∷ os) es = elim (ctx_err s) [
      | some c ↦ (s, aborted c)
      | none ↦ elim (send s o).1 [
        | send_error e ↦ after_error sc (send s o).0 o e
        | sent f ↦ elim es [
          | [] ↦ ((send s o).0, panicked)
          | e ∷ rest ↦
              if str_eq (compare_fills T o f e sc.book_context) ""
              then send_all sc (send s o).0 os rest
              else ((send s o).0, fail sc (compare_fills T o f e sc.book_context))
        ]
      ]
    ]

    -- the goroutines, in their turns
    unfoldable pub send_turns : State → List Order → List ℕ → State × List ConcurrentResult
    send_turns s os [] = (s, [])
    send_turns s os (i ∷ is) = elim (get_elem? os i) [
      | none ↦ send_turns s os is
      | some o ↦
          let (s', rs) = send_turns (send s o).0 os is in
          (s', record { idx = i; answer = (send s o).1 } ∷ rs)
    ]

    unfoldable pub run_concurrent_scenario : Scenario → State → State × Outcome
    run_concurrent_scenario sc s = elim (ctx_err s) [
      | some c ↦ (s, aborted c)
      | none ↦
          let (s', collected) = send_turns s sc.orders (E.turns s (length sc.orders)) in
          (s', judge_burst sc collected)
    ]

    unfoldable pub run_scenario : Scenario → State → State × Outcome
    run_scenario sc s =
        if sc.is_concurrent
        then run_concurrent_scenario sc s
        else send_all sc s sc.orders sc.expected

    -- the loop of `Run`; `result` has what the earlier scenarios left in it
    unfoldable pub run_all : ValidationResult → State → List Scenario → State × RunAnswer
    run_all result s [] = (s, complete result)
    run_all result s (sc ∷ scs) = elim (run_scenario sc s).1 [
      | panicked ↦ ((run_scenario sc s).0, crashed)
      | aborted e ↦ (
        (run_scenario sc s).0,
        incomplete (record result { all_passed = false })
            (sprintf "validator: scenario %q: %w" (text sc.name ∷ text e ∷ [])),
      )
      | finished sr ↦
          run_all
            (record result {
              scenarios = result.scenarios ++ sr ∷ [];
              all_passed = result.all_passed && sr.passed;
            })
            (run_scenario sc s).0 scs
    ]

    unfoldable pub run : String → ℕ → State → State × RunAnswer
    run submission_id now s =
        run_all
          (record {
            submission_id = submission_id;
            scenarios = [];
            all_passed = true;
            tested_at = now;
          })
          s fixed_scenarios
