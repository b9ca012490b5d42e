-- ===== src/Examples/Jobs.antt =====
-- The queue, the worker and the executor at concrete jobs.
use nexus_bench.Base.{
  ℕ, ◌≡◌, ◌≢◌, refl, String, true, false, none, some, List, [], ◌∷◌, arith, pos, pos_part, eq_iff,
}
use nexus_bench.Base.Dict.{get, put}
use nexus_bench.Base.Text.{TextOps}
use nexus_bench.Models.{BenchmarkResults, Submission, pending, running, deploying}
use nexus_bench.Base.Sorting.{sort_stable}
use nexus_bench.Contest.Defaults.{default_low_profile}
use nexus_bench.Orderbook.{
  Side, OrderKind, new_golden_orderbook, apply, apply_limit, apply_cancel, match_loop, sort_sells,
  sort_buys,
}
use nexus_bench.Fleet.{OrderResult}
use nexus_bench.Queue.{Job}
use nexus_bench.Stats.{compute_stats}
use nexus_bench.Executor.{Answers, FleetRun, Outcome, State, done, taken, set_status}
use nexus_bench.Executor.Replay.{check_correctness, replay}
use nexus_bench.Executor.Perfect.{AllRight, check_correctness_lem}
use nexus_bench.Checker.Right.{first_fills, repeated_fills}
use nexus_bench.Executor.Scores.{build_results}
use nexus_bench.Executor.Execute.{
  append_profile_result, benchmark, choose_profile, enqueue_next_profile, execute, on_container,
}
use nexus_bench.Executor.Confined.{Holds, Within, execute-Within}
use nexus_bench.Executor.Success.{Queues}
use nexus_bench.Worker.{admits, begin_job, finish_job, process_job, started}
use nexus_bench.Worker.Guard.{redelivery_skips}
use nexus_bench.Worker.Results.{ProcessOutcome, process_job_outcome}
use nexus_bench.Worker.Handover.{finished_with, next_profile_race}
use nexus_bench.Examples.Floats.{thousandths}

-- A formatting that keeps the format, and no more.
abbrev plain : TextOps
plain = record { sprintf = λ format args. format; prefix = λ n s. s; format_duration = λ n. "" }

abbrev a_submission : Submission thousandths
a_submission = record {
  id = "s";
  team_name = "team";
  language = "go";
  protocol = "rest";
  status = pending;
  status_msg = "";
  contest_id = "c";
  archive_path = "/data/s";
  archive_size = pos 10;
  container_id = "";
  container_name = "";
  exposed_port = pos 0;
  created_at = 1;
  updated_at = 1;
  completed_at = none;
  results = none;
  all_results = [];
  final_score = 0;
  dry_run_result = none;
}

abbrev low_job : Job
low_job = record {
  id = "s/low";
  submission_id = "s";
  team_name = "team";
  language = "go";
  protocol = "rest";
  archive_path = "/data/s";
  enqueued_at = 1;
  contest_id = "c";
  volatility_label = "low";
  remaining_profiles = "medium" ∷ "high" ∷ [];
}

abbrev no_results : FleetRun
no_results = record { results = []; started_at = 5; finished_at = 6 }

abbrev good_answers : Answers thousandths
good_answers = record {
  now = 7;
  deploy = done ("container-1", pos 8080);
  wait_healthy = none;
  validation = none;
  fleet_override = none;
  run_fleet = λ cfg. done no_results;
  enqueue = taken;
  active = none;
  sandbox_host = "localhost";
}

abbrev start : State thousandths
start = record { submissions = ("s", a_submission) ∷ []; jobs = [] }

start-Holds : Holds thousandths "s" start
unfolding get
start-Holds = (a_submission, refl, refl)

found_s : get "s" start.submissions ≡ some a_submission
unfolding get
found_s = refl

process_job_outcome_example :
    ProcessOutcome thousandths plain pos_part good_answers start low_job a_submission
process_job_outcome_example =
    process_job_outcome thousandths plain pos_part good_answers start low_job a_submission found_s
      refl

execute-Within_example :
    Within thousandths "s" start (execute thousandths plain pos_part good_answers start low_job).0
execute-Within_example =
    execute-Within thousandths plain pos_part "s" good_answers start low_job refl start-Holds

abbrev picked_up : Submission thousandths
picked_up = record a_submission { status = deploying; status_msg = "worker picked up job" }

abbrev after_pick : State thousandths
after_pick = set_status thousandths 7 a_submission deploying "worker picked up job" start

begun : begin_job thousandths plain pos_part 7 start low_job ≡ started after_pick picked_up
unfolding begin_job admits get
begun = refl

redelivery_skips_example :
    (process_job thousandths plain pos_part good_answers after_pick low_job
      ≡ record { state = after_pick; committed = true })
    × ((x : Submission thousandths) × (get "s" after_pick.submissions ≡ some x)
        × (x.status ≡ deploying))
    × (after_pick.jobs ≡ [])
redelivery_skips_example =
    redelivery_skips thousandths plain pos_part good_answers 7 start after_pick low_job picked_up
      start-Holds begun

abbrev ran : State thousandths × Outcome (BenchmarkResults thousandths)
ran = execute thousandths plain pos_part good_answers start low_job

abbrev low_results : BenchmarkResults thousandths
low_results =
    build_results thousandths plain pos_part (compute_stats thousandths [])
      (check_correctness thousandths []) 5 6 (choose_profile thousandths plain pos_part none "low")
      "low"

ran_well : ran ≡ (ran.0, done low_results)
unfolding execute on_container benchmark append_profile_result enqueue_next_profile get
    choose_profile default_low_profile
ran_well = refl

labels_differ : (◌≢◌ {A = String}) "low" "" × (◌≢◌ {A = String}) "medium" ""
labels_differ =
    ((λ e. ground (arith, (eq_iff "low" "").1 e)), (λ e. ground (arith, (eq_iff "medium" "").1 e)))

next_profile_race_example :
    (job : Job) × Queues thousandths plain pos_part low_job "medium" ("high" ∷ []) start ran.0 job
    × ((y : Submission thousandths) × (get job.submission_id
            (finish_job thousandths plain pos_part 7 picked_up low_job
              (ran.0, done low_results)).submissions
          ≡ some y)
        × (admits y.status job ≡ true))
    × (process_job thousandths plain pos_part good_answers ran.0 job
        ≡ record { state = ran.0; committed = true })
    × ((y : Submission thousandths) × (get "s"
            (finished_with thousandths plain pos_part 7 picked_up low_job ran.0 low_results
              []).submissions
          ≡ some y)
        × (y.status ≡ running))
    × ((finished_with thousandths plain pos_part 7 picked_up low_job ran.0 low_results []).jobs
        ≡ [])
next_profile_race_example =
    next_profile_race thousandths plain pos_part good_answers good_answers start ran.0 low_job
      picked_up low_results "medium" ("high" ∷ []) labels_differ.0 labels_differ.1 refl start-Holds
      ran_well

-- A limit order, and its cancellation under the same ID; both answers are the golden ones.
abbrev answer : OrderKind → ℕ → OrderResult
answer kind qty = record {
  order = record { id = "o"; kind = kind; side = Side.buy; price = pos qty; quantity = pos qty };
  fill = record { order_id = "o"; executed_price = pos 0; executed_qty = pos 0; accepted = true };
  sent_at = 1;
  acked_at = 2;
  latency_ns = 1;
  failed = false;
}

abbrev honest : List OrderResult
honest = answer OrderKind.limit 5 ∷ answer OrderKind.cancel 0 ∷ []

honest_right : AllRight new_golden_orderbook honest
unfolding apply apply_limit apply_cancel match_loop sort_sells sort_buys sort_stable
    new_golden_orderbook get put
honest_right = ((refl, refl), ((refl, refl), tt))

-- Both answers are right, and one counts as incorrect.
honest_counts : repeated_fills [] (replay new_golden_orderbook honest).golden ≡ 1
unfolding replay apply apply_limit apply_cancel match_loop sort_sells sort_buys sort_stable
    new_golden_orderbook get put
honest_counts = refl

check_correctness_lem_example :
    let golden = (replay new_golden_orderbook honest).golden in
    let counts = (check_correctness thousandths honest).counts in
    (counts.correct_fills ≡ first_fills [] golden)
    × (counts.incorrect_fills ≡ repeated_fills [] golden)
check_correctness_lem_example = check_correctness_lem thousandths honest honest_right
