-- ===== src/Executor/Execute.antt =====
-- `Execute` of internal/worker/executor.go: the phases of one benchmark job.
use nexus_bench.Base.{
  ℕ, ◌*◌, String, ◌&&◌, not, Option, none, some, List, [], ◌∷◌, ◌++◌, ℤ, pos, is_positive, str_eq,
  if◌then◌else◌,
}
use nexus_bench.Base.Float.{FloatOps}
use nexus_bench.Base.Text.{TextOps, text, number}
use nexus_bench.Models.{
  BenchmarkResults, Contest, Submission, VolatilityProfile, benchmarking, failed, profile_by_label,
}
use nexus_bench.Contest.Defaults.{
  default_low_profile, default_medium_profile, default_high_profile, second,
}
use nexus_bench.Fleet.{FleetConfig, default_fleet_config, config_valid}
use nexus_bench.Queue.{Job, new_profile_job}
use nexus_bench.Stats.{compute_stats}
use nexus_bench.Executor.{
  Answers, FleetRun, Outcome, State, done, fails, get_submission, no_queue, refused, reread,
  set_status, taken, update_submission,
}
use nexus_bench.Executor.Gate.{run_preflight_validator}
use nexus_bench.Executor.Replay.{check_correctness}
use nexus_bench.Executor.Scores.{build_results, final_score}

module _ (F : FloatOps) (T : TextOps) (of_ℤ : ℤ → F.Float) where
  open F use {of_ℕ}
  open T use {sprintf, prefix}

  pub target_url_for_protocol : String → String → ℤ → String
  target_url_for_protocol protocol host port =
      if str_eq protocol "websocket"
      then sprintf "ws://%s:%d/orders" (text host ∷ number port ∷ [])
      else sprintf "http://%s:%d" (text host ∷ number port ∷ [])

  -- the zero value, for a label without defaults
  abbrev no_profile : VolatilityProfile F
  no_profile = record {
    label = "";
    bot_count = pos 0;
    test_duration = pos 0;
    market_data_path = "";
    limit_ratio = of_ℕ 0;
    market_ratio = of_ℕ 0;
    cancel_ratio = of_ℕ 0;
    price_spread_cents = pos 0;
    max_quantity = pos 0;
    target_p99_ns = pos 0;
    target_sustain_tps = of_ℕ 0;
    latency_weight = of_ℕ 0;
    throughput_weight = of_ℕ 0;
    correctness_weight = of_ℕ 0;
  }

  default_profile : String → VolatilityProfile F
  default_profile label =
      if str_eq label "low"
      then default_low_profile F
      else if str_eq label "medium"
      then default_medium_profile F
      else if str_eq label "high"
      then default_high_profile F
      else no_profile

  -- the active contest's profile for the label comes before the default
  unfoldable pub choose_profile : Option (Contest F) → String → VolatilityProfile F
  unfolding default_profile
  choose_profile none label = default_profile label
  choose_profile (some c) label =
      if str_eq label ""
      then default_profile label
      else elim (profile_by_label F c label) [ none ↦ default_profile label | some p ↦ p ]

  build_fleet_config_from_profile : String → VolatilityProfile F → FleetConfig F
  build_fleet_config_from_profile target_url p = record {
    bot_count = p.bot_count;
    ramp_up_duration = pos (5 * second);
    test_duration = p.test_duration;
    target_url = target_url;
    protocol = "";
    per_bot_http_timeout = pos (2 * second);
    generator_config = record {
      ratios = record { limit = p.limit_ratio; market = p.market_ratio; cancel = p.cancel_ratio };
      price = record { mid_price = pos 10_000; spread = p.price_spread_cents };
      quantity = record { min = pos 1; max = p.max_quantity };
      seed = pos 0;
    };
  }

  build_fleet_config : Option (FleetConfig F) → String → FleetConfig F
  build_fleet_config none target_url = default_fleet_config F target_url
  build_fleet_config (some cfg) target_url = record cfg { target_url = target_url }

  -- `runFleet` up to the run itself: `NewFleet` refuses an invalid configuration, with a text that is
  -- not modelled
  run_fleet : Answers F → Job → String → String → VolatilityProfile F → Outcome FleetRun
  run_fleet a j target_url protocol profile =
      let cfg =
        if not (str_eq j.volatility_label "") && is_positive profile.bot_count
        then build_fleet_config_from_profile target_url profile
        else build_fleet_config a.fleet_override target_url in
      let cfg' = record cfg { protocol = protocol } in
      if config_valid F cfg' then a.run_fleet cfg' else fails "construct fleet"

  -- `appendProfileResult`
  unfoldable pub append_profile_result :
      ℕ → State F → Submission F → BenchmarkResults F → State F × Submission F
  append_profile_result now s sub results =
      let old = reread F s sub.id sub in
      let fresh = record old { all_results = old.all_results ++ results ∷ [] } in
      (update_submission F now fresh s, fresh)

  -- `enqueueNextProfile`
  unfoldable pub enqueue_next_profile :
      Answers F → State F → Submission F → Job → String → List String → State F × Outcome (Unit {0})
  enqueue_next_profile a s sub j next_label remaining =
      let next_job = new_profile_job F a.now sub j.contest_id next_label remaining in
      elim a.enqueue [
        | no_queue ↦ (
          set_status F a.now sub failed
              (sprintf "cannot enqueue next profile %q: worker has no job queue"
                (text next_label ∷ []))
              s,
          fails
              (sprintf "executor: no job queue to enqueue next profile %q" (text next_label ∷ [])),
        )
        | refused err ↦ (
          set_status F a.now sub failed
              (sprintf "failed to enqueue next profile %q: %v" (text next_label ∷ text err ∷ [])) s,
          fails (sprintf "executor: enqueue next profile %q: %w" (text next_label ∷ text err ∷ [])),
        )
        | taken ↦ (record s { jobs = s.jobs ++ next_job ∷ [] }, done tt)
      ]

  -- `computeAndWriteFinalScore`
  unfoldable pub compute_and_write_final_score : Answers F → State F → Submission F → State F
  compute_and_write_final_score a s sub = elim (get_submission F sub.id s) [
    | none ↦ s
    | some fresh ↦
        update_submission F a.now
          (record fresh { final_score = final_score F T of_ℤ a.active fresh }) s
  ]

  abbrev pub then_done :
      State F × Outcome (Unit {0}) → BenchmarkResults F → State F × Outcome (BenchmarkResults F)
  then_done (s, done u) results = (s, done results)
  then_done (s, fails err) results = (s, fails err)

  -- steps 8 and 9
  abbrev pub persist_results :
      Answers F
      → State F
      → Submission F
      → Job
      → BenchmarkResults F
      → State F × Outcome (BenchmarkResults F)
  persist_results a s sub j results =
      let (s', sub') = append_profile_result a.now s sub results in
      if str_eq j.volatility_label "" then (s, done results) else elim j.remaining_profiles [
        | [] ↦ (compute_and_write_final_score a s' sub', done results)
        | (next ∷ remaining) ↦ then_done (enqueue_next_profile a s' sub' j next remaining) results
      ]

  abbrev pub fleet_finished :
      Answers F
      → State F
      → Submission F
      → Job
      → VolatilityProfile F
      → Outcome FleetRun
      → State F × Outcome (BenchmarkResults F)
  fleet_finished a s sub j profile (fails err) =
      (s, fails (sprintf "executor: bot fleet: %w" (text err ∷ [])))
  fleet_finished a s sub j profile (done run) = persist_results a s sub j (
      build_results F T of_ℤ (compute_stats F run.results) (check_correctness F run.results)
        run.started_at run.finished_at profile j.volatility_label)

  -- steps 5 to 9, behind the gate
  unfoldable pub benchmark :
      Answers F
      → String
      → Job
      → State F × Outcome (Submission F)
      → State F × Outcome (BenchmarkResults F)
  unfolding run_fleet build_fleet_config_from_profile build_fleet_config
  benchmark a target_url j (s, fails err) = (s, fails err)
  benchmark a target_url j (s, done sub) =
      let sub' : Submission F = record sub {
        status = benchmarking;
        status_msg = "bot fleet running";
      } in
      let profile = choose_profile a.active j.volatility_label in
      fleet_finished a (update_submission F a.now sub' s) sub' j profile
        (run_fleet a j target_url sub'.protocol profile)

  abbrev pub with_container : Submission F → String → ℤ → Submission F
  with_container sub container_id host_port = record sub {
    container_id = container_id;
    exposed_port = host_port;
    container_name = sprintf "nexusbench-%s" (text (prefix 8 sub.id) ∷ []);
  }

  -- steps 3 to 9, on a container that was started
  unfoldable pub on_container :
      Answers F → State F → Submission F → Job → ℤ → State F × Outcome (BenchmarkResults F)
  unfolding target_url_for_protocol
  on_container a s sub j host_port =
      let s' = update_submission F a.now sub s in
      elim a.wait_healthy [
        | some err ↦ (s', fails (sprintf "executor: sandbox not healthy: %w" (text err ∷ [])))
        | none ↦
            benchmark a (target_url_for_protocol sub.protocol a.sandbox_host host_port) j
              (run_preflight_validator F T a.now a.validation s' sub j)
      ]

  unfoldable pub execute : Answers F → State F → Job → State F × Outcome (BenchmarkResults F)
  execute a s j = elim (get_submission F j.submission_id s) [
    | none ↦ (s, fails (sprintf "executor: load submission %s" (text j.submission_id ∷ [])))
    | some sub ↦ elim a.deploy [
      | fails err ↦ (
        s,
        fails
            (sprintf "executor: deploy sandbox for %s: %w" (text j.submission_id ∷ text err ∷ [])),
      )
      | done (container_id, host_port) ↦
          on_container a s (with_container sub container_id host_port) j host_port
    ]
  ]
