-- ===== src/Executor/Gate.antt =====
-- The pre-flight gate of internal/worker/executor.go: `runPreflightValidator`.
use nexus_bench.Base.{
  ℕ, String, true, false, not, Option, none, some, List, [], ◌∷◌, map, length, pos, str_eq,
  if◌then◌else◌, keep_if,
}
use nexus_bench.Base.Float.{FloatOps}
use nexus_bench.Base.Text.{TextOps, text, number, texts}
use nexus_bench.Models.{DryRunResult, DryRunScenarioResult, Submission, failed}
use nexus_bench.Queue.{Job}
use nexus_bench.Executor.{
  Outcome, State, Validation, completed, did_not_complete, done, fails, reread, set_status,
  update_submission,
}

module _ (F : FloatOps) (T : TextOps) where
  open T use {sprintf}

  -- `writeDryRunResult`: the store and the caller's copy
  abbrev write_dry_run_result : ℕ → State F → Submission F → DryRunResult → State F × Submission F
  write_dry_run_result now s sub dry_run =
      let fresh = record (reread F s sub.id sub) { dry_run_result = some dry_run } in
      (update_submission F now fresh s, fresh)

  failed_names : List DryRunScenarioResult → List String
  failed_names scenarios = map (λ sc. sc.name) (keep_if (λ sc. not sc.passed) scenarios)

  -- A validator that fails, or does not complete: the dry run is written, the submission marked.
  abbrev refuse_dry_run :
      ℕ → State F → Submission F → DryRunResult → String → String → State F × Outcome (Submission F)
  refuse_dry_run now s sub dry_run msg error =
      let (s', fresh) = write_dry_run_result now s sub dry_run in
      (set_status F now fresh failed msg s', fails error)

  -- the validator's verdict; the copy of the submission that goes on
  unfoldable pub judge_validation :
      ℕ → State F → Submission F → Validation → State F × Outcome (Submission F)
  unfolding failed_names
  judge_validation now s sub (did_not_complete err) =
      refuse_dry_run now s sub
        (record {
          all_passed = false;
          scenarios = [];
          ran_at = now;
          fail_summary = sprintf "validator did not complete: %v" (text err ∷ []);
        })
        (sprintf "pre-flight validator did not complete: %s" (text err ∷ []))
        (sprintf "executor: pre-flight validator: %w" (text err ∷ []))
  judge_validation now s sub (completed all_passed scenarios tested_at) =
      let names = failed_names scenarios in
      let summary =
        sprintf "%d/%d scenarios failed: [%s]"
          (number (pos (length names)) ∷ number (pos (length scenarios)) ∷ texts names ∷ []) in
      let passed_run : DryRunResult = record {
        all_passed = true;
        scenarios = scenarios;
        ran_at = tested_at;
        fail_summary = "";
      } in
      let (s', fresh) = write_dry_run_result now s sub passed_run in
      if all_passed
      then (s', done fresh)
      else refuse_dry_run now s sub
          (record {
            all_passed = false;
            scenarios = scenarios;
            ran_at = tested_at;
            fail_summary = summary;
          })
          (sprintf "pre-flight validation failed — %s" (text summary ∷ []))
          (sprintf "executor: pre-flight validation failed: %s" (text summary ∷ []))

  -- The gate is skipped without a validator, and for every label but "low".
  abbrev pub run_preflight_validator :
      ℕ → Option Validation → State F → Submission F → Job → State F × Outcome (Submission F)
  run_preflight_validator now none s sub j = (s, done sub)
  run_preflight_validator now (some v) s sub j =
      if str_eq j.volatility_label "low" then judge_validation now s sub v else (s, done sub)
