-- ===== src/Worker.antt =====
-- internal/worker/worker.go: `processJob`, in the phases between which another worker may run: the
-- guard with the write of the status, the execution, and the write of the outcome. Whether the queue
-- offset is committed is part of the result; a failed commit is only logged.
pub mod Guard
pub mod Results
pub mod Handover
use nexus_bench.Base.{
  ℕ, ◌+◌, String, Bool, true, false, ◌&&◌, ◌||◌, not, Option, none, some, List, [], ◌∷◌, ℤ, str_eq,
  if◌then◌else◌,
}
use nexus_bench.Base.Float.{FloatOps}
use nexus_bench.Base.Text.{TextOps, text, texts}
use nexus_bench.Models.{
  BenchmarkResults, Submission, SubmissionStatus, is_terminal, pending, building, deploying,
  running, benchmarking, completed, failed,
}
use nexus_bench.Queue.{Job, is_last_profile}
use nexus_bench.Executor.{Answers, Outcome, State, done, fails, get_submission, reread, set_status}
use nexus_bench.Executor.Execute.{execute}

abbrev pub is_pending : SubmissionStatus → Bool
is_pending pending = true
is_pending building = false
is_pending deploying = false
is_pending running = false
is_pending benchmarking = false
is_pending completed = false
is_pending failed = false

abbrev pub is_running : SubmissionStatus → Bool
is_running running = true
is_running pending = false
is_running building = false
is_running deploying = false
is_running benchmarking = false
is_running completed = false
is_running failed = false

-- the idempotent guard: whether the job is executed
unfoldable pub admits : SubmissionStatus → Job → Bool
admits status j =
    if is_terminal status
    then false
    else if str_eq j.volatility_label "" && not (is_pending status)
    then false
    else if not (str_eq j.volatility_label "")
        && (not (is_pending status) && not (is_running status))
    then false
    else true

module _ (F : FloatOps) (T : TextOps) (of_ℤ : ℤ → F.Float) where
  open T use {sprintf}

  -- what the guard decides
  pub data Guarded : Type 0 where
    unreadable : Guarded
    skipped : Guarded
    started : State F → Submission F → Guarded

  -- the guard and the write of StatusDeploying
  unfoldable pub begin_job : ℕ → State F → Job → Guarded
  begin_job now s j = elim (get_submission F j.submission_id s) [
    | none ↦ unreadable
    | some sub ↦
        if admits sub.status j
        then started (set_status F now sub deploying "worker picked up job" s)
            (record sub { status = deploying; status_msg = "worker picked up job" })
        else skipped
  ]

  -- the success path on the submission that was read again
  unfoldable pub write_success : ℕ → State F → Submission F → Job → BenchmarkResults F → State F
  write_success now s sub j results =
      let with_results =
        if str_eq j.volatility_label "" then record sub { results = some results } else sub in
      if is_last_profile j
      then set_status F now (record with_results { completed_at = some now }) completed
          "benchmark complete" s
      else set_status F now sub running
          (sprintf "profile %q done, %v remaining"
            (text j.volatility_label ∷ texts j.remaining_profiles ∷ []))
          s

  -- the write of the outcome
  unfoldable pub finish_job :
      ℕ → Submission F → Job → State F × Outcome (BenchmarkResults F) → State F
  finish_job now sub j (s, fails err) =
      set_status F now (reread F s j.submission_id sub) failed
        (sprintf "execution error: %v" (text err ∷ [])) s
  finish_job now sub j (s, done results) =
      write_success now s (reread F s j.submission_id sub) j results

  pub record Processed : Type 0 where
    pub state : State F
    pub committed : Bool

  abbrev pub process_guarded : Answers F → State F → Job → Guarded → Processed
  process_guarded a s j unreadable = record { state = s; committed = false }
  process_guarded a s j skipped = record { state = s; committed = true }
  process_guarded a s j (started s' sub) = record {
    state = finish_job a.now sub j (execute F T of_ℤ a s' j);
    committed = true;
  }

  unfoldable pub process_job : Answers F → State F → Job → Processed
  process_job a s j = process_guarded a s j (begin_job a.now s j)
