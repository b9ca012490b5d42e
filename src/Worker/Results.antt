-- ===== src/Worker/Results.antt =====
-- What `processJob` of internal/worker/worker.go leaves behind.
use nexus_bench.Base.{
  ℕ, ◌≡◌, refl, String, true, false, some, ℤ, arith, str_eq, eq_iff, if◌then◌else◌, inl, inr,
  Bool-cases,
}
use nexus_bench.Base.Dict.{get}
use nexus_bench.Base.Float.{FloatOps}
use nexus_bench.Base.Text.{TextOps}
use nexus_bench.Models.{
  BenchmarkResults, Submission, SubmissionStatus, deploying, running, completed, failed,
}
use nexus_bench.Queue.{Job, is_last_profile}
use nexus_bench.Executor.{Answers, Outcome, State, done, fails, set_status}
use nexus_bench.Executor.Execute.{execute}
use nexus_bench.Executor.Confined.{
  Within, Within-trans, Within-set_status, execute-Within, reread-id, get-update_submission,
}
use nexus_bench.Worker.{admits, begin_job, process_job, finish_job, write_success}
use nexus_bench.Worker.Guard.{taken_up, process_job-skips}

module _ (F : FloatOps) (T : TextOps) (of_ℤ : ℤ → F.Float) where
  -- The submission of a job stands at a status.
  abbrev pub Stands : String → SubmissionStatus → State F → Type 0
  Stands k status s = (x : Submission F) × (get k s.submissions ≡ some x) × (x.status ≡ status)

  set_status-Stands :
      (k : String) (now : ℕ) (sub : Submission F) (status : SubmissionStatus) (msg : String)
      (s : State F)
      → sub.id ≡ k
      → Stands k status (set_status F now sub status msg s)
  unfolding set_status
  set_status-Stands k now sub status msg s e =
      let written : Submission F = record sub { status = status; status_msg = msg } in
      (
        record written { updated_at = now },
        ground (arith, e, eq_iff sub.id k, get-update_submission F now written s k),
        refl,
      )

  -- What a status that was set says of the state before and after.
  abbrev pub Ends : String → SubmissionStatus → State F → State F → Type 0
  Ends k status s t = Within F k s t × Stands k status t

  set_status-Ends :
      (k : String) (now : ℕ) (sub : Submission F) (status : SubmissionStatus) (msg : String)
      (s t : State F)
      → sub.id ≡ k
      → Within F k s t
      → Ends k status s (set_status F now sub status msg t)
  set_status-Ends k now sub status msg s t e w = (
    Within-trans F k s t _ w (Within-set_status F k now sub status msg t e),
    set_status-Stands k now sub status msg t e,
  )

  -- the status that a finished job leaves
  abbrev pub status_after : Job → Outcome (BenchmarkResults F) → SubmissionStatus
  status_after j (fails err) = failed
  status_after j (done results) = if is_last_profile j then completed else running

  write_success-Ends :
      (k : String) (now : ℕ) (s t : State F) (sub : Submission F) (j : Job)
      (results : BenchmarkResults F)
      → sub.id ≡ k
      → Within F k s t
      → Ends k (status_after j (done results)) s (write_success F T of_ℤ now t sub j results)
  unfolding write_success
  write_success-Ends k now s t sub j results e w = elim (Bool-cases (is_last_profile j)) [
    | inl a ↦ elim (Bool-cases (str_eq j.volatility_label "")) [
      | inl b ↦ rw (a, b) (set_status-Ends k now _ completed _ s t e w)
      | inr b ↦ rw (a, b) (set_status-Ends k now _ completed _ s t e w)
    ]
    | inr a ↦ rw a (set_status-Ends k now sub running _ s t e w)
  ]

  finish_job-Ends :
      (now : ℕ) (sub : Submission F) (j : Job) (s : State F)
      (r : State F × Outcome (BenchmarkResults F))
      → Within F j.submission_id s r.0
      → Ends j.submission_id (status_after j r.1) s (finish_job F T of_ℤ now sub j r)
  unfolding finish_job
  finish_job-Ends now sub j s (t, fails err) w =
      set_status-Ends j.submission_id now _ failed _ s t
        (reread-id F j.submission_id j.submission_id t sub refl w.holds) w
  finish_job-Ends now sub j s (t, done results) w =
      write_success-Ends j.submission_id now s t _ j results
        (reread-id F j.submission_id j.submission_id t sub refl w.holds) w

  -- What `processJob` does with a job whose submission is `sub`.
  pub data ProcessOutcome (a : Answers F) (s : State F) (j : Job) (sub : Submission F)
      : Type 0 where
    skips :
        admits sub.status j ≡ false
        → process_job F T of_ℤ a s j ≡ record { state = s; committed = true }
        → ProcessOutcome a s j sub
    runs :
        (r : State F × Outcome (BenchmarkResults F))
        → admits sub.status j ≡ true
        → execute F T of_ℤ a (set_status F a.now sub deploying "worker picked up job" s) j ≡ r
        → (process_job F T of_ℤ a s j).committed ≡ true
        → Ends j.submission_id (status_after j r.1) s (process_job F T of_ℤ a s j).state
        → ProcessOutcome a s j sub

  -- Whatever the outside world answers, a job for a submission that is stored under its own ID is
  -- committed. Either the guard
  -- does not admit it, and nothing changes; or it is executed, no other submission changes, and the
  -- submission stands at failed if the execution failed, at completed after the last profile, and at
  -- running otherwise.
  pub process_job_outcome :
      (a : Answers F) (s : State F) (j : Job) (sub : Submission F)
      → get j.submission_id s.submissions ≡ some sub
      → sub.id ≡ j.submission_id
      → ProcessOutcome a s j sub
  unfolding process_job begin_job
  process_job_outcome a s j sub e own = elim (Bool-cases (admits sub.status j)) [
    | inr h ↦ skips h (process_job-skips F T of_ℤ a s j sub e h)
    | inl h ↦
        let k = j.submission_id in
        let s' = set_status F a.now sub deploying "worker picked up job" s in
        let picked = Within-set_status F k a.now sub deploying "worker picked up job" s own in
        let ran = execute-Within F T of_ℤ k a s' j refl picked.holds in
        let r = execute F T of_ℤ a s' j in
        let ended =
          finish_job-Ends a.now (taken_up F T of_ℤ sub) j s r
            (Within-trans F k s s' r.0 picked ran) in
        runs r h refl (rw (process_job, begin_job, e, h) refl)
          (rw (process_job, begin_job, e, h) ended)
  ]
