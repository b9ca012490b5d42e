-- ===== src/Worker/Guard.antt =====
-- The idempotent guard of internal/worker/worker.go, and what a job may touch.
use nexus_bench.Base.{
  ℕ, ◌≡◌, ◌⊎◌, refl, ◌∙◌, ap, String, true, false, some, ℤ, arith, eq_iff, inl, inr, Bool-cases,
  Option-cases,
}
use nexus_bench.Base.Dict.{get}
use nexus_bench.Base.Float.{FloatOps}
use nexus_bench.Base.Text.{TextOps}
use nexus_bench.Models.{Submission, SubmissionStatus, deploying, benchmarking}
use nexus_bench.Queue.{Job}
use nexus_bench.Executor.{Answers, State, set_status, update_submission}
use nexus_bench.Executor.Confined.{get-update_submission, Holds}
use nexus_bench.Worker.{admits, begin_job, started, process_job}

-- A job for a submission that some worker holds is not admitted.
pub admits-held :
    (status : SubmissionStatus) (j : Job)
    → (status ≡ deploying) ⊎ (status ≡ benchmarking)
    → admits status j ≡ false
unfolding admits
admits-held status j (inl e) = ground (arith, e)
admits-held status j (inr e) = ground (arith, e)

module _ (F : FloatOps) (T : TextOps) (of_ℤ : ℤ → F.Float) where
  -- A job whose submission is in another worker's hands, or at its end, is skipped and committed,
  -- and the state stays as it is: so a job that is delivered again has no effect once its
  -- submission is completed or failed. The same happens where the submission stands at deploying or
  -- benchmarking, whoever put it there.
  pub process_job-skips :
      (a : Answers F) (s : State F) (j : Job) (sub : Submission F)
      → get j.submission_id s.submissions ≡ some sub
      → admits sub.status j ≡ false
      → process_job F T of_ℤ a s j ≡ record { state = s; committed = true }
  unfolding process_job begin_job
  process_job-skips a s j sub e h = ground (arith, e, h)

  pub Holds-id :
      (s : State F) (k : String) (x : Submission F)
      → get k s.submissions ≡ some x
      → Holds F k s
      → x.id ≡ k
  Holds-id s k x e (y, f, g) = ground (arith, e, f, g)

  abbrev pub taken_up : Submission F → Submission F
  taken_up x = record x { status = deploying; status_msg = "worker picked up job" }

  pub begin_job-started :
      (now : ℕ) (s s' : State F) (j : Job) (sub : Submission F)
      → begin_job F T of_ℤ now s j ≡ started s' sub
      → (x : Submission F) × (get j.submission_id s.submissions ≡ some x)
        × (admits x.status j ≡ true)
        × (s' ≡ set_status F now x deploying "worker picked up job" s)
        × (sub ≡ taken_up x)
  unfolding begin_job
  begin_job-started now s s' j sub e = elim (Option-cases (get j.submission_id s.submissions)) [
    | inl k ↦ absurd (ground (arith, e, k))
    | inr (x, k) ↦ elim (Bool-cases (admits x.status j)) [
      | inl h ↦ (x, k, h, ground (arith, e, k, h), ground (arith, e, k, h))
      | inr h ↦ absurd (ground (arith, e, k, h))
    ]
  ]

  taken_up-found :
      (now : ℕ) (s : State F) (j : Job) (x : Submission F)
      → x.id ≡ j.submission_id
      → get j.submission_id (set_status F now x deploying "worker picked up job" s).submissions
        ≡ some (record (taken_up x) { updated_at = now })
  unfolding set_status
  taken_up-found now s j x own = ground (
    arith,
    own,
    eq_iff x.id j.submission_id,
    get-update_submission F now (taken_up x) s j.submission_id,
  )

  -- A worker that takes a job, whose submission is stored under its own ID, and then stops: the job is delivered again, but any worker skips and
  -- commits it, so the submission is left at deploying, with no job added to the queue for it.
  pub redelivery_skips :
      (a : Answers F) (now : ℕ) (s s' : State F) (j : Job) (sub : Submission F)
      → Holds F j.submission_id s
      → begin_job F T of_ℤ now s j ≡ started s' sub
      → (process_job F T of_ℤ a s' j ≡ record { state = s'; committed = true })
        × ((x : Submission F) × (get j.submission_id s'.submissions ≡ some x)
            × (x.status ≡ deploying))
        × (s'.jobs ≡ s.jobs)
  unfolding set_status update_submission
  redelivery_skips a now s s' j sub own e =
      let (x, k, h, f, g) = begin_job-started now s s' j sub e in
      let same : x.id ≡ j.submission_id = Holds-id s j.submission_id x k own in
      let x' : Submission F = record (taken_up x) { updated_at = now } in
      let found : get j.submission_id s'.submissions ≡ some x' =
        ap (λ (y : State F). get j.submission_id y.submissions) f ∙ taken_up-found now s j x same in
      (
        process_job-skips a s' j x' found (admits-held deploying j (inl refl)),
        (x', found, refl),
        ap (λ (y : State F). y.jobs) f,
      )
