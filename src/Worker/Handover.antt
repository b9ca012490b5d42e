-- ===== src/Worker/Handover.antt =====
-- The next profile job of internal/worker/executor.go meets the guard of internal/worker/worker.go:
-- when the first worker has finished, and before.
use nexus_bench.Base.{
  ℕ, ◌≡◌, ◌≢◌, refl, ◌∙◌, sym, ap, String, true, false, some, List, [], ◌∷◌, ℤ, arith, str_eq,
  eq_iff, inr,
}
use nexus_bench.Base.Dict.{get}
use nexus_bench.Base.Float.{FloatOps}
use nexus_bench.Base.Text.{TextOps, text, texts}
use nexus_bench.Models.{BenchmarkResults, Submission, running}
use nexus_bench.Queue.{Job, is_last_profile}
use nexus_bench.Executor.{Answers, State, done, set_status, update_submission, reread}
use nexus_bench.Executor.Execute.{execute}
use nexus_bench.Executor.Confined.{Holds, get-update_submission}
use nexus_bench.Executor.Success.{Queues, execute-HandsOver}
use nexus_bench.Worker.{admits, process_job, finish_job, write_success}
use nexus_bench.Worker.Guard.{process_job-skips, admits-held}

admits-running : (j : Job) → j.volatility_label ≢ "" → admits running j ≡ true
unfolding admits
admits-running j n = ground (arith, n, eq_iff j.volatility_label "")

module _ (F : FloatOps) (T : TextOps) (of_ℤ : ℤ → F.Float) where
  -- The state when the first worker has finished `j`, if the queue has `jobs` then.
  abbrev pub finished_with :
      ℕ → Submission F → Job → State F → BenchmarkResults F → List Job → State F
  finished_with now sub j t r jobs =
      finish_job F T of_ℤ now sub j (record t { jobs = jobs }, done r)

  finish_job-running :
      (now : ℕ) (sub : Submission F) (j : Job) (t : State F) (r : BenchmarkResults F)
      (x : Submission F)
      → is_last_profile j ≡ false
      → get j.submission_id t.submissions ≡ some x
      → x.id ≡ j.submission_id
      → ((y : Submission F) × (get j.submission_id
              (finish_job F T of_ℤ now sub j (t, done r)).submissions
            ≡ some y)
          × (y.status ≡ running))
        × ((finish_job F T of_ℤ now sub j (t, done r)).jobs ≡ t.jobs)
  unfolding finish_job write_success set_status reread update_submission
  finish_job-running now sub j t r x l f g =
      let msg =
        T.sprintf "profile %q done, %v remaining"
          (text j.volatility_label ∷ texts j.remaining_profiles ∷ []) in
      let marked : Submission F = record x { status = running; status_msg = msg } in
      let y : Submission F = record marked { updated_at = now } in
      (
        (
          y,
          ground (
            arith,
            l,
            f,
            g,
            eq_iff x.id j.submission_id,
            get-update_submission F now marked t j.submission_id,
          ),
          refl,
        ),
        ground (arith, l, f),
      )

  -- A successful execution of a labelled profile job with labelled profiles remaining, of a
  -- submission that is stored under its own ID, queues one job, for the next profile. If the
  -- first worker finishes before another takes that job, the guard admits it. If the other takes it
  -- before, which it can from the moment it is queued, it skips and commits it; and when the first
  -- worker then finishes, the submission stands at running with no job in the queue that was not
  -- there before: it stays unfinished.
  pub next_profile_race :
      (a b : Answers F) (s t : State F) (j : Job) (sub : Submission F) (r : BenchmarkResults F)
      (next : String) (rest : List String)
      → j.volatility_label ≢ ""
      → next ≢ ""
      → j.remaining_profiles ≡ next ∷ rest
      → Holds F j.submission_id s
      → execute F T of_ℤ a s j ≡ (t, done r)
      → (job : Job) × Queues F T of_ℤ j next rest s t job
        × ((y : Submission F) × (get job.submission_id
                (finish_job F T of_ℤ a.now sub j (t, done r)).submissions
              ≡ some y)
            × (admits y.status job ≡ true))
        × (process_job F T of_ℤ b t job ≡ record { state = t; committed = true })
        × ((y : Submission F) × (get j.submission_id
                (finished_with a.now sub j t r s.jobs).submissions
              ≡ some y)
            × (y.status ≡ running))
        × ((finished_with a.now sub j t r s.jobs).jobs ≡ s.jobs)
  next_profile_race a b s t j sub r next rest l n m h e =
      let labelled : str_eq j.volatility_label "" ≡ false =
        ground (arith, l, eq_iff j.volatility_label "") in
      let last : is_last_profile j ≡ false = ground (arith, m) in
      let ((x, f, own, st), (job, (q, i, label, remaining))) =
        execute-HandsOver F T of_ℤ j next rest a s t r labelled m h e in
      let ((y, k, running_y), kept) = finish_job-running a.now sub j t r x last f own in
      let late = finish_job-running a.now sub j (record t { jobs = s.jobs }) r x last f own in
      (
        job,
        (q, i, label, remaining),
        (
          y,
          ap (λ id. get id (finish_job F T of_ℤ a.now sub j (t, done r)).submissions) i ∙ k,
          ap (λ st. admits st job) running_y ∙ admits-running job (λ z. n (sym label ∙ z)),
        ),
        process_job-skips F T of_ℤ b t job x (ap (λ id. get id t.submissions) i ∙ f)
            (admits-held x.status job (inr st)),
        late.0,
        late.1,
      )
