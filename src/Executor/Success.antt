-- ===== src/Executor/Success.antt =====
-- What a successful `Execute` of internal/worker/executor.go leaves, where more profiles remain.
use nexus_bench.Base.{
  ℕ, ◌≡◌, refl, ◌∙◌, sym, ap, subst, String, true, false, Option, none, some, List, [], ◌∷◌, ◌++◌,
  ℤ, arith, str_eq, eq_iff, inl, inr, Bool-cases, Option-cases,
}
use nexus_bench.Base.Dict.{get}
use nexus_bench.Base.Float.{FloatOps}
use nexus_bench.Base.Text.{TextOps}
use nexus_bench.Models.{BenchmarkResults, Submission, VolatilityProfile, benchmarking}
use nexus_bench.Queue.{Job, new_profile_job}
use nexus_bench.Executor.{
  Answers, EnqueueAnswer, FleetRun, Outcome, State, Validation, completed, did_not_complete, done,
  fails, no_queue, refused, reread, taken, update_submission,
}
use nexus_bench.Executor.Gate.{judge_validation, run_preflight_validator}
use nexus_bench.Executor.Execute.{
  append_profile_result, enqueue_next_profile, persist_results, fleet_finished, benchmark,
  on_container, execute, then_done, target_url_for_protocol, with_container,
}
use nexus_bench.Executor.Confined.{
  get-update_submission, deploy-cases, Holds, Within-update, reread-id,
}

module _ (F : FloatOps) (T : TextOps) (of_ℤ : ℤ → F.Float) (j : Job) (next : String)
    (rest : List String) where
  -- The submission of the job is being benchmarked.
  abbrev pub InBenchmark : State F → Type 0
  InBenchmark s =
      (x : Submission F) × (get j.submission_id s.submissions ≡ some x)
      × (x.id ≡ j.submission_id)
      × (x.status ≡ benchmarking)

  -- `t` has one job more than `s`: that of the next profile.
  abbrev pub Queues : State F → State F → Job → Type 0
  Queues s t job =
      (t.jobs ≡ s.jobs ++ job ∷ [])
      × (job.submission_id ≡ j.submission_id)
      × (job.volatility_label ≡ next)
      × (job.remaining_profiles ≡ rest)

  abbrev pub HandsOver : State F → State F → Type 0
  HandsOver s t = InBenchmark t × ((job : Job) × Queues s t job)

  update-InBenchmark :
      (now : ℕ) (sub : Submission F) (s : State F)
      → sub.id ≡ j.submission_id
      → sub.status ≡ benchmarking
      → InBenchmark (update_submission F now sub s)
  update-InBenchmark now sub s e st = (
    record sub { updated_at = now },
    ground (
      arith,
      e,
      eq_iff sub.id j.submission_id,
      get-update_submission F now sub s j.submission_id,
    ),
    e,
    st,
  )

  enqueue-HandsOver :
      (a : Answers F) (s : State F) (sub : Submission F) (results r : BenchmarkResults F)
      (t : State F)
      → sub.id ≡ j.submission_id
      → InBenchmark s
      → then_done F T of_ℤ (enqueue_next_profile F T of_ℤ a s sub j next rest) results ≡ (t, done r)
      → HandsOver s t
  unfolding enqueue_next_profile
  enqueue-HandsOver a s sub results r t e b h = go a.enqueue refl
    where
      go : (x : EnqueueAnswer) → a.enqueue ≡ x → HandsOver s t
      go no_queue f = absurd (ground (arith, f, h))
      go (refused err) f = absurd (ground (arith, f, h))
      go taken f =
          let job = new_profile_job F a.now sub j.contest_id next rest in
          let same : t ≡ record s { jobs = s.jobs ++ job ∷ [] } = ground (arith, f, h) in
          subst (HandsOver s) (sym same) (b, (job, (refl, e, refl, refl)))

  reread-found :
      (s : State F) (sub x : Submission F)
      → sub.id ≡ j.submission_id
      → get j.submission_id s.submissions ≡ some x
      → reread F s sub.id sub ≡ x
  unfolding reread
  reread-found s sub x e f = ground (arith, e, f)

  persist-HandsOver :
      (a : Answers F) (s : State F) (sub : Submission F) (results r : BenchmarkResults F)
      (t : State F)
      → str_eq j.volatility_label "" ≡ false
      → j.remaining_profiles ≡ next ∷ rest
      → sub.id ≡ j.submission_id
      → InBenchmark s
      → persist_results F T of_ℤ a s sub j results ≡ (t, done r)
      → HandsOver s t
  unfolding append_profile_result update_submission
  persist-HandsOver a s sub results r t l m e (x, f, g, st) h =
      let found = reread-found s sub x e f in
      let old = reread F s sub.id sub in
      let fresh = record old { all_results = old.all_results ++ results ∷ [] } in
      let own : fresh.id ≡ j.submission_id = ground (arith, found, g) in
      let status : fresh.status ≡ benchmarking = ground (arith, found, st) in
      let s' = update_submission F a.now fresh s in
      enqueue-HandsOver a s' fresh results r t own (update-InBenchmark a.now fresh s own status)
        (ground (arith, l, m, h))

  abbrev KeepsJobs : State F → State F × Outcome (Submission F) → Type 0
  KeepsJobs s (t, done sub) = (t.jobs ≡ s.jobs) × (sub.id ≡ j.submission_id)
  KeepsJobs s (t, fails err) = Unit

  judge_validation-KeepsJobs :
      (now : ℕ) (s : State F) (sub : Submission F) (v : Validation)
      → sub.id ≡ j.submission_id
      → Holds F j.submission_id s
      → KeepsJobs s (judge_validation F T now s sub v)
  unfolding judge_validation update_submission
  judge_validation-KeepsJobs now s sub (did_not_complete err) e h = tt
  judge_validation-KeepsJobs now s sub (completed true scenarios at) e h =
      (refl, reread-id F j.submission_id sub.id s sub e h)
  judge_validation-KeepsJobs now s sub (completed false scenarios at) e h = tt

  run_preflight-KeepsJobs :
      (now : ℕ) (v : Option Validation) (s : State F) (sub : Submission F)
      → sub.id ≡ j.submission_id
      → Holds F j.submission_id s
      → KeepsJobs s (run_preflight_validator F T now v s sub j)
  run_preflight-KeepsJobs now none s sub e h = (refl, e)
  run_preflight-KeepsJobs now (some v) s sub e h =
      elim (Bool-cases (str_eq j.volatility_label "low")) [
        | inl a ↦ rw a (judge_validation-KeepsJobs now s sub v e h)
        | inr a ↦ rw a (refl, e)
      ]

  fleet_finished-HandsOver :
      (a : Answers F) (s : State F) (sub : Submission F) (p : VolatilityProfile F)
      (run : Outcome FleetRun) (r : BenchmarkResults F) (t : State F)
      → str_eq j.volatility_label "" ≡ false
      → j.remaining_profiles ≡ next ∷ rest
      → sub.id ≡ j.submission_id
      → InBenchmark s
      → fleet_finished F T of_ℤ a s sub j p run ≡ (t, done r)
      → HandsOver s t
  fleet_finished-HandsOver a s sub p (fails err) r t l m e b h = absurd (ground (arith, h))
  fleet_finished-HandsOver a s sub p (done run) r t l m e b h =
      persist-HandsOver a s sub _ r t l m e b h

  benchmark-HandsOver :
      (a : Answers F) (url : String) (s : State F) (gate : State F × Outcome (Submission F))
      (r : BenchmarkResults F) (t : State F)
      → str_eq j.volatility_label "" ≡ false
      → j.remaining_profiles ≡ next ∷ rest
      → KeepsJobs s gate
      → benchmark F T of_ℤ a url j gate ≡ (t, done r)
      → HandsOver s t
  unfolding benchmark update_submission
  benchmark-HandsOver a url s (s', fails err) r t l m g h = absurd (ground (arith, h))
  benchmark-HandsOver a url s (s', done sub) r t l m (kept, e) h =
      let marked : Submission F = record sub {
        status = benchmarking;
        status_msg = "bot fleet running";
      } in
      let (b, (job, (q, i, label, remaining))) =
        fleet_finished-HandsOver a (update_submission F a.now marked s') marked _ _ r t l m e
          (update-InBenchmark a.now marked s' e refl) h in
      (b, (job, (q ∙ ap (λ jobs. jobs ++ job ∷ []) kept, i, label, remaining)))

  on_container-HandsOver :
      (a : Answers F) (s : State F) (sub : Submission F) (port : ℤ) (r : BenchmarkResults F)
      (t : State F)
      → str_eq j.volatility_label "" ≡ false
      → j.remaining_profiles ≡ next ∷ rest
      → sub.id ≡ j.submission_id
      → on_container F T of_ℤ a s sub j port ≡ (t, done r)
      → HandsOver s t
  unfolding on_container update_submission
  on_container-HandsOver a s sub port r t l m e h =
      let s' = update_submission F a.now sub s in
      elim (Option-cases a.wait_healthy) [
        | inl c ↦
            benchmark-HandsOver a
              (target_url_for_protocol F T of_ℤ sub.protocol a.sandbox_host port) s'
              (run_preflight_validator F T a.now a.validation s' sub j) r t l m
              (run_preflight-KeepsJobs a.now a.validation s' sub e
                (Within-update F j.submission_id a.now sub s e).holds)
              (ground (arith, c, h))
        | inr (err, c) ↦ absurd (ground (arith, c, h))
      ]

  -- A successful execution with profiles remaining leaves the submission at benchmarking, and has
  -- put exactly one job into the queue: that of the next profile of the same submission.
  pub execute-HandsOver :
      (a : Answers F) (s t : State F) (r : BenchmarkResults F)
      → str_eq j.volatility_label "" ≡ false
      → j.remaining_profiles ≡ next ∷ rest
      → Holds F j.submission_id s
      → execute F T of_ℤ a s j ≡ (t, done r)
      → HandsOver s t
  unfolding execute
  execute-HandsOver a s t r l m (x, f, g) h = elim (deploy-cases a.deploy) [
    | inl (id, port, c) ↦
        on_container-HandsOver a s (with_container F T of_ℤ x id port) port r t l m g
          (ground (arith, f, c, h))
    | inr (err, c) ↦ absurd (ground (arith, f, c, h))
  ]
