-- ===== src/Analysis/Cancellation.antt =====
-- A run whose job is cancelled meanwhile.
use zhiwei_backend.Prelude.{
  ℕ, ◌≡◌, refl, ◌∙◌, Bool, true, false, List, Option, none, some, String, str_eq, eq_iff,
  Option-cases, Bool-cases, ◌⊎◌, inl, inr, Exception, Result, ok, err, ==_self, arith,
  biz_exception,
}
use zhiwei_backend.Prelude.Rows.{get, put}
use zhiwei_backend.Prelude.Rows.Laws.{result-cases}
use zhiwei_backend.Storage.{S3, put_bytes}
use zhiwei_backend.Analysis.Jobs.{
  AnalysisJob, JobTable, job_id, mark_running, mark_failed, cancel_job, cancelled, started,
  is_cancellable, not_running_message,
}
use zhiwei_backend.Analysis.Transitions.{written_job}
use zhiwei_backend.Analysis.Plugins.{AnalysisOutput, Worker}
use zhiwei_backend.Analysis.Samples.{Site, Prepared, prepare, refused, ready}
use zhiwei_backend.Analysis.Run.{
  World, Moment, Session, Report, fail, upload, deliver, finish, take_on, run, result_key,
  check_again,
}
use zhiwei_backend.Analysis.Agreement.{Agrees, run-Agrees}
use zhiwei_backend.Analysis.Retries.{started_job}

abbrev pub is_success : Result Report → Bool
is_success (ok (Report.success key)) = true
is_success (ok (Report.failed reason)) = false
is_success (ok (Report.failed_with error)) = false
is_success (ok (Report.cancelled reason)) = false
is_success (err e) = false

module _ {Json : Type 0} where
  -- Another process cancels the job at one moment, and nothing else happens to the jobs.
  abbrev pub cancelling : Moment → ℕ → ℕ → Moment → JobTable Json → JobTable Json
  cancelling Moment.taken later i Moment.taken t = (cancel_job later i t).1
  cancelling Moment.taken later i Moment.computing t = t
  cancelling Moment.taken later i Moment.uploading t = t
  cancelling Moment.computing later i Moment.taken t = t
  cancelling Moment.computing later i Moment.computing t = (cancel_job later i t).1
  cancelling Moment.computing later i Moment.uploading t = t
  cancelling Moment.uploading later i Moment.taken t = t
  cancelling Moment.uploading later i Moment.computing t = t
  cancelling Moment.uploading later i Moment.uploading t = (cancel_job later i t).1

  -- A job that may be cancelled is, and can be found so.
  pub cancel_job-found :
      (later i : ℕ) (job : AnalysisJob Json) (t : JobTable Json)
      → get job_id i t.rows ≡ some job
      → is_cancellable job.status ≡ true
      → get job_id i (cancel_job later i t).1.rows ≡ some (cancelled later job)
  unfolding cancel_job
  cancel_job-found later i job t e c =
      rw (e, c) (written_job i i (cancelled later job) job t refl e ∙ rw ==_self refl)

module _ {Json Float Store : Type 0} (worker : Worker Json Float) (s3 : S3 Store)
    (site : Site Json Float) (database : Session → Option Exception) (now : ℕ) where
  fail-is_success :
      (others : Moment → JobTable Json → JobTable Json) (i : ℕ) (error : List ℕ) (report : Report)
      (w : World Json Store)
      → is_success (ok report) ≡ false
      → is_success (fail worker s3 site database others now i error report w).0 ≡ false
  unfolding mark_failed
  fail-is_success others i error report w h = elim (Option-cases (database Session.failing)) [
    | inr (x, d) ↦ rw d refl
    | inl d ↦ elim (Option-cases (get job_id i w.jobs.rows)) [
      | inl e ↦ rw (d, e) refl
      | inr (job, e) ↦ rw (d, e) h
    ]
  ]

  -- a run that finds its job cancelled at the second check
  check_again-is_success :
      (others : Moment → JobTable Json → JobTable Json) (i : ℕ) (key : Option String)
      (summary : Json) (job : AnalysisJob Json) (w : World Json Store)
      → get job_id i w.jobs.rows ≡ some job
      → job.status ≡ "cancelled"
      → is_success (check_again worker s3 site database others now i key summary w).0 ≡ false
  check_again-is_success others i key summary job w e c =
      let same : str_eq job.status "cancelled" ≡ true = (eq_iff job.status "cancelled").1 c in
      elim (Option-cases (database Session.rechecking)) [
        | inr (x, d) ↦ rw d refl
        | inl d ↦ rw (d, e, same) refl
      ]

  upload-is_success :
      (later i : ℕ) (output : AnalysisOutput Json) (job : AnalysisJob Json) (w : World Json Store)
      → get job_id i w.jobs.rows ≡ some job
      → is_cancellable job.status ≡ true
      → is_success
          (upload worker s3 site database (cancelling Moment.uploading later i) now i output w).0
        ≡ false
  upload-is_success later i output job w e c = go output.artifact
    where
      go :
          (artifact : Option (List ℕ))
          → is_success
              (upload worker s3 site database
                (cancelling Moment.uploading later i)
                now
                i
                (record output { artifact = artifact })
                w).0
            ≡ false
      go none =
          check_again-is_success (cancelling Moment.uploading later i) i none output.summary
            (cancelled later job) _ (cancel_job-found later i job w.jobs e c) refl
      go (some artifact) =
          let key =
            result_key worker s3 site database (cancelling Moment.uploading later i) now i
              output.artifact_name in
          elim (result-cases (put_bytes s3 key artifact w.store).0) [
            | inr (x, f) ↦ rw f refl
            | inl (done, f) ↦ rw f (
                check_again-is_success (cancelling Moment.uploading later i) i (some key)
                  output.summary (cancelled later job) _ (cancel_job-found later i job w.jobs e c)
                  refl)
          ]

  -- a job that is cancelled when the plugin has returned
  finish-is_success :
      (others : Moment → JobTable Json → JobTable Json) (i : ℕ) (params : Json)
      (p : Prepared Json Float) (job : AnalysisJob Json) (w : World Json Store)
      → get job_id i w.jobs.rows ≡ some job
      → ((output : AnalysisOutput Json)
          → is_success (deliver worker s3 site database others now i output job w).0 ≡ false)
      → is_success (finish worker s3 site database others now i params p w).0 ≡ false
  finish-is_success others i params (refused error reason) job w e delivered =
      fail-is_success others i _ _ w refl
  finish-is_success others i params (ready plugin input) job w e delivered =
      elim (result-cases (plugin.analyze input params)) [
        | inr (x, f) ↦ rw f (fail-is_success others i _ _ w refl)
        | inl (output, f) ↦ elim (Option-cases (database Session.checking)) [
          | inr (x, d) ↦ rw (f, d) refl
          | inl d ↦ rw (f, d, e) (delivered output)
        ]
      ]

  abbrev not_running : String → Exception
  not_running status = biz_exception "ANALYSIS_JOB_NOT_RUNNING" (not_running_message status) 409

  -- A job starts if it is pending, and is refused otherwise.
  mark_running-cases :
      (i : ℕ) (job : AnalysisJob Json) (t : JobTable Json)
      → get job_id i t.rows ≡ some job
      → (mark_running now i t ≡ (ok tt, record t { rows = put job_id (started now job) t.rows }))
        ⊎ ((e : Exception) × (mark_running now i t ≡ (err e, t)))
  unfolding mark_running
  mark_running-cases i job t e = elim (Bool-cases (str_eq job.status "pending")) [
    | inl p ↦ inl (rw (e, p) refl)
    | inr p ↦ inr (not_running job.status, rw (e, p) refl)
  ]

  -- Once it was cancelled, or if it could not be, a job does not start.
  mark_running-cancelled :
      (later i : ℕ) (job : AnalysisJob Json) (t : JobTable Json)
      → get job_id i t.rows ≡ some job
      → (e : Exception) × ((mark_running now i (cancel_job later i t).1).0 ≡ err e)
  unfolding mark_running cancel_job
  mark_running-cancelled later i job t e = elim (Bool-cases (is_cancellable job.status)) [
    | inl c ↦
        let found = cancel_job-found later i job t e c in (not_running "cancelled", rw found refl)
    | inr c ↦
        let p : str_eq job.status "pending" ≡ false = ground arith in
        (not_running job.status, rw (e, c) (rw (e, p) refl))
  ]

  abbrev running_jobs : ℕ → AnalysisJob Json → World Json Store → JobTable Json
  running_jobs i job w = record w.jobs { rows = put job_id (started now job) w.jobs.rows }

  -- A run of a job that is cancelled after it was taken on, if the rest does not succeed.
  take_on-is_success :
      (others : Moment → JobTable Json → JobTable Json) (i : ℕ) (job : AnalysisJob Json)
      (w : World Json Store)
      → get job_id i w.jobs.rows ≡ some job
      → ((p : Prepared Json Float) (w' : World Json Store)
          → w'.jobs ≡ others Moment.computing (running_jobs i job w)
          → is_success (finish worker s3 site database others now i job.params p w').0 ≡ false)
      → is_success (take_on worker s3 site database others now i job w).0 ≡ false
  take_on-is_success others i job w e finished = elim (Option-cases (database Session.starting)) [
    | inr (x, d) ↦ rw d refl
    | inl d ↦ elim (mark_running-cases i job w.jobs e) [
      | inr (x, f) ↦ rw (d, f) refl
      | inl f ↦ elim (Option-cases (database Session.preparing)) [
        | inr (x, p) ↦ rw (d, f, p) refl
        | inl p ↦ elim (result-cases (prepare worker site job)) [
          | inr (x, g) ↦ rw (d, f, p, g) refl
          | inl (q, g) ↦ rw (d, f, p, g) (finished q _ refl)
        ]
      ]
    ]
  ]

  run-is_success :
      (m : Moment) (later i : ℕ) (w : World Json Store)
      → is_success (run worker s3 site database (cancelling m later i) now i w).0 ≡ false
  unfolding run
  run-is_success m later i w = elim (Option-cases (database Session.loading)) [
    | inr (x, d) ↦ rw d refl
    | inl d ↦ elim (Option-cases (get job_id i w.jobs.rows)) [
      | inl e ↦ rw (d, e) refl
      | inr (job, e) ↦ rw (d, e) (taken_on m job e)
    ]
  ]
    where
      taken_on :
          (m : Moment) (job : AnalysisJob Json)
          → get job_id i w.jobs.rows ≡ some job
          → is_success
              (take_on worker s3 site database
                (cancelling m later i)
                now
                i
                job
                (record w { jobs = cancelling m later i Moment.taken w.jobs })).0
            ≡ false
      taken_on Moment.taken job e =
          let (x, refused_start) = mark_running-cancelled later i job w.jobs e in
          elim (Option-cases (database Session.starting)) [
            | inr (y, d) ↦ rw d refl
            | inl d ↦ rw (d, refused_start) refl
          ]
      taken_on Moment.computing job e =
          let c = cancelling Moment.computing later i in
          take_on-is_success c i job w e (λ p w' same.
            finish-is_success c i job.params p (cancelled later (started now job)) w'
              (rw same (
                cancel_job-found later i (started now job) (running_jobs i job w)
                  (started_job worker s3 site database now i job w.jobs e) refl))
              (λ output. refl))
      taken_on Moment.uploading job e =
          let c = cancelling Moment.uploading later i in
          take_on-is_success c i job w e (λ p w' same.
            let found : get job_id i w'.jobs.rows ≡ some (started now job) =
              rw same (started_job worker s3 site database now i job w.jobs e) in
            finish-is_success c i job.params p (started now job) w' found
              (λ output. upload-is_success later i output (started now job) w' found refl))

  -- Whatever other processes do to the jobs while a run waits, and whatever the database, the plugin and the
  -- store answer: if the run returns a report, then its job is in the state of that report. And if another
  -- process cancels the job, after it was read, while the plugin computes or while the artifact is
  -- uploaded, and no other process changes jobs, then the run does not report a success.
  pub run-Agrees_guards :
      (others : Moment → JobTable Json → JobTable Json) (m : Moment) (later i : ℕ)
      (w : World Json Store)
      → Agrees i (run worker s3 site database others now i w)
        × Agrees i (run worker s3 site database (cancelling m later i) now i w)
        × (is_success (run worker s3 site database (cancelling m later i) now i w).0 ≡ false)
  run-Agrees_guards others m later i w = (
    run-Agrees worker s3 site database others now i w,
    run-Agrees worker s3 site database (cancelling m later i) now i w,
    run-is_success m later i w,
  )
