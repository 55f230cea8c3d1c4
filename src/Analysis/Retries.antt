-- ===== src/Analysis/Retries.antt =====
-- What the retries of a job come to after an attempt that raised.
use zhiwei_backend.Prelude.{
  ℕ, ◌≡◌, refl, sym, ap, ◌∙◌, true, false, List, Option, none, some, String, str_eq, eq_iff,
  Option-cases, Bool-cases, ◌⊎◌, inl, inr, Exception, biz_exception, Result, ok, err, ==_self,
}
use zhiwei_backend.Prelude.Rows.{get, put}
use zhiwei_backend.Prelude.Rows.Laws.{result-cases}
use zhiwei_backend.Storage.{S3, put_bytes}
use zhiwei_backend.Analysis.Jobs.{
  AnalysisJob, JobTable, job_id, mark_running, mark_failed, mark_success, started,
  not_running_message,
}
use zhiwei_backend.Analysis.Transitions.{status_of, status_at, written_job}
use zhiwei_backend.Analysis.Plugins.{AnalysisOutput, Worker}
use zhiwei_backend.Analysis.Samples.{Site, Prepared, prepare, refused, ready}
use zhiwei_backend.Analysis.Run.{
  World, Moment, Session, Report, ignore_taken, fail, upload, deliver, finish, run, result_key,
  check_again,
}
use zhiwei_backend.Analysis.Task.{run_analysis_job, attempts, max_retries}

module _ {Json : Type 0} where
  -- other processes that leave the jobs alone
  abbrev pub undisturbed : Moment → JobTable Json → JobTable Json
  undisturbed moment t = t

  abbrev IsRunning : Option (AnalysisJob Json) → Type 0
  IsRunning none = ⊥
  IsRunning (some job) = job.status ≡ "running"

module _ {Json Store : Type 0} where
  -- Where a run raises, its job is running.
  StaysRunning : ℕ → Result Report × World Json Store → Type 0
  StaysRunning i (ok report, w) = Unit
  StaysRunning i (err e, w) = status_at i w.jobs ≡ some "running"

  -- Where a run raises, it has changed nothing, or its job is running.
  LeavesRunning : ℕ → World Json Store → Result Report × World Json Store → Type 0
  LeavesRunning i w (ok report, w') = Unit
  LeavesRunning i w (err e, w') = (w' ≡ w) ⊎ (status_at i w'.jobs ≡ some "running")

  weaken :
      (i : ℕ) (w : World Json Store) (out : Result Report × World Json Store)
      → StaysRunning i out
      → LeavesRunning i w out
  unfolding StaysRunning LeavesRunning
  weaken i w (ok report, w') h = tt
  weaken i w (err e, w') h = inr h

-- An attempt ends as ignored, or the database failed one of its sessions.
abbrev pub IsRefusal : (Session → Option Exception) → Exception → Type 0
IsRefusal database x =
    (x ≡ Exception.ignore) ⊎ ((s : Session) × (y : Exception) × (database s ≡ some y))

status_of-running :
    {Json : Type 0} (i : ℕ) (job : AnalysisJob Json) (t : JobTable Json)
    → get job_id i t.rows ≡ some job
    → job.status ≡ "running"
    → status_at i t ≡ some "running"
status_of-running i job t e running = ap status_of e ∙ ap (λ (s : String). some s) running

module _ {Json Float Store : Type 0} (worker : Worker Json Float) (s3 : S3 Store)
    (site : Site Json Float) (database : Session → Option Exception) (now : ℕ) where
  fail-StaysRunning :
      (i : ℕ) (error : List ℕ) (report : Report) (job : AnalysisJob Json) (w : World Json Store)
      → get job_id i w.jobs.rows ≡ some job
      → job.status ≡ "running"
      → StaysRunning i (fail worker s3 site database undisturbed now i error report w)
  unfolding mark_failed StaysRunning
  fail-StaysRunning i error report job w e running =
      elim (Option-cases (database Session.failing)) [
        | inr (x, d) ↦ rw d (status_of-running i job w.jobs e running)
        | inl d ↦ rw (d, e) tt
      ]

  check_again-StaysRunning :
      (i : ℕ) (key : Option String) (summary : Json) (job : AnalysisJob Json) (w : World Json Store)
      → get job_id i w.jobs.rows ≡ some job
      → job.status ≡ "running"
      → StaysRunning i (check_again worker s3 site database undisturbed now i key summary w)
  unfolding mark_success StaysRunning
  check_again-StaysRunning i key summary job w e running =
      elim (Option-cases (database Session.rechecking)) [
        | inr (x, d) ↦ rw d (status_of-running i job w.jobs e running)
        | inl d ↦ elim (Bool-cases (str_eq job.status "cancelled")) [
          | inl c ↦ rw (d, e, c) tt
          | inr c ↦ elim (Option-cases (database Session.storing)) [
            | inr (x, d') ↦ rw (d, e, c, d') (status_of-running i job w.jobs e running)
            | inl d' ↦ rw (d, e, c, d') (rw e tt)
          ]
        ]
      ]

  upload-StaysRunning :
      (i : ℕ) (output : AnalysisOutput Json) (job : AnalysisJob Json) (w : World Json Store)
      → get job_id i w.jobs.rows ≡ some job
      → job.status ≡ "running"
      → StaysRunning i (upload worker s3 site database undisturbed now i output w)
  unfolding StaysRunning
  upload-StaysRunning i output job w e running = go output.artifact
    where
      go :
          (artifact : Option (List ℕ))
          → StaysRunning i (
              upload worker s3 site database undisturbed now i
                (record output { artifact = artifact })
                w)
      go none = check_again-StaysRunning i none output.summary job w e running
      go (some artifact) =
          let key = result_key worker s3 site database undisturbed now i output.artifact_name in
          elim (result-cases (put_bytes s3 key artifact w.store).0) [
            | inr (x, f) ↦ rw f (ap status_of e ∙ ap (λ (s : String). some s) running)
            | inl (done, f) ↦
                rw f (check_again-StaysRunning i (some key) output.summary job _ e running)
          ]

  finish-StaysRunning :
      (i : ℕ) (params : Json) (p : Prepared Json Float) (job : AnalysisJob Json)
      (w : World Json Store)
      → get job_id i w.jobs.rows ≡ some job
      → job.status ≡ "running"
      → StaysRunning i (finish worker s3 site database undisturbed now i params p w)
  unfolding StaysRunning
  finish-StaysRunning i params (refused error reason) job w e running =
      fail-StaysRunning i _ _ job w e running
  finish-StaysRunning i params (ready plugin input) job w e running =
      elim (result-cases (plugin.analyze input params)) [
        | inr (x, f) ↦ rw f (fail-StaysRunning i _ _ job w e running)
        | inl (output, f) ↦ elim (Option-cases (database Session.checking)) [
          | inr (x, d) ↦ rw (f, d) (status_of-running i job w.jobs e running)
          | inl d ↦ rw (f, d, e) (delivered output)
        ]
      ]
    where
      delivered :
          (output : AnalysisOutput Json)
          → StaysRunning i (deliver worker s3 site database undisturbed now i output job w)
      delivered output = elim (Bool-cases (str_eq job.status "cancelled")) [
        | inl c ↦ rw c tt
        | inr c ↦ rw c (upload-StaysRunning i output job w e running)
      ]

  -- The job that `mark_running` has started.
  pub started_job :
      (i : ℕ) (job : AnalysisJob Json) (t : JobTable Json)
      → get job_id i t.rows ≡ some job
      → get job_id i (put job_id (started now job) t.rows) ≡ some (started now job)
  started_job i job t e = written_job i i (started now job) job t refl e ∙ rw ==_self refl

  pub mark_running-started :
      (i : ℕ) (job : AnalysisJob Json) (t : JobTable Json)
      → get job_id i t.rows ≡ some job
      → job.status ≡ "pending"
      → mark_running now i t ≡ (ok tt, record t { rows = put job_id (started now job) t.rows })
  unfolding mark_running
  mark_running-started i job t e pending =
      let p : str_eq job.status "pending" ≡ true = (eq_iff job.status "pending").1 pending in
      rw (e, p) refl

  mark_running-refused :
      (i : ℕ) (job : AnalysisJob Json) (t : JobTable Json)
      → get job_id i t.rows ≡ some job
      → job.status ≡ "running"
      → mark_running now i t
        ≡ (err (biz_exception "ANALYSIS_JOB_NOT_RUNNING" (not_running_message job.status) 409), t)
  unfolding mark_running
  mark_running-refused i job t e running =
      let p : str_eq job.status "pending" ≡ false =
        ap (λ (s : String). str_eq s "pending") running in
      rw (e, p) refl

  run-LeavesRunning :
      (i : ℕ) (job : AnalysisJob Json) (w : World Json Store)
      → get job_id i w.jobs.rows ≡ some job
      → job.status ≡ "pending"
      → LeavesRunning i w (run worker s3 site database undisturbed now i w)
  unfolding run LeavesRunning
  run-LeavesRunning i job w e pending =
      let m = mark_running-started i job w.jobs e pending in
      let running : JobTable Json = record w.jobs {
        rows = put job_id (started now job) w.jobs.rows;
      } in
      let stays = status_of-running i (started now job) running (started_job i job w.jobs e) refl in
      elim (Option-cases (database Session.loading)) [
        | inr (x, d) ↦ rw d (inl refl)
        | inl d ↦ elim (Option-cases (database Session.starting)) [
          | inr (x, d') ↦ rw (d, e, d') (inl refl)
          | inl d' ↦ elim (Option-cases (database Session.preparing)) [
            | inr (x, p) ↦ rw (d, e, d', m, p) (inr stays)
            | inl p ↦ elim (result-cases (prepare worker site job)) [
              | inr (x, g) ↦ rw (d, e, d', m, p, g) (inr stays)
              | inl (q, g) ↦
                  rw (d, e, d', m, p, g)
                    (weaken i w _ (
                      finish-StaysRunning i job.params q (started now job) _
                        (started_job i job w.jobs e) refl))
            ]
          ]
        ]
      ]

  -- An attempt at a job that is running is refused and changes nothing.
  run-refused :
      (i : ℕ) (job : AnalysisJob Json) (w : World Json Store)
      → get job_id i w.jobs.rows ≡ some job
      → job.status ≡ "running"
      → (x : Exception) × (run worker s3 site database undisturbed now i w ≡ (err x, w))
        × IsRefusal database x
  unfolding run
  run-refused i job w e running = elim (Option-cases (database Session.loading)) [
    | inr (x, d) ↦ (x, rw d refl, inr (Session.loading, x, d))
    | inl d ↦ elim (Option-cases (database Session.starting)) [
      | inr (x, d') ↦ (ignore_taken x, rw (d, e, d') refl, inr (Session.starting, x, d'))
      | inl d' ↦ (
        Exception.ignore,
        rw (d, e, d', mark_running-refused i job w.jobs e running) refl,
        inl refl,
      )
    ]
  ]

-- The job in a state.
status_at-job :
    {Json : Type 0} (i : ℕ) (status : String) (t : JobTable Json)
    → status_at i t ≡ some status
    → (job : AnalysisJob Json) × (get job_id i t.rows ≡ some job) × (job.status ≡ status)
status_at-job i status t h = elim (Option-cases (get job_id i t.rows)) [
  | inl e ↦ absurd (none≢some (sym (ap status_of e) ∙ h))
  | inr (job, e) ↦ (job, e, some_injective (sym (ap status_of e) ∙ h))
]
  where
    none≢some : none ≡ some status → ⊥
    none≢some e = cc

    some_injective : {x y : String} → some x ≡ some y → x ≡ y
    some_injective e = cc

module _ {Json Float Store : Type 0} (worker : Worker Json Float) (s3 : S3 Store)
    (site : Site Json Float) (databases : ℕ → Session → Option Exception) (now : ℕ → ℕ) where
  refused_again :
      (n i : ℕ) (w : World Json Store)
      → status_at i w.jobs ≡ some "running"
      → (x : Exception) × (run worker s3 site (databases n) undisturbed (now n) i w ≡ (err x, w))
        × IsRefusal (databases n) x
  refused_again n i w h =
      let (job, found, status) = status_at-job i "running" w.jobs h in
      run-refused worker s3 site (databases n) (now n) i job w found status

  -- While no other process changes jobs, and whatever sessions of the database fail in each attempt: if the
  -- first attempt at a pending job raises, then it has changed nothing, so the job is pending; or the job is
  -- left running, and the task ends with everything as that attempt left it, since no retry takes up a job that
  -- is not pending: it ends as ignored, or with an exception where the database fails a session of the last
  -- retry.
  pub run_analysis_job-StaysRunning :
      (i : ℕ) (e : Exception) (w : World Json Store)
      → status_at i w.jobs ≡ some "pending"
      → (run worker s3 site (databases max_retries) undisturbed (now max_retries) i w).0 ≡ err e
      → let w' = (run worker s3 site (databases max_retries) undisturbed (now max_retries) i w).1 in
        (w' ≡ w)
        ⊎ ((status_at i w'.jobs ≡ some "running")
            × ((x : Exception) × (run_analysis_job worker s3 site databases
                    (λ n. undisturbed)
                    now
                    i
                    w
                  ≡ (err x, w'))
                × IsRefusal (databases 0) x))
  unfolding run_analysis_job LeavesRunning
  run_analysis_job-StaysRunning i e w pending raised =
      let (job, found, status) = status_at-job i "pending" w.jobs pending in
      go (run worker s3 site (databases max_retries) undisturbed (now max_retries) i w) refl raised
        (run-LeavesRunning worker s3 site (databases max_retries) (now max_retries) i job w found
          status)
    where
      go :
          (out : Result Report × World Json Store)
          → run worker s3 site (databases 2) undisturbed (now 2) i w ≡ out
          → out.0 ≡ err e
          → LeavesRunning i w out
          → (out.1 ≡ w)
            ⊎ ((status_at i out.1.jobs ≡ some "running")
                × ((x : Exception) × (attempts worker s3 site databases (λ n. undisturbed) now 2 i w
                      ≡ (err x, out.1))
                    × IsRefusal (databases 0) x))
      go (ok report, w') same h stays = cc
      go (err x, w') same h (inl kept) = inl kept
      go (err x, w') same h (inr stays) =
          let (y, again, _) = refused_again 1 i w' stays in
          let (z, last, refusal) = refused_again 0 i w' stays in
          inr (stays, (z, rw (same, again) last, refusal))
