-- ===== src/Analysis/Agreement.antt =====
-- The report of a run and the state of its job, whatever other processes do meanwhile.
use zhiwei_backend.Prelude.{
  ℕ, ◌≡◌, refl, sym, ap, ◌∙◌, List, Option, none, some, String, str_eq, eq_iff, Option-cases,
  Bool-cases, inl, inr, Exception, Result, ok, err, ==_self,
}
use zhiwei_backend.Prelude.Rows.{get, put}
use zhiwei_backend.Prelude.Rows.Laws.{result-cases}
use zhiwei_backend.Storage.{S3, put_bytes}
use zhiwei_backend.Analysis.Jobs.{
  AnalysisJob, JobTable, job_id, mark_running, mark_failed, mark_success, failed, succeeded,
}
use zhiwei_backend.Analysis.Transitions.{status_of, status_at, written_job}
use zhiwei_backend.Analysis.Plugins.{AnalysisOutput, Worker}
use zhiwei_backend.Analysis.Samples.{Site, Prepared, prepare, refused, ready}
use zhiwei_backend.Analysis.Run.{
  World, Moment, Session, Report, fail, conclude, upload, deliver, computed, finish, take_on, run,
  result_key, check_again,
}

-- The state that a report stands for.
abbrev pub report_status : Report → String
report_status (Report.success key) = "success"
report_status (Report.failed reason) = "failed"
report_status (Report.failed_with error) = "failed"
report_status (Report.cancelled reason) = "cancelled"

module _ {Json : Type 0} where
  written_status :
      (i : ℕ) (job old : AnalysisJob Json) (t : JobTable Json)
      → job.id ≡ old.id
      → get job_id i t.rows ≡ some old
      → status_of (get job_id i (put job_id job t.rows)) ≡ some job.status
  written_status i job old t same e =
      ap status_of (written_job i i job old t same e) ∙ rw ==_self refl

module _ {Json Store : Type 0} where
  -- Where a run returns, the job is in the state of its report.
  pub Agrees : ℕ → Result Report × World Json Store → Type 0
  Agrees i (ok report, w) = status_at i w.jobs ≡ some (report_status report)
  Agrees i (err e, w) = Unit

module _ {Json Float Store : Type 0} (worker : Worker Json Float) (s3 : S3 Store)
    (site : Site Json Float) (database : Session → Option Exception)
    (others : Moment → JobTable Json → JobTable Json) (now : ℕ) where
  fail-Agrees :
      (i : ℕ) (error : List ℕ) (report : Report) (w : World Json Store)
      → report_status report ≡ "failed"
      → Agrees i (fail worker s3 site database others now i error report w)
  unfolding mark_failed Agrees
  fail-Agrees i error report w h = elim (Option-cases (database Session.failing)) [
    | inr (x, d) ↦ rw d tt
    | inl d ↦ elim (Option-cases (get job_id i w.jobs.rows)) [
      | inl e ↦ rw (d, e) tt
      | inr (job, e) ↦
          rw (d, e)
            (written_status i (failed now error job) job w.jobs refl e
              ∙ ap (λ (s : String). some s) (sym h))
    ]
  ]

  conclude-Agrees :
      (i : ℕ) (key : Option String) (summary : Json) (fresh : AnalysisJob Json)
      (w : World Json Store)
      → get job_id i w.jobs.rows ≡ some fresh
      → Agrees i (conclude worker s3 site database others now i key summary fresh w)
  unfolding mark_success Agrees
  conclude-Agrees i key summary fresh w e = elim (Bool-cases (str_eq fresh.status "cancelled")) [
    | inl c ↦
        rw c (ap status_of e ∙ ap (λ (s : String). some s) ((eq_iff fresh.status "cancelled").0 c))
    | inr c ↦ elim (Option-cases (database Session.storing)) [
      | inr (x, d) ↦ rw (c, d) tt
      | inl d ↦
          rw (c, d, e)
            (written_status i (succeeded now key (some summary) fresh) fresh w.jobs refl e)
    ]
  ]

  check_again-Agrees :
      (i : ℕ) (key : Option String) (summary : Json) (w : World Json Store)
      → Agrees i (check_again worker s3 site database others now i key summary w)
  unfolding Agrees
  check_again-Agrees i key summary w = elim (Option-cases (database Session.rechecking)) [
    | inr (x, d) ↦ rw d tt
    | inl d ↦ elim (Option-cases (get job_id i w.jobs.rows)) [
      | inl e ↦ rw (d, e) tt
      | inr (job, e) ↦ rw (d, e) (conclude-Agrees i key summary job w e)
    ]
  ]

  upload-Agrees :
      (i : ℕ) (output : AnalysisOutput Json) (w : World Json Store)
      → Agrees i (upload worker s3 site database others now i output w)
  unfolding Agrees
  upload-Agrees i output w = go output.artifact
    where
      go :
          (artifact : Option (List ℕ))
          → Agrees i (
              upload worker s3 site database others now i (record output { artifact = artifact }) w)
      go none = check_again-Agrees i none output.summary _
      go (some artifact) =
          let key = result_key worker s3 site database others now i output.artifact_name in
          elim (result-cases (put_bytes s3 key artifact w.store).0) [
            | inr (e, f) ↦ rw f tt
            | inl (done, f) ↦ rw f (check_again-Agrees i (some key) output.summary _)
          ]

  deliver-Agrees :
      (i : ℕ) (output : AnalysisOutput Json) (fresh : AnalysisJob Json) (w : World Json Store)
      → get job_id i w.jobs.rows ≡ some fresh
      → Agrees i (deliver worker s3 site database others now i output fresh w)
  unfolding Agrees
  deliver-Agrees i output fresh w e = elim (Bool-cases (str_eq fresh.status "cancelled")) [
    | inl c ↦
        rw c (ap status_of e ∙ ap (λ (s : String). some s) ((eq_iff fresh.status "cancelled").0 c))
    | inr c ↦ rw c (upload-Agrees i output w)
  ]

  computed-Agrees :
      (i : ℕ) (result : Result (AnalysisOutput Json)) (w : World Json Store)
      → Agrees i (computed worker s3 site database others now i result w)
  unfolding Agrees
  computed-Agrees i (err e) w = fail-Agrees i _ _ w refl
  computed-Agrees i (ok output) w = elim (Option-cases (database Session.checking)) [
    | inr (x, d) ↦ rw d tt
    | inl d ↦ elim (Option-cases (get job_id i w.jobs.rows)) [
      | inl e ↦ rw (d, e) tt
      | inr (job, e) ↦ rw (d, e) (deliver-Agrees i output job w e)
    ]
  ]

  finish-Agrees :
      (i : ℕ) (params : Json) (p : Prepared Json Float) (w : World Json Store)
      → Agrees i (finish worker s3 site database others now i params p w)
  finish-Agrees i params (refused error reason) w = fail-Agrees i _ _ w refl
  finish-Agrees i params (ready plugin input) w = computed-Agrees i (plugin.analyze input params) w

  started-Agrees :
      (i : ℕ) (job : AnalysisJob Json) (w : World Json Store)
      → Agrees i (take_on worker s3 site database others now i job w)
  unfolding Agrees
  started-Agrees i job w = elim (Option-cases (database Session.starting)) [
    | inr (x, d) ↦ rw d tt
    | inl d ↦ elim (result-cases (mark_running now i w.jobs).0) [
      | inr (x, f) ↦ rw (d, f) tt
      | inl (done, f) ↦ elim (Option-cases (database Session.preparing)) [
        | inr (x, p) ↦ rw (d, f, p) tt
        | inl p ↦ elim (result-cases (prepare worker site job)) [
          | inr (x, g) ↦ rw (d, f, p, g) tt
          | inl (q, g) ↦ rw (d, f, p, g) (finish-Agrees i job.params q _)
        ]
      ]
    ]
  ]

  -- Whatever other processes do to the jobs while a run waits, and whatever the database, the plugin and the
  -- store answer: if the run returns a report, then its job is in the state of that report.
  pub run-Agrees :
      (i : ℕ) (w : World Json Store) → Agrees i (run worker s3 site database others now i w)
  unfolding run Agrees
  run-Agrees i w = elim (Option-cases (database Session.loading)) [
    | inr (x, d) ↦ rw d tt
    | inl d ↦ elim (Option-cases (get job_id i w.jobs.rows)) [
      | inl e ↦ rw (d, e) tt
      | inr (job, e) ↦
          rw (d, e) (started-Agrees i job (record w { jobs = others Moment.taken w.jobs }))
    ]
  ]
