-- ===== src/Analysis/Run.antt =====
-- `_run` of app/tasks/analysis_tasks.py. Between its sessions other processes may change the jobs:
-- `others` says what they do after the job was read, while the plugin computes, and while the artifact
-- is uploaded, and `database` which sessions fail.
use zhiwei_backend.Prelude.{
  Done, ℕ, List, Option, none, some, String, str_eq, if◌then◌else◌, Action, Exception, Result, ok,
  err, pure, lift, modify, ◌>>=◌, ◌>>◌,
}
use Prim.Native.String.{◌++◌ as str_append}
use zhiwei_backend.Prelude.Texts.{codes}
use zhiwei_backend.Storage.{S3, put_bytes}
use zhiwei_backend.Analysis.Jobs.{
  AnalysisJob, JobTable, get_job, mark_running, mark_failed, mark_success,
}
use zhiwei_backend.Analysis.Plugins.{AnalysisOutput, Worker}
use zhiwei_backend.Analysis.Samples.{Site, Prepared, prepare, refused, ready}

pub record World (Json Store : Type 0) : Type 0 where
  pub jobs : JobTable Json
  pub store : Store

pub data Moment : Type 0 where
  taken computing uploading : Moment

-- The sessions of the database: the last one has its query and its commit.
pub data Session : Type 0 where
  loading starting preparing failing checking rechecking storing : Session

-- A database that fails no session.
abbrev pub working : Session → Option Exception
working s = none

-- What `_run` returns.
pub data Report : Type 0 where
  success : Option String → Report
  failed : String → Report
  failed_with : List ℕ → Report
  cancelled : String → Report

-- The states of the database between the sessions: what a session does to the jobs, and what a call of
-- the store does to the store.
module _ {Json Store : Type 0} where
  abbrev pub with_jobs :
      {A : Type 0} → World Json Store → Result A × JobTable Json → Result A × World Json Store
  with_jobs w (r, jobs) = (r, record w { jobs = jobs })

  -- A session that the database fails raises, and what it had written is rolled back.
  abbrev pub session :
      {A : Type 0} → Option Exception → Action (JobTable Json) A → Action (World Json Store) A
  session none m w = with_jobs w (m w.jobs)
  session (some e) m w = (err e, w)

  abbrev pub with_store :
      {A : Type 0} → World Json Store → Result A × Store → Result A × World Json Store
  with_store w (r, store) = (r, record w { store = store })

  abbrev pub request : {A : Type 0} → Action Store A → Action (World Json Store) A
  request m w = with_store w (m w.store)

-- `except BizException`: a job that cannot start any more is left to Celery as ignored.
abbrev pub ignore_taken : Exception → Exception
ignore_taken (Exception.biz e) =
    if str_eq e.code "ANALYSIS_JOB_NOT_RUNNING" then Exception.ignore else Exception.biz e
ignore_taken e = e

module _ {Json Float Store : Type 0} (worker : Worker Json Float) (s3 : S3 Store)
    (site : Site Json Float) (database : Session → Option Exception)
    (others : Moment → JobTable Json → JobTable Json) (now : ℕ) where
  open worker use {str_exception, str_int}

  abbrev pub wait : Moment → Action (World Json Store) Done
  wait moment = modify (λ w. record w { jobs = others moment w.jobs })

  abbrev pub begun : Result Done × World Json Store → Result Done × World Json Store
  begun (ok x, w) = (ok x, w)
  begun (err e, w) = (err (ignore_taken e), w)

  abbrev pub begin : ℕ → Action (World Json Store) Done
  begin i w = begun (session (database Session.starting) (mark_running now i) w)

  abbrev pub fail : ℕ → List ℕ → Report → Action (World Json Store) Report
  fail i error report = do session (database Session.failing) (mark_failed now i error); pure report

  abbrev pub result_key : ℕ → String → String
  result_key i name = str_append "analysis/" (str_append (str_int i) (str_append "/" name))

  abbrev pub stored : ℕ → String → Option (List ℕ) → Action (World Json Store) (Option String)
  stored i name none = pure none
  stored i name (some artifact) = do
    request (put_bytes s3 (result_key i name) artifact)
    pure (some (result_key i name))

  abbrev pub succeed : ℕ → Option String → Json → Action (World Json Store) Report
  succeed i key summary = do
    session (database Session.storing) (mark_success now i key (some summary))
    pure (Report.success key)

  abbrev pub conclude :
      ℕ → Option String → Json → AnalysisJob Json → Action (World Json Store) Report
  conclude i key summary fresh =
      if str_eq fresh.status "cancelled"
      then pure (Report.cancelled "revoked_during_upload")
      else succeed i key summary

  -- the second check, after the upload
  abbrev pub check_again : ℕ → Option String → Json → Action (World Json Store) Report
  check_again i key summary = do
    fresh ← session (database Session.rechecking) (get_job i)
    conclude i key summary fresh

  abbrev pub upload : ℕ → AnalysisOutput Json → Action (World Json Store) Report
  upload i output = do
    key ← stored i output.artifact_name output.artifact
    wait Moment.uploading
    check_again i key output.summary

  -- the first check, when the plugin has returned
  abbrev pub deliver : ℕ → AnalysisOutput Json → AnalysisJob Json → Action (World Json Store) Report
  deliver i output fresh =
      if str_eq fresh.status "cancelled"
      then pure (Report.cancelled "revoked_after_finish")
      else upload i output

  abbrev pub computed : ℕ → Result (AnalysisOutput Json) → Action (World Json Store) Report
  computed i (err e) = fail i (str_exception e) (Report.failed_with (str_exception e))
  computed i (ok output) = do
    fresh ← session (database Session.checking) (get_job i)
    deliver i output fresh

  abbrev pub finish : ℕ → Json → Prepared Json Float → Action (World Json Store) Report
  finish i params (refused error reason) = fail i (codes error) (Report.failed reason)
  finish i params (ready plugin input) = computed i (plugin.analyze input params)

  -- the part after the first session
  abbrev pub take_on : ℕ → AnalysisJob Json → Action (World Json Store) Report
  take_on i job = do
    begin i
    prepared ← session (database Session.preparing) (lift (prepare worker site job))
    wait Moment.computing
    finish i job.params prepared

  unfoldable pub run : ℕ → Action (World Json Store) Report
  run i = do job ← session (database Session.loading) (get_job i); wait Moment.taken; take_on i job
