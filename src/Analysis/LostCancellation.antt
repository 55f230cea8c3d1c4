-- ===== src/Analysis/LostCancellation.antt =====
-- A job that is cancelled while its plugin computes, where the plugin then raises.
use zhiwei_backend.Prelude.{ℕ, ◌≡◌, refl, ap, ◌∙◌, List, some, Exception, ok, err, ==_self}
use zhiwei_backend.Prelude.Rows.{get, put}
use zhiwei_backend.Storage.{S3}
use zhiwei_backend.Analysis.Jobs.{
  AnalysisJob, JobTable, job_id, mark_failed, cancel_job, started, cancelled, failed,
}
use zhiwei_backend.Analysis.Transitions.{status_of, status_at, written_job}
use zhiwei_backend.Analysis.Plugins.{AnalysisInput, AnalysisPlugin, Worker}
use zhiwei_backend.Analysis.Samples.{Site, prepare, ready}
use zhiwei_backend.Analysis.Run.{World, Moment, Report, working, fail, run}
use zhiwei_backend.Analysis.Retries.{started_job, mark_running-started}
use zhiwei_backend.Analysis.Cancellation.{cancelling, cancel_job-found}

module _ {Json Float Store : Type 0} (worker : Worker Json Float) (s3 : S3 Store)
    (site : Site Json Float) (now : ℕ) where
  -- the `except` branch on a job that is there, whatever its state
  fail-status :
      (others : Moment → JobTable Json → JobTable Json) (i : ℕ) (error : List ℕ) (report : Report)
      (job : AnalysisJob Json) (w : World Json Store)
      → get job_id i w.jobs.rows ≡ some job
      → let out = fail worker s3 site working others now i error report w in
        (out.0 ≡ ok report) × (status_at i out.1.jobs ≡ some "failed")
  unfolding mark_failed
  fail-status others i error report job w e =
      let stored : get job_id i (put job_id (failed now error job) w.jobs.rows)
          ≡ some (failed now error job) =
        written_job i i (failed now error job) job w.jobs refl e ∙ rw ==_self refl in
      rw e (refl, ap status_of stored)

  -- The jobs while the plugin computes.
  abbrev pub jobs_computing : ℕ → AnalysisJob Json → World Json Store → JobTable Json
  jobs_computing i job w = record w.jobs { rows = put job_id (started now job) w.jobs.rows }

  -- The cancellation of a job is lost when its plugin raises: for a pending job whose plugin gets its input
  -- and then raises, if no session of the database fails, another process cancels the job while the plugin computes, and nothing else happens to
  -- the jobs, then that call of `cancel_job` returns, having found the job running, and the job is cancelled;
  -- but the run reports the failure with the exception's text, and at its end the job is failed.
  pub run-mark_failed :
      (later i : ℕ) (job : AnalysisJob Json) (plugin : AnalysisPlugin Json Float)
      (input : AnalysisInput Float) (e : Exception) (w : World Json Store)
      → get job_id i w.jobs.rows ≡ some job
      → job.status ≡ "pending"
      → prepare worker site job ≡ ok (ready plugin input)
      → plugin.analyze input job.params ≡ err e
      → let out = run worker s3 site working (cancelling Moment.computing later i) now i w in
        let (answer, jobs) = cancel_job later i (jobs_computing i job w) in
        (answer ≡ ok "running")
        × (status_at i jobs ≡ some "cancelled")
        × (out.0 ≡ ok (Report.failed_with (worker.str_exception e)))
        × (status_at i out.1.jobs ≡ some "failed")
  unfolding run
  run-mark_failed later i job plugin input e w found pending is_ready raised =
      let m = mark_running-started worker s3 site working now i job w.jobs found pending in
      let now_running = started_job worker s3 site working now i job w.jobs found in
      let gone =
        cancel_job-found later i (started now job) (jobs_computing i job w) now_running refl in
      let ends =
        fail-status (cancelling Moment.computing later i) i (worker.str_exception e)
          (Report.failed_with (worker.str_exception e)) (cancelled later (started now job))
          (record w { jobs = (cancel_job later i (jobs_computing i job w)).1 }) gone in
      (
        (unfold cancel_job in rw now_running refl),
        ap status_of gone,
        rw (found, m, is_ready, raised) ends.0,
        rw (found, m, is_ready, raised) ends.1,
      )
