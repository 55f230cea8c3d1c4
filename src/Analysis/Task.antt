-- ===== src/Analysis/Task.antt =====
-- `run_analysis_job` of app/tasks/analysis_tasks.py: Celery gives the job to a worker again when an
-- attempt raised, `max_retries` times at most. The attempts are numbered down to 0.
use zhiwei_backend.Prelude.{ℕ, zero, suc, Option, Exception, Action, Result, ok, err}
use zhiwei_backend.Storage.{S3}
use zhiwei_backend.Analysis.Jobs.{JobTable}
use zhiwei_backend.Analysis.Plugins.{Worker}
use zhiwei_backend.Analysis.Samples.{Site}
use zhiwei_backend.Analysis.Run.{World, Moment, Session, Report, run}

abbrev pub max_retries : ℕ
max_retries = 2

module _ {Json Float Store : Type 0} (worker : Worker Json Float) (s3 : S3 Store)
    (site : Site Json Float) (databases : ℕ → Session → Option Exception)
    (others : ℕ → Moment → JobTable Json → JobTable Json) (now : ℕ → ℕ) where
  abbrev pub attempt : ℕ → ℕ → Action (World Json Store) Report
  attempt n i = run worker s3 site (databases n) (others n) (now n) i

  abbrev pub retried :
      Result Report × World Json Store
      → Action (World Json Store) Report
      → Result Report × World Json Store
  retried (ok report, w) again = (ok report, w)
  retried (err e, w) again = again w

  abbrev pub attempts : ℕ → ℕ → Action (World Json Store) Report
  attempts zero i w = attempt zero i w
  attempts (suc n) i w = retried (attempt (suc n) i w) (attempts n i)

  unfoldable pub run_analysis_job : ℕ → Action (World Json Store) Report
  run_analysis_job i = attempts max_retries i
