-- ===== src/Analysis/Jobs.antt =====
-- The table of app/models/analysis.py and the operations of app/services/analysis_service.py. Objects of
-- JSON are of a type that is not looked into; texts of errors are the numbers of their characters, and
-- `now` is the value of `datetime.now(UTC)`.
use zhiwei_backend.Prelude.{
  Done, ℕ, suc, Bool, not, ◌||◌, List, [], ◌∷◌, ◌++◌, Option, none, some, String, str_eq, Action,
  ok, biz_exception, pure, raise_if, some_or, take, ◌>>=◌, ◌>>◌,
}
use Prim.Native.String.{◌++◌ as str_append}
use zhiwei_backend.Prelude.Rows.{get, put}

pub record AnalysisJob (Json : Type 0) : Type 0 where
  pub id : ℕ
  pub channel_id : ℕ
  pub plugin : String
  pub params : Json
  pub submitted_by : Option ℕ
  pub status : String
  pub result_key : Option String
  pub result_summary : Option Json
  pub error : Option (List ℕ)
  pub started_at : Option ℕ
  pub finished_at : Option ℕ

-- `next_id` is the sequence of the primary key.
pub record JobTable (Json : Type 0) : Type 0 where
  pub rows : List (AnalysisJob Json)
  pub next_id : ℕ

-- membership in `CANCELLABLE_STATUSES`
abbrev pub is_cancellable : String → Bool
is_cancellable status = str_eq status "pending" || str_eq status "running"

abbrev pub not_running_message : String → String
not_running_message status = str_append "任务状态为 " (str_append status "，无法进入 running")

abbrev pub not_cancellable_message : String → String
not_cancellable_message status = str_append "任务不可取消（当前 status=" (str_append status "）")

module _ {Json : Type 0} where
  abbrev pub job_id : AnalysisJob Json → ℕ
  job_id job = job.id

  -- `db.flush()` after a change of one mapped object
  abbrev pub flush : AnalysisJob Json → Action (JobTable Json) Done
  flush job t = (ok tt, record t { rows = put job_id job t.rows })

  abbrev pub new_job : ℕ → String → Json → Option ℕ → ℕ → AnalysisJob Json
  new_job channel_id plugin params submitted_by i = record {
    id = i;
    channel_id = channel_id;
    plugin = plugin;
    params = params;
    submitted_by = submitted_by;
    status = "pending";
    result_key = none;
    result_summary = none;
    error = none;
    started_at = none;
    finished_at = none;
  }

  unfoldable pub create_job :
      ℕ → String → Json → Option ℕ → Action (JobTable Json) (AnalysisJob Json)
  create_job channel_id plugin params submitted_by t =
      let job = new_job channel_id plugin params submitted_by t.next_id in
      (ok job, record { rows = t.rows ++ job ∷ []; next_id = suc t.next_id })

  abbrev pub get_job : ℕ → Action (JobTable Json) (AnalysisJob Json)
  get_job i t = some_or (get job_id i t.rows) (biz_exception "ANALYSIS_JOB_NOT_FOUND" "任务不存在" 404) t

  abbrev pub started : ℕ → AnalysisJob Json → AnalysisJob Json
  started now job = record job { status = "running"; started_at = some now }

  unfoldable pub mark_running : ℕ → ℕ → Action (JobTable Json) Done
  mark_running now i = do
    job ← get_job i
    raise_if (not (str_eq job.status "pending"))
        (biz_exception "ANALYSIS_JOB_NOT_RUNNING" (not_running_message job.status) 409)
    flush (started now job)

  abbrev pub cancelled : ℕ → AnalysisJob Json → AnalysisJob Json
  cancelled now job = record job { status = "cancelled"; finished_at = some now }

  unfoldable pub cancel_job : ℕ → ℕ → Action (JobTable Json) String
  cancel_job now i = do
    job ← get_job i
    raise_if (not (is_cancellable job.status))
        (biz_exception "ANALYSIS_JOB_NOT_CANCELLABLE" (not_cancellable_message job.status) 409)
    flush (cancelled now job)
    pure job.status

  abbrev pub succeeded : ℕ → Option String → Option Json → AnalysisJob Json → AnalysisJob Json
  succeeded now result_key result_summary job = record job {
    status = "success";
    result_key = result_key;
    result_summary = result_summary;
    finished_at = some now;
  }

  unfoldable pub mark_success : ℕ → ℕ → Option String → Option Json → Action (JobTable Json) Done
  mark_success now i result_key result_summary = do
    job ← get_job i
    flush (succeeded now result_key result_summary job)

  abbrev pub failed : ℕ → List ℕ → AnalysisJob Json → AnalysisJob Json
  failed now error job = record job {
    status = "failed";
    error = some (take 2000 error);
    finished_at = some now;
  }

  unfoldable pub mark_failed : ℕ → ℕ → List ℕ → Action (JobTable Json) Done
  mark_failed now i error = do job ← get_job i; flush (failed now error job)
