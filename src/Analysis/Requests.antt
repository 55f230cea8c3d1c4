-- ===== src/Analysis/Requests.antt =====
-- The requests of app/routers/analysis.py on one job, and `check_channel_project` of
-- app/services/data_service.py. The broker's answer to a new task is an argument; the name and the media
-- type of a download are left out, and the database answers.
use zhiwei_backend.Prelude.{
  Done, ℕ, Bool, not, ◌||◌, List, [], ◌∷◌, ◌++◌, Option, none, some, String, str_eq, if◌then◌else◌,
  Action, Exception, Result, ok, err, biz_exception, pure, raise_if, lift, modify, some_or, ◌>>=◌,
  ◌>>◌,
}
use Prim.Native.String.{◌++◌ as str_append}
use zhiwei_backend.Prelude.Rows.{get}
use zhiwei_backend.Storage.{S3, get_bytes}
use zhiwei_backend.Users.Table.{User}
use zhiwei_backend.Access.Guards.{check_project_access, check_project_write_access}
use zhiwei_backend.Inventory.Records.{Channel, Inventory, channel_key}
use zhiwei_backend.Inventory.Devices.{is_registered}
use zhiwei_backend.Analysis.Jobs
use zhiwei_backend.Analysis.Jobs.{AnalysisJob, JobTable}
use zhiwei_backend.Analysis.Samples.{channel_project}
use zhiwei_backend.Analysis.Run.{World, session, request}

-- The tasks that the broker holds, and those that were revoked, with `terminate`.
pub record Broker : Type 0 where
  pub queue : List ℕ
  pub revoked : List (ℕ × Bool)

pub record Desk (Json Store : Type 0) : Type 0 where
  pub world : World Json Store
  pub broker : Broker

pub record AnalysisJobCreate (Json : Type 0) : Type 0 where
  pub channel_id : ℕ
  pub plugin : String
  pub params : Json

-- the names of the plugins are left out of the message
unfoldable pub validate_plugin : {S : Type 0} → List String → String → Action S Done
validate_plugin names name =
    raise_if (not (is_registered name names)) (biz_exception "PLUGIN_NOT_REGISTERED" "未注册的分析插件" 422)

abbrev pub not_ready_message : String → String
not_ready_message status = str_append "任务未完成 (status=" (str_append status ")")

module _ {Json : Type 0} where
  abbrev pub joined_project : Inventory Json → Option (Channel Json) → Option ℕ
  joined_project inventory none = none
  joined_project inventory (some c) = channel_project inventory c

  -- The project that a channel belongs to; a query without a row is a missing channel.
  unfoldable pub check_channel_project : {S : Type 0} → Inventory Json → ℕ → Action S ℕ
  check_channel_project inventory i =
      some_or (joined_project inventory (get channel_key i inventory.channels.rows))
        (biz_exception "CHANNEL_NOT_FOUND" "通道不存在" 404)

  -- `channel = await db.get(Channel, job.channel_id)`, whose `id` is read
  abbrev pub channel_of : {S : Type 0} → Inventory Json → AnalysisJob Json → Action S (Channel Json)
  channel_of inventory job =
      some_or (get channel_key job.channel_id inventory.channels.rows) Exception.attribute_error

module _ {Json Store : Type 0} where
  abbrev pub on_world :
      {A : Type 0} → Desk Json Store → Result A × World Json Store → Result A × Desk Json Store
  on_world d (r, w) = (r, record d { world = w })

  abbrev pub in_world : {A : Type 0} → Action (World Json Store) A → Action (Desk Json Store) A
  in_world m d = on_world d (m d.world)

  -- a broker that does not answer leaves the job pending
  abbrev pub dispatched : Result Done → ℕ → Action (Desk Json Store) Done
  dispatched (ok done) i =
      modify (λ d. record d { broker = record d.broker { queue = d.broker.queue ++ i ∷ [] } })
  dispatched (err e) i = pure tt

  unfoldable pub submit_job :
      Inventory Json
      → List String
      → Result Done
      → User
      → AnalysisJobCreate Json
      → Action (Desk Json Store) (AnalysisJob Json)
  submit_job inventory names broker_answer current_user payload = do
    project ← check_channel_project inventory payload.channel_id
    lift (check_project_write_access current_user project inventory.links)
    validate_plugin names payload.plugin
    job ← in_world (
        session none
          (Jobs.create_job payload.channel_id payload.plugin payload.params (some current_user.id)))
    dispatched broker_answer job.id
    pure job

  abbrev pub revoke : ℕ → Bool → Action (Desk Json Store) Done
  revoke i terminate = modify (λ d. record d {
    broker = record d.broker { revoked = d.broker.revoked ++ (i, terminate) ∷ [] };
  })

  unfoldable pub cancel_job : ℕ → Inventory Json → User → ℕ → Action (Desk Json Store) String
  cancel_job now inventory current_user i = do
    job ← in_world (session none (Jobs.get_job i))
    channel ← channel_of inventory job
    project ← check_channel_project inventory channel.id
    lift (check_project_write_access current_user project inventory.links)
    previous ← in_world (session none (Jobs.cancel_job now i))
    revoke i (str_eq previous "running")
    pure previous

  unfoldable pub get_job : Inventory Json → User → ℕ → Action (World Json Store) (AnalysisJob Json)
  get_job inventory current_user i = do
    job ← session none (Jobs.get_job i)
    channel ← channel_of inventory job
    project ← check_channel_project inventory channel.id
    lift (check_project_access current_user project inventory.links)
    pure job

  abbrev pub not_ready : {A : Type 0} → AnalysisJob Json → Action (World Json Store) A
  not_ready job w =
      (err (biz_exception "ANALYSIS_RESULT_NOT_READY" (not_ready_message job.status) 409), w)

  -- `job.status != "success" or not job.result_key`
  abbrev pub downloaded :
      S3 Store → AnalysisJob Json → Option String → Action (World Json Store) (List ℕ)
  downloaded s3 job none = not_ready job
  downloaded s3 job (some key) =
      if not (str_eq job.status "success") || str_eq key ""
      then not_ready job
      else request (get_bytes s3 key)

  unfoldable pub get_job_result :
      S3 Store → Inventory Json → User → ℕ → Action (World Json Store) (List ℕ)
  get_job_result s3 inventory current_user i = do
    job ← get_job inventory current_user i
    downloaded s3 job job.result_key
