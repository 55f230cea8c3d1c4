-- ===== src/Analysis/RoundTrip.antt =====
-- From the run of a job to the download of its artifact.
use zhiwei_backend.Prelude.{
  ℕ, ◌≡◌, refl, sym, ap, ◌∙◌, List, some, arith, subst, Result, ok, ==_self,
}
use Prim.Native.String.{◌++◌ as str_append}
use zhiwei_backend.Prelude.Rows.{get, put}
use zhiwei_backend.Prelude.Rows.Laws.{get-id}
use zhiwei_backend.Prelude.Texts.{append-nonempty}
use zhiwei_backend.Storage.{S3, Stores, put_bytes, get_bytes}
use zhiwei_backend.Users.Table.{User}
use zhiwei_backend.Access.Guards.{check_project_access}
use zhiwei_backend.Inventory.Records.{Channel, channel_key}
use zhiwei_backend.Analysis.Jobs.{AnalysisJob, job_id, mark_success, started, succeeded}
use zhiwei_backend.Analysis.Transitions.{written_job}
use zhiwei_backend.Analysis.Plugins.{AnalysisInput, AnalysisOutput, AnalysisPlugin, Worker}
use zhiwei_backend.Analysis.Samples.{Site, Prepared, prepare, channel_project}
use zhiwei_backend.Analysis.Run.{World, Report, working, run, result_key}
use zhiwei_backend.Analysis.Retries.{undisturbed, mark_running-started, started_job}
use zhiwei_backend.Analysis.Requests
use zhiwei_backend.Analysis.Requests.{get_job_result, check_channel_project}

module _ {Json Float Store : Type 0} (worker : Worker Json Float) (s3 : S3 Store)
    (site : Site Json Float) (now : ℕ) where
  -- What has to hold for a job to be computed and its artifact to be kept.
  pub record Computes (i : ℕ) (job : AnalysisJob Json) (output : AnalysisOutput Json)
      (artifact : List ℕ) (w : World Json Store) : Type 0 where
    pub found : get job_id i w.jobs.rows ≡ some job
    pub pending : job.status ≡ "pending"
    pub plugin : AnalysisPlugin Json Float
    pub input : AnalysisInput Float
    pub is_ready : prepare worker site job ≡ ok (Prepared.ready plugin input)
    pub analyzed : plugin.analyze input job.params ≡ ok output
    pub has_artifact : output.artifact ≡ some artifact
    pub kept :
        (put_bytes s3
          (result_key worker s3 site working undisturbed now i output.artifact_name)
          artifact
          w.store).0
        ≡ ok tt

  after_run :
      ℕ → AnalysisJob Json → AnalysisOutput Json → List ℕ → World Json Store → World Json Store
  after_run i job output artifact w =
      let key = result_key worker s3 site working undisturbed now i output.artifact_name in
      let running = put job_id (started now job) w.jobs.rows in
      let done = succeeded now (some key) (some output.summary) (started now job) in
      record {
        jobs = record w.jobs { rows = put job_id done running };
        store = (put_bytes s3 key artifact w.store).1;
      }

  run-success :
      (i : ℕ) (job : AnalysisJob Json) (output : AnalysisOutput Json) (artifact : List ℕ)
      (w : World Json Store)
      → Computes i job output artifact w
      → run worker s3 site working undisturbed now i w ≡ (
        ok (
            Report.success
              (some (result_key worker s3 site working undisturbed now i output.artifact_name))),
        after_run i job output artifact w,
      )
  unfolding run mark_success after_run
  run-success i job output artifact w c =
      let m = mark_running-started worker s3 site working now i job w.jobs c.found c.pending in
      let f = started_job worker s3 site working now i job w.jobs c.found in
      rw (c.found, m, c.is_ready, c.analyzed, f, c.has_artifact, c.kept, f, f) refl

  -- The job of a run that succeeded.
  written :
      (i : ℕ) (job : AnalysisJob Json) (output : AnalysisOutput Json) (artifact : List ℕ)
      (w : World Json Store)
      → Computes i job output artifact w
      → get job_id i (after_run i job output artifact w).jobs.rows
        ≡ some (
            succeeded now
              (some (result_key worker s3 site working undisturbed now i output.artifact_name))
              (some output.summary)
              (started now job))
  unfolding after_run
  written i job output artifact w c =
      let f = started_job worker s3 site working now i job w.jobs c.found in
      written_job i i _ (started now job)
        (record w.jobs { rows = put job_id (started now job) w.jobs.rows }) refl f
      ∙ rw ==_self refl

  -- A user who may read the project of a job's channel gets the artifact of its plugin, byte by byte, once
  -- the job was run: where the job was pending, the plugin was found and had its channels and samples, it
  -- returned an output with an artifact, no session of the database failed, the store kept the artifact and gives back what it keeps, and no
  -- other process changed the jobs, the run succeeds and the download returns that artifact.
  pub run-get_job_result :
      (i : ℕ) (job : AnalysisJob Json) (output : AnalysisOutput Json) (artifact : List ℕ)
      (w : World Json Store) (user : User) (channel : Channel Json) (project : ℕ)
      → Stores s3
      → Computes i job output artifact w
      → get channel_key job.channel_id site.inventory.channels.rows ≡ some channel
      → channel_project site.inventory channel ≡ some project
      → check_project_access user project site.inventory.links ≡ ok tt
      → let out = run worker s3 site working undisturbed now i w in
        (out.0
          ≡ ok (
              Report.success
                (some (result_key worker s3 site working undisturbed now i output.artifact_name))))
        × ((get_job_result s3 site.inventory user i out.1).0 ≡ ok artifact)
  unfolding get_job_result Requests.get_job check_channel_project put_bytes get_bytes after_run
  run-get_job_result i job output artifact w user channel project stores c at of_project allowed =
      let r = run-success i job output artifact w c in
      let own : get channel_key channel.id site.inventory.channels.rows ≡ some channel =
        subst (λ (k : ℕ). get channel_key k site.inventory.channels.rows ≡ some channel)
          (sym (get-id channel_key job.channel_id site.inventory.channels.rows channel at)) at in
      let f = written i job output artifact w c in
      let nonempty =
        append-nonempty "analysis/"
          (str_append (worker.str_int i) (str_append "/" output.artifact_name)) (omega arith) in
      (
        ap (λ (out : Result Report × World Json Store). out.0) r,
        rw (r, f, at, own, of_project, allowed, nonempty) (stores.got _ artifact w.store c.kept),
      )
