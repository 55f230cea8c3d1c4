-- ===== src/Models/Settling.antt =====
-- What the conversion of a model leaves.
use zhiwei_backend.Prelude.{
  ℕ, ◌≡◌, refl, sym, ◌∙◌, List, some, String, Bool-cases, inl, inr, Exception, ok, err, ==_self,
  subst,
}
use zhiwei_backend.Prelude.Rows.{get, put}
use zhiwei_backend.Prelude.Rows.Laws.{result-cases, get-id, get-put}
use zhiwei_backend.Prelude.Rows.Tables.{Table}
use zhiwei_backend.Storage.{S3, Stores, put_bytes, get_bytes}
use zhiwei_backend.Models.Service.{
  Model, model_key, mark_running, mark_success, mark_failed, processing, succeeded, failed,
}
use zhiwei_backend.Models.Convert.{Trimesh, convert_bytes}
use zhiwei_backend.Models.Task.{
  Gallery, Report, is_value_error, glb_key_of, fail, finish, run, caught, mark_failed_async,
  convert_model_task,
}

-- A write of the model under a key, as the later queries see it.
written_model :
    (i : ℕ) (m old : Model) (rows : List Model)
    → m.id ≡ old.id
    → get model_key i rows ≡ some old
    → get model_key i (put model_key m rows) ≡ some m
written_model i m old rows same e =
    let own : m.id ≡ i = same ∙ get-id model_key i rows old e in
    get-put model_key i m old rows (subst (λ (n : ℕ). get model_key n rows ≡ some old) (sym own) e)
    ∙ rw (own, ==_self) refl

mark_running-started :
    (i : ℕ) (m : Model) (t : Table Model)
    → get model_key i t.rows ≡ some m
    → mark_running i t ≡ (ok tt, record t { rows = put model_key (processing m) t.rows })
unfolding mark_running
mark_running-started i m t e = rw e refl

module _ {Scene Store : Type 0} (trimesh : Trimesh Scene) (s3 : S3 Store) (str_int : ℕ → String)
    (str_exception : Exception → List ℕ) (hex : String) (now : ℕ) where
  -- A report, and what it says of the model `m` that was converted: a success has a file that can be got
  -- and is the conversion of what the store held, a failure is kept with its error.
  pub Settled : ℕ → Model → Gallery Store → Report × Gallery Store → Type 0
  Settled i m g (Report.success key, g') =
      (m' : Model) × (bytes : List ℕ) × (glb : List ℕ) × (get model_key i g'.models.rows ≡ some m')
      × (m'.status ≡ "success")
      × (m'.glb_key ≡ some key)
      × ((get_bytes s3 m.original_key g.store).0 ≡ ok bytes)
      × (convert_bytes trimesh bytes m.source_format ≡ ok glb)
      × ((get_bytes s3 key g'.store).0 ≡ ok glb)
  Settled i m g (Report.failed error, g') =
      (m' : Model) × (get model_key i g'.models.rows ≡ some m')
      × (m'.status ≡ "failed")
      × (m'.error ≡ some error)

  caught-Settled :
      (i : ℕ) (m old : Model) (e : Exception) (g g' : Gallery Store)
      → get model_key i g'.models.rows ≡ some old
      → Settled i m g (caught trimesh s3 str_int str_exception hex now i (err e, g'))
  unfolding Settled mark_failed_async mark_failed
  caught-Settled i m old e g g' found = rw found (
    failed now (str_exception e) old,
    written_model i (failed now (str_exception e) old) old g'.models.rows refl found,
    refl,
    refl,
  )

  fail-Settled :
      (i : ℕ) (m old : Model) (error : List ℕ) (g g' : Gallery Store)
      → get model_key i g'.models.rows ≡ some old
      → Settled i m g (
          caught trimesh s3 str_int str_exception hex now i
            (fail trimesh s3 str_int str_exception hex now i error g'))
  unfolding Settled mark_failed
  fail-Settled i m old error g g' found = rw found (
    failed now error old,
    written_model i (failed now error old) old g'.models.rows refl found,
    refl,
    refl,
  )

  finish-Settled :
      (i : ℕ) (m old : Model) (bytes : List ℕ) (g g' : Gallery Store)
      → Stores s3
      → get model_key i g'.models.rows ≡ some old
      → (get_bytes s3 m.original_key g.store).0 ≡ ok bytes
      → Settled i m g (
          caught trimesh s3 str_int str_exception hex now i (
            finish trimesh s3 str_int str_exception hex now i m
              (convert_bytes trimesh bytes m.source_format)
              g'))
  unfolding Settled mark_success put_bytes get_bytes
  finish-Settled i m old bytes g g' stores found source =
      elim (result-cases (convert_bytes trimesh bytes m.source_format)) [
        | inr (e, f) ↦ elim (Bool-cases (is_value_error e)) [
          | inl v ↦ rw (f, v) (fail-Settled i m old (str_exception e) g g' found)
          | inr v ↦ rw (f, v) (caught-Settled i m old e g g' found)
        ]
        | inl (glb, f) ↦
            let key = glb_key_of trimesh s3 str_int str_exception hex now m.project_id in
            elim (result-cases (put_bytes s3 key glb g'.store).0) [
              | inr (e, p) ↦ rw (f, p) (caught-Settled i m old e g _ found)
              | inl (done, p) ↦
                  rw (f, p, found)
                    (
                      succeeded now key old,
                      bytes,
                      glb,
                      written_model i (succeeded now key old) old g'.models.rows refl found,
                      refl,
                      refl,
                      source,
                      f,
                      stores.got key glb g'.store p,
                    )
            ]
      ]

  -- For a model that is there: whatever the converter raises and whatever the store answers, where the
  -- store gives back what it takes and no other process changes the table, the task never leaves the model
  -- processing: it reports a success and the model has the GLB file that the converter made of the
  -- uploaded file, or it reports a failure and the model is failed with that error.
  pub convert_model_task-Settled :
      (i : ℕ) (m : Model) (g : Gallery Store)
      → Stores s3
      → get model_key i g.models.rows ≡ some m
      → Settled i m g (convert_model_task trimesh s3 str_int str_exception hex now i g)
  unfolding convert_model_task run
  convert_model_task-Settled i m g stores found =
      let begun = mark_running-started i m g.models found in
      let started = written_model i (processing m) m g.models.rows refl found in
      elim (result-cases (get_bytes s3 m.original_key g.store).0) [
        | inr (e, f) ↦ rw (found, begun, f) (caught-Settled i m (processing m) e g _ started)
        | inl (bytes, f) ↦
            rw (found, begun, f) (finish-Settled i m (processing m) bytes g _ stores started f)
      ]
