-- ===== src/Analysis/Transitions.antt =====
-- How a job moves between its states.
use zhiwei_backend.Prelude.{
  Done, ℕ, ◌≡◌, refl, sym, ap, ◌∙◌, Bool, true, false, ◌⊎◌, inl, inr, List, Option, none, some,
  String, str_eq, subst, Option-cases, Bool-cases, ◌==◌, ==_self, if◌then◌else◌, Result, ok, err,
  is_ok,
}
use zhiwei_backend.Prelude.Rows.{get, put}
use zhiwei_backend.Prelude.Rows.Laws.{get-id, get-put}
use zhiwei_backend.Analysis.Jobs.{
  AnalysisJob, JobTable, job_id, is_cancellable, mark_running, cancel_job, mark_failed,
  mark_success, started, cancelled, failed, succeeded,
}

returned_tt : (r : Result Done) → is_ok r ≡ true → r ≡ ok tt
returned_tt (ok _) h = refl
returned_tt (err e) h = cc

module _ {Json : Type 0} where
  -- The state of the job under a key; `none` where there is none.
  abbrev pub status_of : Option (AnalysisJob Json) → Option String
  status_of none = none
  status_of (some job) = some job.status

  abbrev pub status_at : ℕ → JobTable Json → Option String
  status_at i t = status_of (get job_id i t.rows)

  -- A write of the job under a key, as the later queries see it.
  pub written_job :
      (i k : ℕ) (job old : AnalysisJob Json) (t : JobTable Json)
      → job.id ≡ old.id
      → get job_id i t.rows ≡ some old
      → get job_id k (put job_id job t.rows) ≡ (if i == k then some job else get job_id k t.rows)
  written_job i k job old t same e =
      let own : job.id ≡ i = same ∙ get-id job_id i t.rows old e in
      get-put job_id k job old t.rows
        (subst (λ (n : ℕ). get job_id n t.rows ≡ some old) (sym own) e)
      ∙ ap (λ (n : ℕ). if n == k then some job else get job_id k t.rows) own

  -- What an operation may do to the job under a key: from one of these states it moves it to the new
  -- one and leaves every other job; from any other state, or for a missing job, it raises and leaves
  -- the table.
  pub Moves :
      {A : Type 0}
      → (String → Bool)
      → String
      → ℕ
      → JobTable Json
      → Result A × JobTable Json
      → Type 0
  Moves from to i t out =
      ((is_ok out.0 ≡ false)
        × (out.1 ≡ t)
        × ((status_at i t ≡ none) ⊎ ((s : String) × (status_at i t ≡ some s) × (from s ≡ false))))
      ⊎ ((s : String) × (is_ok out.0 ≡ true)
          × (status_at i t ≡ some s)
          × (from s ≡ true)
          × ((k : ℕ) → status_at k out.1 ≡ (if i == k then some to else status_at k t)))

  moved :
      (i k : ℕ) (job old : AnalysisJob Json) (t : JobTable Json)
      → job.id ≡ old.id
      → get job_id i t.rows ≡ some old
      → status_of (get job_id k (put job_id job t.rows))
        ≡ (if i == k then some job.status else status_at k t)
  moved i k job old t same e = ap status_of (written_job i k job old t same e) ∙ choose (i == k)
    where
      choose :
          (b : Bool)
          → status_of (if b then some job else get job_id k t.rows)
            ≡ (if b then some job.status else status_at k t)
      choose true = refl
      choose false = refl

  -- A job enters `running` from `pending` only, and any other state is an exception.
  pub mark_running-Moves :
      (now i : ℕ) (t : JobTable Json)
      → Moves (λ s. str_eq s "pending") "running" i t (mark_running now i t)
  unfolding mark_running Moves
  mark_running-Moves now i t = elim (Option-cases (get job_id i t.rows)) [
    | inl e ↦ inl (rw e (refl, refl, inl refl))
    | inr (job, e) ↦ elim (Bool-cases (str_eq job.status "pending")) [
      | inr w ↦ inl (rw (e, w) (refl, refl, inr (job.status, refl, w)))
      | inl w ↦ inr (
        job.status,
        rw (e, w) refl,
        ap status_of e,
        w,
        λ k. rw (e, w) (moved i k (started now job) job t refl e),
      )
    ]
  ]

  -- A job is cancelled from `pending` and `running` only, and any other state is an exception.
  pub cancel_job-Moves :
      (now i : ℕ) (t : JobTable Json) → Moves is_cancellable "cancelled" i t (cancel_job now i t)
  unfolding cancel_job Moves
  cancel_job-Moves now i t = elim (Option-cases (get job_id i t.rows)) [
    | inl e ↦ inl (rw e (refl, refl, inl refl))
    | inr (job, e) ↦ elim (Bool-cases (is_cancellable job.status)) [
      | inr w ↦ inl (rw (e, w) (refl, refl, inr (job.status, refl, w)))
      | inl w ↦ inr (
        job.status,
        rw (e, w) refl,
        ap status_of e,
        w,
        λ k. rw (e, w) (moved i k (cancelled now job) job t refl e),
      )
    ]
  ]

  -- A job fails from whatever state it is in.
  pub mark_failed-Moves :
      (now i : ℕ) (error : List ℕ) (t : JobTable Json)
      → Moves (λ s. true) "failed" i t (mark_failed now i error t)
  unfolding mark_failed Moves
  mark_failed-Moves now i error t = elim (Option-cases (get job_id i t.rows)) [
    | inl e ↦ inl (rw e (refl, refl, inl refl))
    | inr (job, e) ↦ inr (
      job.status,
      rw e refl,
      ap status_of e,
      refl,
      λ k. rw e (moved i k (failed now error job) job t refl e),
    )
  ]

  -- A job succeeds from whatever state it is in.
  pub mark_success-Moves :
      (now i : ℕ) (key : Option String) (summary : Option Json) (t : JobTable Json)
      → Moves (λ s. true) "success" i t (mark_success now i key summary t)
  unfolding mark_success Moves
  mark_success-Moves now i key summary t = elim (Option-cases (get job_id i t.rows)) [
    | inl e ↦ inl (rw e (refl, refl, inl refl))
    | inr (job, e) ↦ inr (
      job.status,
      rw e refl,
      ap status_of e,
      refl,
      λ k. rw e (moved i k (succeeded now key summary job) job t refl e),
    )
  ]

  -- After a move that did not raise, the job is in the new state.
  Moves-status :
      {A : Type 0} (from : String → Bool) (to : String) (i : ℕ) (t : JobTable Json)
      (out : Result A × JobTable Json)
      → Moves from to i t out
      → is_ok out.0 ≡ true
      → status_at i out.1 ≡ some to
  unfolding Moves
  Moves-status from to i t out m h = elim m [
    | inl (refused, _, _) ↦ absurd (true≢false (sym h ∙ refused))
    | inr (s, _, _, _, at) ↦ at i ∙ rw ==_self refl
  ]
    where
      true≢false : true ≡ false → ⊥
      true≢false e = cc

  -- An operation that takes every state returns on a job that is there.
  Moves-returns :
      {A : Type 0} (to : String) (i : ℕ) (t : JobTable Json) (out : Result A × JobTable Json)
      (status : String)
      → Moves (λ s. true) to i t out
      → status_at i t ≡ some status
      → is_ok out.0 ≡ true
  unfolding Moves
  Moves-returns to i t out status m h = elim m [
    | inl (_, _, inl missing) ↦ cc
    | inl (_, _, inr (s, _, f)) ↦ cc
    | inr (s, returned, _, _, _) ↦ returned
  ]

  -- `mark_failed` asks for no state: a job that was cancelled while its plugin ran, and whose plugin
  -- then raises, ends as failed, and the cancellation is lost.
  pub cancel_job-mark_failed :
      (now later i : ℕ) (error : List ℕ) (t : JobTable Json) (previous : String)
      → (cancel_job now i t).0 ≡ ok previous
      → let t' = (cancel_job now i t).1 in
        (status_at i t' ≡ some "cancelled")
        × ((mark_failed later i error t').0 ≡ ok tt)
        × (status_at i (mark_failed later i error t').1 ≡ some "failed")
  cancel_job-mark_failed now later i error t previous h =
      let t' = (cancel_job now i t).1 in
      let cancelled_now : status_at i t' ≡ some "cancelled" =
        Moves-status is_cancellable "cancelled" i t (cancel_job now i t) (cancel_job-Moves now i t)
          (ap is_ok h) in
      let move = mark_failed-Moves later i error t' in
      let returned =
        Moves-returns "failed" i t' (mark_failed later i error t') "cancelled" move cancelled_now in
      (
        cancelled_now,
        returned_tt (mark_failed later i error t').0 returned,
        Moves-status (λ s. true) "failed" i t' (mark_failed later i error t') move returned,
      )
