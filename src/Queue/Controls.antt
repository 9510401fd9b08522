-- ===== src/Queue/Controls.antt =====
-- The controls of a job that no worker holds: what they answer, refuse and undo.
use social_pilot_ai.Base.{
  ℕ, ◌≤◌, ◌<◌, ◌≡◌, ◌≢◌, refl, sym, subst, ap, ◌∙◌, ◌⊎◌, inl, inr, true, false, not, ◌||◌, some,
  none, List, [], ◌∷◌, All, All-imp, Pairwise, leb, arith,
}
use social_pilot_ai.Action.{Session, Result, ok, err, app, request, or_raise}
use social_pilot_ai.Queue.Types.{
  JobStatus, ExecutionJob, Db, is_queued, is_paused, is_failed, is_cancelled,
}
use social_pilot_ai.Queue.Repository.{get_job, put_job}
use social_pilot_ai.Queue.Service.{save, pause, resume, cancel, retry}
use social_pilot_ai.Queue.Invariant.{
  JobOk, Apart, DbOk, get_job-id, get_job-cons, get-put_job, All-get_job, put_job-later,
}
use social_pilot_ai.Queue.Sound.{save_lem}
use social_pilot_ai.Queue.Outcomes.{put}

-- Writing a row twice leaves the second; writing a row as it is leaves the table.
put_job-put_job :
    (k l : ExecutionJob) (js : List ExecutionJob)
    → k.id ≡ l.id
    → put_job l (put_job k js) ≡ put_job l js
put_job-put_job k l [] e = refl
put_job-put_job k l (j ∷ js) e = ground (arith, put_job-put_job k l js e)

put_job_self :
    (j : ExecutionJob) (js : List ExecutionJob)
    → Pairwise Apart js
    → get_job j.id js ≡ some j
    → put_job j js ≡ js
put_job_self j [] p e = refl
put_job_self j (x ∷ js) p e = elim (get_job-cons j.id x js j e) [
  | inl found ↦
      let later : All (λ y. j.id < y.id) js =
        All-imp (Apart x) _ js (λ y a. subst (λ z. z.id < y.id) found.1 a.ids) p.0 in
      ground (arith, found, put_job-later j js later)
  | inr other ↦ ground (arith, other.0, put_job_self j js p.1 other.1)
]

module _ (d : Db) (id : ℕ) (j : ExecutionJob) (h : DbOk d) (row : get_job id d.jobs ≡ some j) where
  row_here : get_job j.id d.jobs ≡ some j
  row_here = subst (λ n. get_job n d.jobs ≡ some j) (sym (get_job-id id d.jobs j row)) row

  certain : j.status ≡ JobStatus.failed → (not (is_failed j.status) || j.uncertain) ≡ false
  certain e =
      let u = (All-get_job JobOk id d.jobs j h.rows row).uncertain_status in ground (arith, e, u)

  saved : (k : ExecutionJob) → k.id ≡ j.id → request (save k) d ≡ (ok k, put k d)
  saved k e =
      ap (λ (r : Result ExecutionJob × Session Db). (r.0, r.1.committed))
        (save_lem (record { committed = d; working = d }) j k
          (subst (λ n. get_job n d.jobs ≡ some j) (sym e) row_here))

  abbrev retried : ExecutionJob
  retried = record j {
    status = JobStatus.queued;
    safe_error_code = none;
    safe_error_details = none;
    completed_at = none;
  }

  -- On a table that meets the constraints, `retry` of a failed job with attempts left queues it
  -- again with its error cleared; of a failed job without attempts left, and of a job that has not
  -- failed, it is refused with status 409 and commits nothing.
  pub retry_lem :
      (j.status ≡ JobStatus.failed
        → j.attempt_count < j.max_attempts
        → request (retry id) d ≡ (ok retried, put retried d))
      × (j.status ≡ JobStatus.failed
          → j.max_attempts ≤ j.attempt_count
          → request (retry id) d
            ≡ (err (app "Execution job has exhausted its maximum attempts" 409), d))
      × (j.status ≢ JobStatus.failed
          → request (retry id) d ≡ (err (app "Only certain failed jobs can be retried" 409), d))
  unfolding retry
  retry_lem = (
    λ e l.
        let room : leb j.max_attempts j.attempt_count ≡ false = ground (arith, l) in
        rw (row, or_raise) (rw (certain e) (rw room (saved retried refl))),
    λ e l.
        let full : leb j.max_attempts j.attempt_count ≡ true = ground (arith, l) in
        rw (row, or_raise) (rw (certain e) (rw full refl)),
    λ e.
        let other : is_failed j.status ≡ false = ground (arith, e) in
        rw (row, or_raise) (rw other refl),
  )

  abbrev paused : ExecutionJob
  paused = record j { status = JobStatus.paused }

  -- On a table that meets the constraints, `pause` of a queued job commits it as paused, of a
  -- paused job answers it as it is, and of any other is refused with status 409; only the first
  -- commits anything.
  pub pause_lem :
      (j.status ≡ JobStatus.queued → request (pause id) d ≡ (ok paused, put paused d))
      × (j.status ≡ JobStatus.paused → request (pause id) d ≡ (ok j, d))
      × (j.status ≢ JobStatus.queued
          → j.status ≢ JobStatus.paused
          → request (pause id) d ≡ (err (app "Only queued jobs can be paused" 409), d))
  unfolding pause
  pause_lem = (
    λ e. rw (row, or_raise) (rw e (saved paused refl)),
    λ e. rw (row, or_raise) (rw e refl),
    λ e f.
        let not_queued : is_queued j.status ≡ false = ground (arith, e) in
        let not_paused : is_paused j.status ≡ false = ground (arith, f) in
        rw (row, or_raise) (rw not_paused (rw not_queued refl)),
  )

  -- On a table that meets the constraints, `cancel` of a queued or paused job commits it as
  -- cancelled, of a cancelled job answers it as it is, and of any other is refused with status 409;
  -- only the first commits anything.
  pub cancel_lem :
      (now : ℕ)
      → ((j.status ≡ JobStatus.queued) ⊎ (j.status ≡ JobStatus.paused)
          → let k = record j { status = JobStatus.cancelled; completed_at = some now } in
            request (cancel now id) d ≡ (ok k, put k d))
        × (j.status ≡ JobStatus.cancelled → request (cancel now id) d ≡ (ok j, d))
        × (is_queued j.status ≡ false
            → is_paused j.status ≡ false
            → is_cancelled j.status ≡ false
            → request (cancel now id) d
              ≡ (err (app "Running or terminal jobs cannot be cancelled" 409), d))
  unfolding cancel
  cancel_lem now = (
    λ e. elim e [
      | inl q ↦ rw (row, or_raise) (rw q (saved _ refl))
      | inr p ↦ rw (row, or_raise) (rw p (saved _ refl))
    ],
    λ e. rw (row, or_raise) (rw e refl),
    λ q p c. rw (row, or_raise) (rw c (rw q (rw p refl))),
  )

module _ (d : Db) (id : ℕ) (j : ExecutionJob) (h : DbOk d) (row : get_job id d.jobs ≡ some j) where
  -- On a table that meets the constraints: `retry` of a failed job with attempts left queues it
  -- again with its error cleared, and of a failed job without attempts left or of a job that has
  -- not failed is refused with status 409; `cancel` of a queued or paused job commits it as
  -- cancelled, of a cancelled job answers it as it is, and of any other is refused with status 409;
  -- where they refuse or answer the job as it is, nothing is committed.
  pub controls_lem :
      (now : ℕ)
      → ((j.status ≡ JobStatus.failed
            → j.attempt_count < j.max_attempts
            → request (retry id) d ≡ (ok (retried d id j h row), put (retried d id j h row) d))
          × (j.status ≡ JobStatus.failed
              → j.max_attempts ≤ j.attempt_count
              → request (retry id) d
                ≡ (err (app "Execution job has exhausted its maximum attempts" 409), d))
          × (j.status ≢ JobStatus.failed
              → request (retry id) d
                ≡ (err (app "Only certain failed jobs can be retried" 409), d)))
        × (((j.status ≡ JobStatus.queued) ⊎ (j.status ≡ JobStatus.paused)
              → let k = record j { status = JobStatus.cancelled; completed_at = some now } in
                request (cancel now id) d ≡ (ok k, put k d))
            × (j.status ≡ JobStatus.cancelled → request (cancel now id) d ≡ (ok j, d))
            × (is_queued j.status ≡ false
                → is_paused j.status ≡ false
                → is_cancelled j.status ≡ false
                → request (cancel now id) d
                  ≡ (err (app "Running or terminal jobs cannot be cancelled" 409), d)))
  controls_lem now = (retry_lem d id j h row, cancel_lem d id j h row now)

-- On a table that meets the constraints, pausing a queued job and then resuming it leaves the table
-- as it was.
pub resume-pause :
    (d : Db) (id : ℕ) (j : ExecutionJob)
    → DbOk d
    → get_job id d.jobs ≡ some j
    → j.status ≡ JobStatus.queued
    → (request (resume id) (request (pause id) d).1).1 ≡ d
resume-pause d id j h row e =
    let k = record j { status = JobStatus.paused } in
    let here : get_job j.id d.jobs ≡ some j =
      subst (λ n. get_job n d.jobs ≡ some j) (sym (get_job-id id d.jobs j row)) row in
    let there : get_job k.id (put_job k d.jobs) ≡ some k = get-put_job k d.jobs j here in
    let there_id : get_job id (put_job k d.jobs) ≡ some k =
      subst (λ n. get_job n (put_job k d.jobs) ≡ some k) (get_job-id id d.jobs j row) there in
    let back : record k { status = JobStatus.queued } ≡ j = ground (arith, e) in
    let written =
      save_lem (record { committed = put k d; working = put k d }) k
        (record k { status = JobStatus.queued }) there in
    let same : put (record k { status = JobStatus.queued }) (put k d) ≡ d =
      ap (λ (js : List ExecutionJob). record d { jobs = js })
        (put_job-put_job k _ d.jobs refl
          ∙ ap (λ (x : ExecutionJob). put_job x d.jobs) back
          ∙ put_job_self j d.jobs h.apart here) in
    subst (λ (x : Db). (request (resume id) x).1 ≡ d)
      (sym (ap (λ (r : Result ExecutionJob × Db). r.1) ((pause_lem d id j h row).0 e)))
      (unfold resume in
        rw (there_id, request, or_raise)
          (ap (λ (r : Result ExecutionJob × Session Db). r.1.committed) written ∙ same))
