-- ===== src/Queue/Service.antt =====
-- `ExecutionQueueService` of backend/app/services/execution_queue_service.py, first part: reading
-- a job, and the four controls. A method is an action on the session; `now` is the clock's answer
-- to `utc_now()`.
use social_pilot_ai.Base.{ℕ, ◌*◌, not, ◌||◌, Option, none, some, List, leb, if◌then◌else◌}
use social_pilot_ai.Json.{Fields, end, field}
use social_pilot_ai.Action.{Action, app, pure, or_raise, commit, modify, raise_if, ◌>>=◌, ◌>>◌}
use social_pilot_ai.Queue.Types.{
  JobStatus, ExecutionJob, Db, is_queued, is_paused, is_failed, is_cancelled,
}
use social_pilot_ai.Queue.Repository.{get_job, put_job}

abbrev pub Run : Type 0 → Type 0
Run A = Action Db A

-- `timedelta(seconds=n)`, in microseconds.
abbrev pub seconds : ℕ → ℕ
seconds n = n * 1000000

-- `value or None` for a mapping.
abbrev pub or_none : Fields → Option Fields
or_none end = none
or_none (field k v fs) = some (field k v fs)

abbrev pub or_else {ℓ} : {A : Type ℓ} → Option A → A → Option A
or_else none a = some a
or_else (some b) a = some b

abbrev pub set_jobs : (List ExecutionJob → List ExecutionJob) → Run (Unit {0})
set_jobs f = modify (λ d. record d { jobs = f d.jobs })

unfoldable pub get : ℕ → Run ExecutionJob
get id s = or_raise (get_job id s.working.jobs) (app "Execution job not found" 404) s

-- A changed row is written, committed and read back.
unfoldable pub save : ExecutionJob → Run ExecutionJob
unfolding get
save j = do set_jobs (put_job j); commit; get j.id

unfoldable pub pause : ℕ → Run ExecutionJob
unfolding get
pause id = do
  j ← get id
  if is_paused j.status then pure j else do
    raise_if (not (is_queued j.status)) (app "Only queued jobs can be paused" 409)
    save (record j { status = JobStatus.paused })

unfoldable pub resume : ℕ → Run ExecutionJob
unfolding get
resume id = do
  j ← get id
  if is_queued j.status then pure j else do
    raise_if (not (is_paused j.status)) (app "Only paused jobs can be resumed" 409)
    save (record j { status = JobStatus.queued })

unfoldable pub cancel : ℕ → ℕ → Run ExecutionJob
unfolding get
cancel now id = do
  j ← get id
  if is_cancelled j.status then pure j else do
    raise_if (not (is_queued j.status || is_paused j.status))
        (app "Running or terminal jobs cannot be cancelled" 409)
    save (record j { status = JobStatus.cancelled; completed_at = some now })

unfoldable pub retry : ℕ → Run ExecutionJob
unfolding get
retry id = do
  j ← get id
  raise_if (not (is_failed j.status) || j.uncertain)
      (app "Only certain failed jobs can be retried" 409)
  raise_if (leb j.max_attempts j.attempt_count)
      (app "Execution job has exhausted its maximum attempts" 409)
  save (record j {
    status = JobStatus.queued;
    safe_error_code = none;
    safe_error_details = none;
    completed_at = none;
  })
