-- ===== src/Render/Execution.antt =====
-- `VideoRenderExecutionService` of backend/app/services/video_render_execution_service.py, and
-- `transition_status` of backend/app/services/video_render_service.py. `submit` and `refresh` wait
-- for the provider in the middle: `others` is what other sessions commit meanwhile, `reply` is what
-- the provider then answers.
use social_pilot_ai.Base.{
  ℕ, Bool, true, false, not, ◌&&◌, ◌||◌, Option, none, some, [], ◌∷◌, ◌++◌, Text, codes, text_eq,
  strip, length, ltb, String, if◌then◌else◌,
}
use social_pilot_ai.Action.{
  Error, app, ok, err, pure, raise, query, commit, modify, or_raise, raise_if, ◌>>=◌, ◌>>◌,
}
use social_pilot_ai.Render.Types.{
  RenderStatus, VideoRenderTask, VideoRenderArtifact, RenderDb, ProviderError, authentication,
  quota, timeout, connection, configuration, model, other, VisualTaskStatus, VisualTaskSubmission,
  VisualTaskSnapshot, Reply, answers, fails, Persisted, stored, artifact_error, broken,
  not_configured, is_refreshable, is_terminal, same_status, allowed,
}
use social_pilot_ai.Render.Repository.{
  Run, get_task, get_artifact, set_columns, submittable, claim_for_submission, claim_for_refresh,
  update_status, record_submission, finalize_succeeded,
}

-- The settings that the service reads, and how its provider is called.
pub record Settings : Type 0 where
  pub enable_video_render_execution : Bool
  pub enable_live_wanx_demo : Bool
  pub allow_live_demo : Bool
  pub provider_name : Text

pub record VideoRenderExecutionResult : Type 0 where
  pub task : VideoRenderTask
  pub artifact : Option VideoRenderArtifact
  pub external_call : Bool

-- `_classify_provider_error`: category, message, HTTP status.
unfoldable pub classify : ProviderError → Text × String × ℕ
classify authentication = (codes "authentication", "Wanx authentication failed", 502)
classify quota = (codes "quota_or_rate_limit", "Wanx quota or rate limit blocked the request", 429)
classify timeout = (codes "timeout", "Wanx request timed out", 504)
classify connection = (codes "network", "Wanx service is unavailable", 502)
classify configuration = (codes "provider_not_configured", "Wanx provider is not configured", 503)
classify model = (codes "invalid_provider_output", "Wanx returned an invalid response", 502)
classify other = (codes "unknown", "Visual generation provider request failed", 502)

-- A committed change of the database.
abbrev pub write : (RenderDb → RenderDb) → Run (Unit {0})
write f = do modify f; commit

abbrev pub get_render_task : ℕ → Run VideoRenderTask
get_render_task id s =
    or_raise (get_task id s.working.tasks) (app "Video render task not found" 404) s

-- `_require_execution_enabled`
abbrev pub is_enabled : Settings → Bool
is_enabled c = c.enable_video_render_execution || (c.allow_live_demo && c.enable_live_wanx_demo)

abbrev pub require_execution_enabled : Settings → Run (Unit {0})
require_execution_enabled c =
    raise_if (not (is_enabled c)) (app "Video render execution is disabled by the server" 503)

-- A claim commits if it has changed a row, and is rolled back if not.
abbrev pub claimed_or : Error → (RenderDb → Bool × RenderDb) → Run (Unit {0})
claimed_or e claim s =
    let (hit, d) = claim s.working in
    if hit
    then (ok tt, record { committed = d; working = d })
    else (err e, record { committed = s.committed; working = s.committed })

-- What a failed call of `provider.submit` writes: status, code and message, and the error raised.
unfoldable pub submit_failure : Bool → ProviderError → (RenderStatus × Text × Text) × Error
unfolding classify
submit_failure true timeout = (
  (
    RenderStatus.failed,
    codes "PROVIDER_SUBMIT_ERROR",
    codes "Visual generation provider request failed",
  ),
  app "Visual generation provider request failed" 502,
)
submit_failure true connection = (
  (
    RenderStatus.failed,
    codes "PROVIDER_SUBMIT_ERROR",
    codes "Visual generation provider request failed",
  ),
  app "Visual generation provider request failed" 502,
)
submit_failure false timeout = (
  (
    RenderStatus.submit_unknown,
    codes "submit_unknown_timeout",
    codes "Provider acknowledgement is unavailable; automatic resubmission is blocked",
  ),
  app "Provider submission acknowledgement is unknown; automatic retry is blocked" 502,
)
submit_failure false connection = (
  (
    RenderStatus.submit_unknown,
    codes "submit_unknown_network",
    codes "Provider acknowledgement is unavailable; automatic resubmission is blocked",
  ),
  app "Provider submission acknowledgement is unknown; automatic retry is blocked" 502,
)
submit_failure demo e =
    let (category, message, code) = classify e in
    ((RenderStatus.failed, category, codes message), app message code)

-- The status that `_record_submission` stores.
abbrev pub submission_status : VisualTaskStatus → RenderStatus
submission_status VisualTaskStatus.unknown = RenderStatus.submitted
submission_status VisualTaskStatus.succeeded = RenderStatus.submitted
submission_status VisualTaskStatus.pending = RenderStatus.pending
submission_status VisualTaskStatus.running = RenderStatus.running
submission_status VisualTaskStatus.failed = RenderStatus.failed
submission_status VisualTaskStatus.canceled = RenderStatus.canceled

abbrev pub submission_error : VisualTaskStatus → Option Text × Option Text
submission_error VisualTaskStatus.failed = (
  some (codes "PROVIDER_SUBMISSION_FAILED"),
  some (codes "Visual generation provider rejected the task"),
)
submission_error status = (none, none)

abbrev pub is_blank : Text → Bool
is_blank t = not (ltb 0 (length (strip t)))

-- The row with the key, read back.
abbrev pub reread : ℕ → Run VideoRenderTask
reread id = get_render_task id

abbrev pub with_provider : Text → ℕ → RenderDb → RenderDb
with_provider name id = set_columns id (λ t. record t { provider_name = some name })

-- What follows `provider.submit`.
unfoldable pub finish_submit :
    Settings → ℕ → Reply VisualTaskSubmission → Run VideoRenderExecutionResult
unfolding submit_failure update_status record_submission
finish_submit c id (fails e) = do
  let ((status, code, message), error) = submit_failure c.allow_live_demo e
  write
      (λ d. update_status status (some code) (some message) id (with_provider c.provider_name id d))
  raise error
finish_submit c id (answers a) = do
  let (code, message) = submission_error a.status
  let invalid = is_blank a.provider_task_id
  write (λ d.
      if invalid
      then update_status RenderStatus.failed (some (codes "invalid_provider_output"))
          (some (codes "Provider returned an invalid task identifier")) id d
      else record_submission c.provider_name a.provider_task_id (submission_status a.status) code
          message id d)
  raise_if invalid (app "Provider returned an invalid task identifier" 502)
  t ← reread id
  pure (record { task = t; artifact = none; external_call = true })

-- The call of the provider, on record.
abbrev pub send_to_provider : ℕ → RenderDb → RenderDb
send_to_provider id d = record d { sent = id ∷ d.sent }

-- What precedes the answer of `provider.submit`, the call included.
unfoldable pub start_submit : Settings → ℕ → Run (Unit {0})
unfolding claim_for_submission
start_submit c id = do
  require_execution_enabled c
  t ← get_render_task id
  raise_if (not (submittable t)) (app "Video render task has already been submitted" 409)
  claimed_or (app "Video render task has already been submitted" 409) (claim_for_submission id)
  write (send_to_provider id)

unfoldable pub submit :
    Settings
    → (RenderDb → RenderDb)
    → Reply VisualTaskSubmission
    → ℕ
    → Run VideoRenderExecutionResult
unfolding start_submit finish_submit
submit c others reply id = do start_submit c id; write others; finish_submit c id reply

-- What a refresh writes for a snapshot that it refuses, with the message.
abbrev pub refresh_error : Text → VisualTaskSnapshot → Option String
refresh_error provider_task a =
    if not (text_eq a.provider_task_id provider_task)
    then some "Provider returned a mismatched render task"
    else elim a.status [
      | VisualTaskStatus.unknown ↦ some "Provider returned an unknown render status"
      | VisualTaskStatus.succeeded ↦ (elim a.provider_output_url [
        | none ↦ some "Provider returned no video result"
        | some url ↦ if ltb 0 (length url) then none else some "Provider returned no video result"
      ])
      | _ ↦ none
    ]

-- `_persist_succeeded_video`: what it writes, and the error that it raises, if any.
unfoldable pub persist_video : Persisted → ℕ → RenderDb → RenderDb
unfolding update_status finalize_succeeded
persist_video (stored a) = finalize_succeeded a
persist_video (artifact_error category message) =
    update_status RenderStatus.artifact_persist_failed (some category) (some (codes message))
persist_video broken =
    update_status RenderStatus.artifact_persist_failed (some (codes "artifact_persist_failed"))
      (some (codes "Video artifact could not be persisted"))
persist_video not_configured =
    update_status RenderStatus.artifact_persist_failed
      (some (codes "artifact_storage_not_configured"))
      (some (codes "Artifact storage is not configured"))

abbrev pub persist_error : Persisted → Option Error
persist_error (stored a) = none
persist_error (artifact_error category message) = some (app message 502)
persist_error broken = some (app "Video artifact could not be persisted" 500)
persist_error not_configured = some (app "Artifact storage is not configured" 503)

-- What a refresh writes for a snapshot that it accepts; `UNKNOWN` has been refused before.
unfoldable pub apply_snapshot : VisualTaskStatus → Persisted → ℕ → RenderDb → RenderDb
unfolding persist_video update_status
apply_snapshot VisualTaskStatus.succeeded saved = persist_video saved
apply_snapshot VisualTaskStatus.failed saved =
    update_status RenderStatus.failed (some (codes "provider_failed"))
      (some (codes "Provider reported video generation failed"))
apply_snapshot status saved = update_status (submission_status status) none none

abbrev pub apply_error : VisualTaskStatus → Persisted → Option Error
apply_error VisualTaskStatus.succeeded saved = persist_error saved
apply_error status saved = none

-- The answer of a refresh that has written its snapshot.
unfoldable pub refreshed : Option Error → ℕ → Run VideoRenderExecutionResult
refreshed (some e) id = raise e
refreshed none id = do
  t ← reread id
  artifact ← query (λ d. get_artifact id d.artifacts)
  pure (record { task = t; artifact = artifact; external_call = true })

-- What follows an answer of the provider: the refusal of the snapshot, or its application.
unfoldable pub take_snapshot :
    RenderStatus
    → Persisted
    → ℕ
    → VisualTaskSnapshot
    → Option String
    → Run VideoRenderExecutionResult
unfolding update_status apply_snapshot refreshed
take_snapshot previous saved id a (some message) = do
  write (
      update_status previous (some (codes "refresh_invalid_provider_output")) (some (codes message))
        id)
  raise (app message 502)
take_snapshot previous saved id a none = do
  write (apply_snapshot a.status saved id)
  refreshed (apply_error a.status saved) id

unfoldable pub finish_refresh :
    RenderStatus → Text → Persisted → ℕ → Reply VisualTaskSnapshot → Run VideoRenderExecutionResult
unfolding classify update_status take_snapshot
finish_refresh previous provider_task saved id (fails e) = do
  let (category, message, code) = classify e
  write (update_status previous (some (codes "refresh_" ++ category)) (some (codes message)) id)
  raise (app message code)
finish_refresh previous provider_task saved id (answers a) =
    take_snapshot previous saved id a (refresh_error provider_task a)

abbrev pub refresh_claimed :
    RenderStatus
    → Option Text
    → (RenderDb → RenderDb)
    → Persisted
    → Reply VisualTaskSnapshot
    → ℕ
    → Run VideoRenderExecutionResult
refresh_claimed previous none others saved reply id =
    raise (app "Video render task has not been submitted" 409)
refresh_claimed previous (some provider_task) others saved reply id = do
  claimed_or (app "Video render task refresh is already in progress" 409)
      (claim_for_refresh id previous)
  write others
  finish_refresh previous provider_task saved id reply

unfoldable pub refresh :
    Settings
    → (RenderDb → RenderDb)
    → Persisted
    → Reply VisualTaskSnapshot
    → ℕ
    → Run VideoRenderExecutionResult
unfolding claim_for_refresh finish_refresh
refresh c others saved reply id = do
  require_execution_enabled c
  t ← get_render_task id
  artifact ← query (λ d. get_artifact id d.artifacts)
  if is_terminal t.status
      then pure (record { task = t; artifact = artifact; external_call = false })
      else do
        raise_if (not (is_refreshable t.status)) (app "Video render task cannot refresh" 409)
        refresh_claimed t.status t.provider_task_id others saved reply id

abbrev pub no_code : Option Text → Bool
no_code none = true
no_code (some []) = true
no_code (some (c ∷ t)) = false

-- `transition_status`, for a status that has been normalized.
unfoldable pub transition_status :
    ℕ → RenderStatus → Option Text → Option Text → Run VideoRenderTask
unfolding allowed update_status
transition_status id new code message = do
  t ← get_render_task id
  raise_if (not (allowed t.status new)) (app "Render task cannot change to this status" 409)
  let is_failed = same_status new RenderStatus.failed
  raise_if (is_failed && no_code code) (app "Failed render tasks require an error code" 422)
  write (
      update_status new (if is_failed then code else none) (if is_failed then message else none) id)
  reread id
