-- ===== src/Queue/Types.antt =====
-- The rows of backend/app/models/execution.py. The attempts table is kept grouped by its foreign
-- key: a job holds its attempts, in the order in which they were inserted. Instants are
-- microseconds, costs are ten-thousandths. `updated_at` is left out: nothing reads it but the API.
use social_pilot_ai.Base.{ℕ, Bool, true, false, Option, List, [], Text}
use social_pilot_ai.Json.{Fields}

-- `JOB_STATUSES`
pub data JobStatus : Type 0 where
  queued paused running succeeded failed submit_unknown cancelled : JobStatus

-- `ATTEMPT_STATUSES`
pub data AttemptStatus : Type 0 where
  running succeeded failed submit_unknown lease_expired : AttemptStatus

-- `PROVIDER_SUBMISSION_STATES`
pub data SubmissionState : Type 0 where
  not_started not_submitted explicit_failure response_received submit_unknown : SubmissionState

pub record ExecutionAttempt : Type 0 where
  pub attempt_number : ℕ
  pub status : AttemptStatus
  pub started_at : ℕ
  pub completed_at : Option ℕ
  pub safe_error_code : Option Text
  pub safe_error_details : Option Fields
  pub provider_call_count : ℕ
  pub external_submission_possible : Bool
  pub provider_submission_state : SubmissionState

-- The columns of a job that are written once, by `create`.
pub record JobSpec : Type 0 where
  pub job_type : Text
  pub source_type : Text
  pub source_id : ℕ
  pub input_digest : Text
  pub idempotency_key : Text
  pub input_payload : Fields
  pub priority : ℕ
  pub concurrency_key : Option Text
  pub estimated_cost : ℕ
  pub currency : Text
  pub cost_confirmed : Bool
  pub max_attempts : ℕ
  pub created_at : ℕ

pub record ExecutionJob : Type 0 where
  pub id : ℕ
  pub spec : JobSpec
  pub open spec use *
  pub status : JobStatus
  pub attempt_count : ℕ
  pub lease_owner_digest : Option Text
  pub lease_expires_at : Option ℕ
  pub provider_name : Option Text
  pub provider_operation_id : Option Text
  pub submitted_at : Option ℕ
  pub completed_at : Option ℕ
  pub safe_error_code : Option Text
  pub safe_error_details : Option Fields
  pub uncertain : Bool
  pub result_entity_type : Option Text
  pub result_entity_id : Option ℕ
  pub attempts : List ExecutionAttempt

-- The table, in the order of its primary key, and the next key.
pub record Db : Type 0 where
  pub jobs : List ExecutionJob
  pub next_id : ℕ

abbrev pub empty_db : Db
empty_db = record { jobs = []; next_id = 1 }

abbrev pub is_queued : JobStatus → Bool
is_queued JobStatus.queued = true
is_queued _ = false

abbrev pub is_paused : JobStatus → Bool
is_paused JobStatus.paused = true
is_paused _ = false

abbrev pub is_running : JobStatus → Bool
is_running JobStatus.running = true
is_running _ = false

abbrev pub is_failed : JobStatus → Bool
is_failed JobStatus.failed = true
is_failed _ = false

abbrev pub is_cancelled : JobStatus → Bool
is_cancelled JobStatus.cancelled = true
is_cancelled _ = false

abbrev pub is_submit_unknown : JobStatus → Bool
is_submit_unknown JobStatus.submit_unknown = true
is_submit_unknown _ = false

abbrev pub is_succeeded : JobStatus → Bool
is_succeeded JobStatus.succeeded = true
is_succeeded _ = false

abbrev pub is_active : AttemptStatus → Bool
is_active AttemptStatus.running = true
is_active _ = false

-- The provider states that `fail` and the worker count as certain.
abbrev pub is_certain : SubmissionState → Bool
is_certain SubmissionState.not_submitted = true
is_certain SubmissionState.explicit_failure = true
is_certain SubmissionState.response_received = true
is_certain _ = false
