-- ===== src/Queue/Written.antt =====
-- What the columns of a row hold after each of the four calls of the worker that holds its lease.
use social_pilot_ai.Base.{[], ◌∷◌, ◌++◌, ℕ, ◌+◌, ◌<◌, ◌≡◌, ◌⊎◌, true, false, some, none, Text}
use social_pilot_ai.Json.{Json, Fields, end, field}
use social_pilot_ai.Queue.Types.{
  JobStatus, AttemptStatus, SubmissionState, ExecutionAttempt, ExecutionJob,
}
use social_pilot_ai.Queue.Repository.{latest_attempt}
use social_pilot_ai.Queue.Requests.{HeartbeatRequest, CompleteRequest, FailRequest, UnknownRequest}
use social_pilot_ai.Queue.Service.{seconds}

-- The row is still the row of the same job and of the same attempt, which is now `b`.
pub record SameRow (j : ExecutionJob) (a : ExecutionAttempt) (k : ExecutionJob)
    (b : ExecutionAttempt) : Type 0 where
  pub same_id : k.id ≡ j.id
  pub same_spec : k.spec ≡ j.spec
  pub same_count : k.attempt_count ≡ j.attempt_count
  pub latest : latest_attempt k.attempts ≡ some b
  pub same_number : b.attempt_number ≡ a.attempt_number
  pub same_start : b.started_at ≡ a.started_at

-- The first time of a submission stays, if there is one.
pub record SubmittedFrom (now : ℕ) (j k : ExecutionJob) : Type 0 where
  pub stays : (t : ℕ) → j.submitted_at ≡ some t → k.submitted_at ≡ some t
  pub begins : j.submitted_at ≡ none → k.submitted_at ≡ some now

-- The lease is given up and the call and its attempt are over.
pub record Released (now : ℕ) (k : ExecutionJob) (b : ExecutionAttempt) : Type 0 where
  pub no_owner : k.lease_owner_digest ≡ none
  pub no_expiry : k.lease_expires_at ≡ none
  pub done : k.completed_at ≡ some now
  pub attempt_done : b.completed_at ≡ some now

pub record Renewed (now : ℕ) (req : HeartbeatRequest) (j : ExecutionJob) (a : ExecutionAttempt)
    (k : ExecutionJob) (b : ExecutionAttempt) : Type 0 where
  pub row : SameRow j a k b
  pub status : k.status ≡ j.status
  pub owner : k.lease_owner_digest ≡ j.lease_owner_digest
  pub until : k.lease_expires_at ≡ some (now + seconds req.lease_seconds)
  pub attempt_status : b.status ≡ a.status
  pub uncounted : req.provider_call_count ≡ none → b.provider_call_count ≡ a.provider_call_count
  pub counted : (n : ℕ) → req.provider_call_count ≡ some n → b.provider_call_count ≡ n
  pub submission :
      req.external_submission_possible ≡ true
      → SubmittedFrom now j k
        × (b.external_submission_possible ≡ true)
        × (b.provider_submission_state ≡ SubmissionState.submit_unknown)
  pub no_submission :
      req.external_submission_possible ≡ false
      → (k.submitted_at ≡ j.submitted_at)
        × (b.external_submission_possible ≡ a.external_submission_possible)
        × (b.provider_submission_state ≡ a.provider_submission_state)

pub record Succeeded (now : ℕ) (req : CompleteRequest) (j : ExecutionJob) (a : ExecutionAttempt)
    (k : ExecutionJob) (b : ExecutionAttempt) : Type 0 where
  pub row : SameRow j a k b
  pub released : Released now k b
  pub status : k.status ≡ JobStatus.succeeded
  pub certain : k.uncertain ≡ false
  pub provider : k.provider_name ≡ req.provider_name
  pub operation : k.provider_operation_id ≡ req.provider_operation_id
  pub result_type : k.result_entity_type ≡ req.result_entity_type
  pub result_id : k.result_entity_id ≡ req.result_entity_id
  pub submission : (o : Text) → req.provider_operation_id ≡ some o → SubmittedFrom now j k
  pub no_submission : req.provider_operation_id ≡ none → k.submitted_at ≡ j.submitted_at
  pub attempt_status : b.status ≡ AttemptStatus.succeeded
  pub counted : b.provider_call_count ≡ req.provider_call_count
  pub response :
      (0 < req.provider_call_count) ⊎ (a.external_submission_possible ≡ true)
      → b.provider_submission_state ≡ SubmissionState.response_received
  pub no_call :
      req.provider_call_count ≡ 0
      → a.external_submission_possible ≡ false
      → b.provider_submission_state ≡ SubmissionState.not_started

pub record FailedWith (now : ℕ) (req : FailRequest) (j : ExecutionJob) (a : ExecutionAttempt)
    (k : ExecutionJob) (b : ExecutionAttempt) : Type 0 where
  pub row : SameRow j a k b
  pub released : Released now k b
  pub status : k.status ≡ JobStatus.failed
  pub certain : k.uncertain ≡ false
  pub code : k.safe_error_code ≡ some req.safe_error_code
  pub no_details : req.safe_error_details ≡ end → k.safe_error_details ≡ none
  pub details :
      (f : Text) (v : Json) (fs : Fields)
      → req.safe_error_details ≡ field f v fs
      → k.safe_error_details ≡ some req.safe_error_details
  pub same_submission : k.submitted_at ≡ j.submitted_at
  pub attempt_status : b.status ≡ AttemptStatus.failed
  pub counted : b.provider_call_count ≡ req.provider_call_count
  pub state : b.provider_submission_state ≡ req.provider_submission_state
  pub attempt_code : b.safe_error_code ≡ k.safe_error_code
  pub attempt_details : b.safe_error_details ≡ k.safe_error_details

pub record Doubtful (now : ℕ) (req : UnknownRequest) (j : ExecutionJob) (a : ExecutionAttempt)
    (k : ExecutionJob) (b : ExecutionAttempt) : Type 0 where
  pub row : SameRow j a k b
  pub released : Released now k b
  pub status : k.status ≡ JobStatus.submit_unknown
  pub doubt : k.uncertain ≡ true
  pub code : k.safe_error_code ≡ some req.safe_error_code
  pub no_details : req.safe_error_details ≡ end → k.safe_error_details ≡ none
  pub details :
      (f : Text) (v : Json) (fs : Fields)
      → req.safe_error_details ≡ field f v fs
      → k.safe_error_details ≡ some req.safe_error_details
  pub provider : k.provider_name ≡ req.provider_name
  pub operation : k.provider_operation_id ≡ req.provider_operation_id
  pub submission : SubmittedFrom now j k
  pub attempt_status : b.status ≡ AttemptStatus.submit_unknown
  pub counted : b.provider_call_count ≡ req.provider_call_count
  pub external : b.external_submission_possible ≡ true
  pub state : b.provider_submission_state ≡ SubmissionState.submit_unknown
  pub attempt_code : b.safe_error_code ≡ k.safe_error_code
  pub attempt_details : b.safe_error_details ≡ k.safe_error_details

-- The row that a claim hands out: a new attempt has begun, and the worker has the lease.
pub record Opened (digest : Text) (expires now : ℕ) (c k : ExecutionJob) : Type 0 where
  pub same_id : k.id ≡ c.id
  pub same_spec : k.spec ≡ c.spec
  pub status : k.status ≡ JobStatus.running
  pub counted : k.attempt_count ≡ c.attempt_count + 1
  pub owner : k.lease_owner_digest ≡ some digest
  pub until : k.lease_expires_at ≡ some expires
  pub not_done : k.completed_at ≡ none
  pub no_code : k.safe_error_code ≡ none
  pub no_details : k.safe_error_details ≡ none
  pub certain : k.uncertain ≡ false
  pub same_submission : k.submitted_at ≡ c.submitted_at
  pub attempt : ExecutionAttempt
  pub begun : k.attempts ≡ c.attempts ++ attempt ∷ []
  pub number : attempt.attempt_number ≡ c.attempt_count + 1
  pub attempt_status : attempt.status ≡ AttemptStatus.running
  pub start : attempt.started_at ≡ now
  pub no_call : attempt.provider_call_count ≡ 0
  pub no_submission : attempt.external_submission_possible ≡ false
