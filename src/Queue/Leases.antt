-- ===== src/Queue/Leases.antt =====
-- `ExecutionQueueService`, second part: what the worker that holds a lease may do, and the
-- recovery of leases that ran out. `sha256` is the hexadecimal digest of a worker's identity,
-- which the source takes from `hashlib`.
use social_pilot_ai.Base.{
  ℕ, ◌+◌, Bool, true, false, not, ◌&&◌, ◌||◌, Option, none, some, List, map, Text, codes, text_eq,
  ltb, leb, if◌then◌else◌, is_some,
}
use social_pilot_ai.Json.{Fields, accepts_fields}
use social_pilot_ai.Action.{app, pure, raise, or_raise, commit, raise_if, ◌>>=◌, ◌>>◌}
use social_pilot_ai.Queue.Types.{
  JobStatus, AttemptStatus, SubmissionState, ExecutionAttempt, ExecutionJob, is_running, is_certain,
}
use social_pilot_ai.Queue.Repository.{put_attempt, latest_attempt, has_expired_lease}
use social_pilot_ai.Queue.Requests.{
  HeartbeatRequest, CompleteRequest, FailRequest, UnknownRequest, is_safe_error_code,
}
use social_pilot_ai.Queue.Service.{Run, seconds, or_none, or_else, set_jobs, get, save}

abbrev pub attempt_external : Option ExecutionAttempt → Bool
attempt_external none = false
attempt_external (some a) = a.external_submission_possible

-- `external_possible` in `_recover_expired_leases`.
unfoldable pub external_possible : ExecutionJob → Bool
external_possible j =
    attempt_external (latest_attempt j.attempts)
    || is_some j.submitted_at
    || is_some j.provider_operation_id

abbrev pub expiry_code : Bool → Text
expiry_code true = codes "LEASE_EXPIRED_AFTER_EXTERNAL_SUBMISSION"
expiry_code false = codes "LEASE_EXPIRED"

-- What recovery writes to the latest attempt.
unfoldable pub lost_attempt : ℕ → Bool → ExecutionAttempt → ExecutionAttempt
lost_attempt now true a = record a {
  status = AttemptStatus.submit_unknown;
  external_submission_possible = true;
  provider_submission_state = SubmissionState.submit_unknown;
  safe_error_code = some (expiry_code true);
  completed_at = some now;
}
lost_attempt now false a = record a {
  status = AttemptStatus.lease_expired;
  provider_submission_state = SubmissionState.not_submitted;
  safe_error_code = some (expiry_code false);
  completed_at = some now;
}

abbrev pub lose_latest :
    ℕ → Bool → Option ExecutionAttempt → List ExecutionAttempt → List ExecutionAttempt
lose_latest now external none attempts = attempts
lose_latest now external (some a) attempts = put_attempt (lost_attempt now external a) attempts

abbrev pub recovered_status : Bool → Bool → JobStatus
recovered_status true again = JobStatus.submit_unknown
recovered_status false true = JobStatus.queued
recovered_status false false = JobStatus.failed

abbrev pub recovered_at : ℕ → Bool → Bool → Option ℕ
recovered_at now true again = some now
recovered_at now false true = none
recovered_at now false false = some now

-- The body of the loop of `_recover_expired_leases`, by whether an external submission is
-- possible and whether attempts are left.
unfoldable pub recovered_job : ℕ → Bool → Bool → ExecutionJob → ExecutionJob
unfolding lost_attempt
recovered_job now external again j = record j {
  status = recovered_status external again;
  lease_owner_digest = none;
  lease_expires_at = none;
  completed_at = recovered_at now external again;
  safe_error_code = some (expiry_code external);
  uncertain = external;
  attempts = lose_latest now external (latest_attempt j.attempts) j.attempts;
}

unfoldable pub recover_job : ℕ → ExecutionJob → ExecutionJob
unfolding recovered_job external_possible
recover_job now j = recovered_job now (external_possible j) (ltb j.attempt_count j.max_attempts) j

-- `_recover_expired_leases`: the rows that its query selects are rewritten one by one.
unfoldable pub recover_if_expired : ℕ → ExecutionJob → ExecutionJob
unfolding has_expired_lease recover_job
recover_if_expired now j = if has_expired_lease now j then recover_job now j else j

unfoldable pub recover_expired_leases : ℕ → Run (Unit {0})
recover_expired_leases now = set_jobs (map (recover_if_expired now))

-- The public `recover_expired_leases`; the list of rows that it reads back is left out.
unfoldable pub recover : ℕ → Run (Unit {0})
unfolding recover_expired_leases
recover now = recover_expired_leases now >> commit

abbrev pub owned_by : Text → Option Text → Bool
owned_by digest none = false
owned_by digest (some owner) = text_eq owner digest

abbrev pub lease_expired : ℕ → Option ℕ → Bool
lease_expired now none = true
lease_expired now (some t) = leb t now

abbrev pub running_attempt : Option ExecutionAttempt → Option ExecutionAttempt
running_attempt none = none
running_attempt (some a) = elim a.status [ AttemptStatus.running ↦ some a | _ ↦ none ]

abbrev pub assert_error : Text → Fields → Run (Unit {0})
assert_error code details = do
  raise_if (not (is_safe_error_code code)) (app "Safe error code is invalid" 422)
  raise_if (not (accepts_fields details))
      (app "Sensitive keys are not allowed in persisted fields" 422)

-- `_set_provider_call_count`: its refusal.
abbrev pub count_at_least : ℕ → ExecutionAttempt → Run (Unit {0})
count_at_least n a =
    raise_if (ltb n a.provider_call_count) (app "Provider call count cannot decrease" 409)

abbrev pub reported_count : Option ℕ → ExecutionAttempt → ℕ
reported_count none a = a.provider_call_count
reported_count (some n) a = n

-- What each of the four calls writes, once it is accepted.
unfoldable pub beat : ℕ → HeartbeatRequest → ExecutionJob → ExecutionAttempt → ExecutionJob
beat now req j a =
    let n = reported_count req.provider_call_count a in
    let external = req.external_submission_possible in
    record j {
      submitted_at = if external then or_else j.submitted_at now else j.submitted_at;
      lease_expires_at = some (now + seconds req.lease_seconds);
      attempts =
          put_attempt
            (record a {
              provider_call_count = n;
              external_submission_possible = external || a.external_submission_possible;
              provider_submission_state =
                  if external then SubmissionState.submit_unknown else a.provider_submission_state;
            })
            j.attempts;
    }

unfoldable pub completed : ℕ → CompleteRequest → ExecutionJob → ExecutionAttempt → ExecutionJob
completed now req j a = record j {
  provider_name = req.provider_name;
  provider_operation_id = req.provider_operation_id;
  result_entity_type = req.result_entity_type;
  result_entity_id = req.result_entity_id;
  submitted_at =
      if is_some req.provider_operation_id then or_else j.submitted_at now else j.submitted_at;
  status = JobStatus.succeeded;
  completed_at = some now;
  lease_owner_digest = none;
  lease_expires_at = none;
  uncertain = false;
  attempts =
      put_attempt
        (record a {
          provider_call_count = req.provider_call_count;
          status = AttemptStatus.succeeded;
          provider_submission_state =
              if ltb 0 req.provider_call_count || a.external_submission_possible
              then SubmissionState.response_received
              else SubmissionState.not_started;
          completed_at = some now;
        })
        j.attempts;
}

unfoldable pub failed_job : ℕ → FailRequest → ExecutionJob → ExecutionAttempt → ExecutionJob
failed_job now req j a = record j {
  status = JobStatus.failed;
  completed_at = some now;
  safe_error_code = some req.safe_error_code;
  safe_error_details = or_none req.safe_error_details;
  lease_owner_digest = none;
  lease_expires_at = none;
  uncertain = false;
  attempts =
      put_attempt
        (record a {
          provider_call_count = req.provider_call_count;
          status = AttemptStatus.failed;
          provider_submission_state = req.provider_submission_state;
          completed_at = some now;
          safe_error_code = some req.safe_error_code;
          safe_error_details = or_none req.safe_error_details;
        })
        j.attempts;
}

unfoldable pub unknown_job : ℕ → UnknownRequest → ExecutionJob → ExecutionAttempt → ExecutionJob
unknown_job now req j a = record j {
  status = JobStatus.submit_unknown;
  uncertain = true;
  safe_error_code = some req.safe_error_code;
  safe_error_details = or_none req.safe_error_details;
  provider_name = req.provider_name;
  provider_operation_id = req.provider_operation_id;
  submitted_at = or_else j.submitted_at now;
  completed_at = some now;
  lease_owner_digest = none;
  lease_expires_at = none;
  attempts =
      put_attempt
        (record a {
          provider_call_count = req.provider_call_count;
          external_submission_possible = true;
          provider_submission_state = SubmissionState.submit_unknown;
          status = AttemptStatus.submit_unknown;
          completed_at = some now;
          safe_error_code = some req.safe_error_code;
          safe_error_details = or_none req.safe_error_details;
        })
        j.attempts;
}

-- A lease that has run out is recovered, with all others, before the refusal.
abbrev pub refuse_expired : ℕ → Bool → Run (Unit {0})
refuse_expired now true = do recover now; raise (app "Execution job lease has expired" 409)
refuse_expired now false = pure tt

module _ (sha256 : Text → Text) where
  unfoldable pub owned_running : ℕ → Text → ℕ → Run (ExecutionJob × ExecutionAttempt)
  unfolding get recover
  owned_running id worker now = do
    j ← get id
    raise_if (not (is_running j.status)) (app "Execution job is not running" 409)
    raise_if (not (owned_by (sha256 worker) j.lease_owner_digest))
        (app "Execution job lease is owned by another worker" 409)
    refuse_expired now (lease_expired now j.lease_expires_at)
    a ←
        or_raise (running_attempt (latest_attempt j.attempts))
          (app "Execution attempt is unavailable" 409)
    pure (j, a)

  unfoldable pub heartbeat : ℕ → ℕ → HeartbeatRequest → Run ExecutionJob
  unfolding owned_running beat
  heartbeat now id req = do
    (j, a) ← owned_running id req.worker_id now
    count_at_least (reported_count req.provider_call_count a) a
    save (beat now req j a)

  unfoldable pub complete : ℕ → ℕ → CompleteRequest → Run ExecutionJob
  unfolding owned_running completed
  complete now id req = do
    (j, a) ← owned_running id req.worker_id now
    count_at_least req.provider_call_count a
    save (completed now req j a)

  unfoldable pub fail : ℕ → ℕ → FailRequest → Run ExecutionJob
  unfolding owned_running failed_job
  fail now id req = do
    assert_error req.safe_error_code req.safe_error_details
    (j, a) ← owned_running id req.worker_id now
    raise_if
        ((req.external_submission_possible || a.external_submission_possible)
          && not (is_certain req.provider_submission_state))
        (app "Possible external submission must be marked SUBMIT_UNKNOWN" 409)
    count_at_least req.provider_call_count a
    save (failed_job now req j a)

  unfoldable pub mark_submit_unknown : ℕ → ℕ → UnknownRequest → Run ExecutionJob
  unfolding owned_running unknown_job
  mark_submit_unknown now id req = do
    assert_error req.safe_error_code req.safe_error_details
    (j, a) ← owned_running id req.worker_id now
    count_at_least req.provider_call_count a
    save (unknown_job now req j a)
