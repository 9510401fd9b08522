-- ===== src/Queue/Tests.antt =====
-- The queue's theorems at concrete tables and requests.
use social_pilot_ai.Base.{
  ◌∷◌, ◌≤◌, ◌<◌, ◌≡◌, ◌≢◌, ◌⊎◌, ◌↔◌, refl, true, false, some, none, [], map, All, Text, codes,
  casefold, strip, length, text_eq, arith,
}
use social_pilot_ai.Json.{end, accepts_fields}
use social_pilot_ai.Action.{ok, err, app, request}
use social_pilot_ai.Queue.Types.{JobStatus, SubmissionState, ExecutionJob, Db, empty_db}
use social_pilot_ai.Queue.Repository.{
  get_job, same_key, claimable, claim_candidate, precedes, has_expired_lease,
  get_by_idempotency_key,
}
use social_pilot_ai.Queue.Requests.{
  HeartbeatRequest, CompleteRequest, FailRequest, UnknownRequest, is_safe_error_code,
  normalize_job_types,
}
use social_pilot_ai.Queue.Service.{pause, resume, cancel, retry}
use social_pilot_ai.Queue.Leases.{
  recover_expired_leases, beat, completed, failed_job, unknown_job, reported_count, heartbeat,
  complete, fail, mark_submit_unknown, recover, recover_if_expired,
}
use social_pilot_ai.Queue.Claim.{claim_rounds, calm, beaten, new_job, create, claim}
use social_pilot_ai.Queue.Lifecycle.{Advances}
use social_pilot_ai.Queue.Invariant.{DbOk}
use social_pilot_ai.Queue.Outcomes.{Answers, Counted, Failable, put, recovered_db, holder-Answers}
use social_pilot_ai.Queue.Accepting.{Reportable, Writes, holder_accepted}
use social_pilot_ai.Queue.Guarantees.{running_alone, constraints_hold, job-Advances}
use social_pilot_ai.Queue.Recovery.{Recovers, recover_lem, beat_never_requeued}
use social_pilot_ai.Queue.Selection.{MayClaim, claimable_iff, claim_candidate-first, claim_takes}
use social_pilot_ai.Queue.Candidate.{opened_job}
use social_pilot_ai.Queue.Written.{Opened, Renewed, Succeeded, FailedWith, Doubtful}
use social_pilot_ai.Queue.Creation.{Accepted, create_beaten, create_twice}
use social_pilot_ai.Queue.Controls.{controls_lem, resume-pause}
use social_pilot_ai.Queue.Samples.{
  plain, worker, lease, any_job, order, key_one, key_two, waiting, running, attempt, one, idle,
  half, busy, busy_reached, idle_to_half, one-DbOk, idle-DbOk, half-DbOk, busy-DbOk, mine,
}

running_alone_example : same_key (some key_one) (some key_two) ≡ false
running_alone_example =
    running_alone plain busy 1 2 (running 1 key_one) (running 2 key_two) busy_reached (λ e. cc) refl
      refl refl refl

constraints_hold_example : DbOk busy
constraints_hold_example = constraints_hold plain busy busy_reached

job-Advances_example :
    (k : ExecutionJob) × (get_job 1 half.jobs ≡ some k) × Advances (waiting 1 key_one) k
job-Advances_example =
    job-Advances plain idle half 1 (waiting 1 key_one) idle-DbOk idle_to_half refl

abbrev beat_request : HeartbeatRequest
beat_request = record {
  lease = lease;
  provider_call_count = some 1;
  external_submission_possible = true;
}

beat_never_requeued_example :
    let k = recover_if_expired 90000000 (beat 8 beat_request (running 1 key_one) (attempt 7)) in
    (k.status ≡ JobStatus.running) ⊎ ((k.status ≡ JobStatus.submit_unknown) × (k.uncertain ≡ true))
beat_never_requeued_example =
    beat_never_requeued 8 90000000 beat_request (running 1 key_one) (attempt 7) refl refl

recover_lem_example :
    let (r, d') = request (recover 90000000) busy in
    (r ≡ ok tt)
    × (d'.jobs ≡ map (recover_if_expired 90000000) busy.jobs)
    × All (λ j. Recovers 90000000 j (recover_if_expired 90000000 j)) busy.jobs
    × All (λ j. has_expired_lease 90000000 j ≡ false) d'.jobs
recover_lem_example = recover_lem 90000000 busy

abbrev complete_request : CompleteRequest
complete_request = record {
  worker_id = worker;
  provider_name = some (codes "qwen");
  provider_operation_id = some (codes "op-1");
  provider_call_count = 1;
  result_entity_type = some (codes "copy");
  result_entity_id = some 4;
}

abbrev fail_request : FailRequest
fail_request = record {
  worker_id = worker;
  safe_error_code = codes "E1";
  safe_error_details = end;
  provider_call_count = 1;
  external_submission_possible = true;
  provider_submission_state = SubmissionState.explicit_failure;
}

abbrev unknown_request : UnknownRequest
unknown_request = record {
  worker_id = worker;
  safe_error_code = codes "E1";
  safe_error_details = end;
  provider_call_count = 1;
  provider_name = none;
  provider_operation_id = none;
}

reportable : Reportable (codes "E1") end
unfolding is_safe_error_code accepts_fields
reportable = record { code_safe = refl; details_safe = refl }

holder-Answers_example :
    Answers worker 8 1 busy
      (Counted (reported_count (some 1)))
      (beat 8 beat_request)
      (request (heartbeat plain 8 1 beat_request) busy)
    × Answers worker 8 1 busy
        (Counted (λ a. 1))
        (completed 8 complete_request)
        (request (complete plain 8 1 complete_request) busy)
    × Answers worker 8 1 busy
        (Failable fail_request)
        (failed_job 8 fail_request)
        (request (fail plain 8 1 fail_request) busy)
    × Answers worker 8 1 busy
        (Counted (λ a. 1))
        (unknown_job 8 unknown_request)
        (request (mark_submit_unknown plain 8 1 unknown_request) busy)
holder-Answers_example =
    holder-Answers plain 8 1 busy busy-DbOk beat_request complete_request fail_request
      unknown_request

holder_accepted_example :
    let j = running 1 key_one in
    let a = attempt 7 in
    Writes busy
      (request (heartbeat plain 8 1 beat_request) busy)
      (beat 8 beat_request j a)
      (Renewed 8 beat_request j a)
    × Writes busy
        (request (complete plain 8 1 complete_request) busy)
        (completed 8 complete_request j a)
        (Succeeded 8 complete_request j a)
    × Writes busy
        (request (fail plain 8 1 fail_request) busy)
        (failed_job 8 fail_request j a)
        (FailedWith 8 fail_request j a)
    × Writes busy
        (request (mark_submit_unknown plain 8 1 unknown_request) busy)
        (unknown_job 8 unknown_request j a)
        (Doubtful 8 unknown_request j a)
holder_accepted_example =
    holder_accepted plain worker 8 1 busy (running 1 key_one) (attempt 7) mine beat_request
      complete_request fail_request unknown_request refl refl refl refl (omega (arith))
      (omega (arith)) reportable (record { counted = omega (arith); certain = λ e. refl })
      reportable (omega (arith))

claimable_iff_example :
    (claimable [] half.jobs (waiting 2 key_two) ≡ true) ↔ MayClaim [] half.jobs (waiting 2 key_two)
claimable_iff_example = claimable_iff [] half.jobs (waiting 2 key_two)

half_candidate : claim_candidate [] half.jobs ≡ some (waiting 2 key_two)
unfolding claim_candidate text_eq
half_candidate = refl

claim_candidate-first_example :
    (get_job 2 half.jobs ≡ some (waiting 2 key_two))
    × MayClaim [] half.jobs (waiting 2 key_two)
    × All (λ x. MayClaim [] half.jobs x → precedes x (waiting 2 key_two) ≡ false) half.jobs
claim_candidate-first_example =
    claim_candidate-first [] half (waiting 2 key_two) half-DbOk half_candidate

busy_candidate : claim_candidate [] busy.jobs ≡ none
unfolding claim_candidate text_eq
busy_candidate = refl

half_waiting : claim_candidate (normalize_job_types []) half.jobs ≡ some (waiting 2 key_two)
unfolding claim_candidate text_eq normalize_job_types
half_waiting = refl

-- At a time when the lease of the first job has run out.
claim_takes_example :
    let k = opened_job worker 70000000 40000000 (waiting 2 key_two) in
    (request (claim plain (λ n. 40000000) (λ n. calm) any_job) half
      ≡ (ok (some k), put k (recovered_db 40000000 half)))
    × Opened worker 70000000 40000000 (waiting 2 key_two) k
    × (has_expired_lease 40000000 (waiting 2 key_two) ≡ false)
claim_takes_example =
    claim_takes plain (λ n. 40000000) (λ n. calm) any_job half refl (some (waiting 2 key_two))
      half-DbOk half_waiting

-- Where that job alone is left, it is recovered by one claim and handed out by the next.
abbrev lost : Db
lost = record { jobs = running 1 key_one ∷ []; next_id = 2 }

not_at_once :
    request (claim plain (λ n. 40000000) (λ n. calm) any_job) lost
    ≡ (ok none, recovered_db 40000000 lost)
unfolding claim claim_rounds recover_expired_leases claim_candidate recover_if_expired
    normalize_job_types
not_at_once = refl

accepted : (key : Text) → 8 ≤ length (strip key) → Accepted (order key)
unfolding accepts_fields
accepted key long = record { payload_safe = refl; key_long = long }

Accepted-two : Accepted (order key_two)
unfolding strip
Accepted-two = accepted key_two (omega (arith))

Accepted-one : Accepted (order key_one)
unfolding strip
Accepted-one = accepted key_one (omega (arith))

key_two_new : get_by_idempotency_key (strip key_two) one.jobs ≡ none
unfolding strip text_eq
key_two_new = refl

key_one_known : get_by_idempotency_key (strip key_one) one.jobs ≡ some (waiting 1 key_one)
unfolding strip text_eq
key_one_known = refl

same_digest : (waiting 1 key_one).input_digest ≡ casefold (order key_one).input_digest
unfolding casefold
same_digest = refl

create_beaten_example :
    request (create (beaten one) 9 (order key_one)) empty_db
    ≡ (ok (record { job = waiting 1 key_one; reused = true }), one)
create_beaten_example =
    create_beaten 9 (order key_one) empty_db Accepted-one one (waiting 1 key_one) refl key_one_known
      same_digest

create_twice_example :
    let (first, d') = request (create calm 9 (order key_two)) one in
    (first ≡ ok (record { job = new_job 9 2 (order key_two); reused = false }))
    × (request (create calm 10 (order key_two)) d'
        ≡ (ok (record { job = new_job 9 2 (order key_two); reused = true }), d'))
create_twice_example =
    create_twice 9 10 (order key_two) (order key_two) calm one Accepted-two Accepted-two one-DbOk
      key_two_new refl refl

abbrev Retries : ExecutionJob → Db → Type 0
Retries j d =
    (j.status ≡ JobStatus.failed
      → j.attempt_count < j.max_attempts
      → let k = record j {
        status = JobStatus.queued;
        safe_error_code = none;
        safe_error_details = none;
        completed_at = none;
      } in
        request (retry j.id) d ≡ (ok k, put k d))
    × (j.status ≡ JobStatus.failed
        → j.max_attempts ≤ j.attempt_count
        → request (retry j.id) d
          ≡ (err (app "Execution job has exhausted its maximum attempts" 409), d))
    × (j.status ≢ JobStatus.failed
        → request (retry j.id) d ≡ (err (app "Only certain failed jobs can be retried" 409), d))

abbrev Cancels : Type 0
Cancels =
    ((JobStatus.queued ≡ JobStatus.queued) ⊎ (JobStatus.queued ≡ JobStatus.paused)
      → let k = record (waiting 1 key_one) {
        status = JobStatus.cancelled;
        completed_at = some 9;
      } in
        request (cancel 9 1) idle ≡ (ok k, put k idle))
    × (JobStatus.queued ≡ JobStatus.cancelled
        → request (cancel 9 1) idle ≡ (ok (waiting 1 key_one), idle))
    × (true ≡ false
        → false ≡ false
        → false ≡ false
        → request (cancel 9 1) idle
          ≡ (err (app "Running or terminal jobs cannot be cancelled" 409), idle))

controls_lem_example : Retries (waiting 1 key_one) idle × Cancels
controls_lem_example = controls_lem idle 1 (waiting 1 key_one) idle-DbOk refl 9

resume-pause_example : (request (resume 1) (request (pause 1) idle).1).1 ≡ idle
resume-pause_example = resume-pause idle 1 (waiting 1 key_one) idle-DbOk refl refl
