-- ===== src/Queue/Samples.antt =====
-- Small tables of the queue, and the calls that lead to them.
use social_pilot_ai.Base.{ℕ, ◌≡◌, refl, subst, false, some, none, [], ◌∷◌, Text, codes, text_eq}
use social_pilot_ai.Json.{null, end, field, accepts_fields}
use social_pilot_ai.Queue.Types.{
  JobStatus, AttemptStatus, SubmissionState, ExecutionAttempt, ExecutionJob, Db, empty_db,
}
use social_pilot_ai.Queue.Repository.{claim_candidate}
use social_pilot_ai.Queue.Requests.{
  CreateRequest, ClaimRequest, LeaseRequest, valid_create, normalize_job_types,
}
use social_pilot_ai.Queue.Claim.{calm, new_job, create, claim, claim_rounds}
use social_pilot_ai.Queue.Claiming.{calm_ok}
use social_pilot_ai.Queue.Leases.{recover_expired_leases, recover_if_expired}
use social_pilot_ai.Queue.Invariant.{DbOk}
use social_pilot_ai.Queue.System.{Call, create_job, claim_job, serve, Reach, here, next}
use social_pilot_ai.Queue.Guarantees.{constraints_hold}
use social_pilot_ai.Queue.Outcomes.{Holds}

-- A digest that keeps the text as it is.
abbrev pub plain : Text → Text
plain t = t

abbrev pub worker : Text
worker = codes "worker-01"

abbrev pub digest : Text
digest = codes "0000000000000000000000000000000000000000000000000000000000000000"

abbrev pub order : Text → CreateRequest
order key = record {
  job_type = codes "qwen.copy";
  source_type = codes "project";
  source_id = 1;
  input_digest = digest;
  idempotency_key = key;
  input_payload = field (codes "topic") null end;
  priority = 10;
  concurrency_key = some key;
  estimated_cost = 0;
  currency = codes "CNY";
  cost_confirmed = false;
  max_attempts = 3;
}

abbrev pub key_one : Text
key_one = codes "order-001"

abbrev pub key_two : Text
key_two = codes "order-002"

abbrev pub lease : LeaseRequest
lease = record { worker_id = worker; lease_seconds = 30 }

abbrev pub any_job : ClaimRequest
any_job = record { lease = lease; job_types = [] }

abbrev pub claim_at : ℕ → Call
claim_at now = claim_job (λ k. now) (λ k. calm) any_job

abbrev pub attempt : ℕ → ExecutionAttempt
attempt now = record {
  attempt_number = 1;
  status = AttemptStatus.running;
  started_at = now;
  completed_at = none;
  safe_error_code = none;
  safe_error_details = none;
  provider_call_count = 0;
  external_submission_possible = false;
  provider_submission_state = SubmissionState.not_started;
}

-- A row that `create` leaves, and the same row once it runs.
abbrev pub waiting : ℕ → Text → ExecutionJob
waiting id key = record {
  id = id;
  spec = record {
    job_type = codes "qwen.copy";
    source_type = codes "project";
    source_id = 1;
    input_digest = digest;
    idempotency_key = key;
    input_payload = field (codes "topic") null end;
    priority = 10;
    concurrency_key = some key;
    estimated_cost = 0;
    currency = codes "CNY";
    cost_confirmed = false;
    max_attempts = 3;
    created_at = 5;
  };
  status = JobStatus.queued;
  attempt_count = 0;
  lease_owner_digest = none;
  lease_expires_at = none;
  provider_name = none;
  provider_operation_id = none;
  submitted_at = none;
  completed_at = none;
  safe_error_code = none;
  safe_error_details = none;
  uncertain = false;
  result_entity_type = none;
  result_entity_id = none;
  attempts = [];
}

abbrev pub running : ℕ → Text → ExecutionJob
running id key = record (waiting id key) {
  status = JobStatus.running;
  attempt_count = 1;
  lease_owner_digest = some worker;
  lease_expires_at = some 30000007;
  attempts = attempt 7 ∷ [];
}

abbrev pub table : ExecutionJob → ExecutionJob → Db
table j k = record { jobs = j ∷ k ∷ []; next_id = 3 }

abbrev pub one : Db
one = record { jobs = waiting 1 key_one ∷ []; next_id = 2 }

step_one : serve plain (create_job calm 5 (order key_one)) empty_db ≡ one
unfolding serve valid_create create accepts_fields new_job
step_one = refl

step_two :
    serve plain (create_job calm 5 (order key_two)) one
    ≡ table (waiting 1 key_one) (waiting 2 key_two)
unfolding serve valid_create create accepts_fields new_job text_eq
step_two = refl

step_three :
    serve plain (claim_at 7) (table (waiting 1 key_one) (waiting 2 key_two))
    ≡ table (running 1 key_one) (waiting 2 key_two)
unfolding serve claim claim_rounds recover_expired_leases claim_candidate recover_if_expired
    normalize_job_types
step_three = refl

step_four :
    serve plain (claim_at 7) (table (running 1 key_one) (waiting 2 key_two))
    ≡ table (running 1 key_one) (running 2 key_two)
unfolding serve claim claim_rounds recover_expired_leases claim_candidate recover_if_expired
    normalize_job_types text_eq
step_four = refl

abbrev pub idle : Db
idle = table (waiting 1 key_one) (waiting 2 key_two)

abbrev pub half : Db
half = table (running 1 key_one) (waiting 2 key_two)

abbrev pub busy : Db
busy = table (running 1 key_one) (running 2 key_two)

pub one_reached : Reach plain empty_db one
one_reached =
    subst (Reach plain empty_db) step_one (next here (create_job calm 5 (order key_one)) calm_ok)

pub idle_reached : Reach plain empty_db idle
idle_reached =
    subst (Reach plain empty_db) step_two
      (next one_reached (create_job calm 5 (order key_two)) calm_ok)

pub half_reached : Reach plain empty_db half
half_reached =
    subst (Reach plain empty_db) step_three (next idle_reached (claim_at 7) (λ k. calm_ok))

pub busy_reached : Reach plain empty_db busy
busy_reached =
    subst (Reach plain empty_db) step_four (next half_reached (claim_at 7) (λ k. calm_ok))

-- The first table whose rows have begun to run, from the first table with both.
pub idle_to_half : Reach plain idle half
idle_to_half = subst (Reach plain idle) step_three (next here (claim_at 7) (λ k. calm_ok))

pub one-DbOk : DbOk one
one-DbOk = constraints_hold plain one one_reached

pub idle-DbOk : DbOk idle
idle-DbOk = constraints_hold plain idle idle_reached

pub half-DbOk : DbOk half
half-DbOk = constraints_hold plain half half_reached

pub busy-DbOk : DbOk busy
busy-DbOk = constraints_hold plain busy busy_reached

pub mine : Holds worker 8 1 busy (running 1 key_one) (attempt 7)
unfolding text_eq
mine = record {
  asked = refl;
  row = refl;
  row_running = refl;
  owner = refl;
  unexpired = refl;
  latest = refl;
  attempt_running = refl;
}
