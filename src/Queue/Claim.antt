-- ===== src/Queue/Claim.antt =====
-- `ExecutionQueueService`, third part: `create` and `claim`, the two calls in which the source
-- expects another session to get in between.
use social_pilot_ai.Base.{
  ℕ, zero, suc, ◌+◌, Bool, true, false, not, Option, none, some, List, [], ◌∷◌, ◌++◌, Text, text_eq,
  length, ltb, if◌then◌else◌, casefold, strip, upper,
}
use social_pilot_ai.Json.{accepts_fields}
use social_pilot_ai.Action.{
  app, integrity, pure, raise, query, commit, rollback, modify, raise_if, ◌>>=◌, ◌>>◌, ok,
}
use social_pilot_ai.Queue.Types.{
  JobStatus, AttemptStatus, SubmissionState, ExecutionAttempt, ExecutionJob, Db,
}
use social_pilot_ai.Queue.Repository.{get_by_idempotency_key, put_job, claim_candidate, claimed_job}
use social_pilot_ai.Queue.Requests.{CreateRequest, ClaimRequest, normalize_job_types}
use social_pilot_ai.Queue.Service.{Run, seconds, set_jobs, get}
use social_pilot_ai.Queue.Leases.{recover_expired_leases}

-- What a flush meets: nothing; a unique index, because other sessions have committed this
-- database in the meantime; any other constraint.
pub data Flush : Type 0 where
  calm : Flush
  beaten : Db → Flush
  broken : Flush

-- The rollback after a conflict: the session then sees what the others have committed.
abbrev pub restart : Db → Run (Unit {0})
restart d s = (ok tt, record { committed = d; working = d })

-- `data.concurrency_key.strip() if data.concurrency_key else None`
abbrev pub stripped_key : Option Text → Option Text
stripped_key none = none
stripped_key (some []) = none
stripped_key (some (c ∷ t)) = some (strip (c ∷ t))

unfoldable pub new_job : ℕ → ℕ → CreateRequest → ExecutionJob
unfolding casefold strip upper
new_job now id req = record {
  id = id;
  spec = record {
    job_type = casefold req.job_type;
    source_type = casefold req.source_type;
    source_id = req.source_id;
    input_digest = casefold req.input_digest;
    idempotency_key = strip req.idempotency_key;
    input_payload = req.input_payload;
    priority = req.priority;
    concurrency_key = stripped_key req.concurrency_key;
    estimated_cost = req.estimated_cost;
    currency = upper req.currency;
    cost_confirmed = req.cost_confirmed;
    max_attempts = req.max_attempts;
    created_at = now;
  };
  status = JobStatus.queued;
  attempt_count = 0;
  lease_owner_digest = none;
  lease_expires_at = none;
  provider_name = none;
  provider_operation_id = none;
  submitted_at = none;
  completed_at = none;
  safe_error_code = none;
  safe_error_details = none;
  uncertain = false;
  result_entity_type = none;
  result_entity_id = none;
  attempts = [];
}

unfoldable pub insert_job : ℕ → CreateRequest → Db → Db
insert_job now req d = record {
  jobs = d.jobs ++ new_job now d.next_id req ∷ [];
  next_id = d.next_id + 1;
}

-- `ExecutionJobCreateRead`
pub record Created : Type 0 where
  pub job : ExecutionJob
  pub reused : Bool

-- `_idempotent_result`
unfoldable pub idempotent_result : ExecutionJob → Text → Run Created
idempotent_result j digest =
    if text_eq j.input_digest digest
    then pure (record { job = j; reused = true })
    else raise (app "Idempotency key was used for different input" 409)

-- The job that a conflicting insert has found, if it is there.
unfoldable pub concurrent_result : Option ExecutionJob → Text → Run Created
unfolding idempotent_result
concurrent_result none digest = raise integrity
concurrent_result (some j) digest = idempotent_result j digest

-- The flush of the new row and the commit, with the handler of `IntegrityError`.
unfoldable pub add_job : Flush → ℕ → Text → Text → CreateRequest → Run Created
unfolding insert_job get concurrent_result
add_job calm now key digest req = do
  id ← query (λ d. d.next_id)
  modify (insert_job now req)
  commit
  j ← get id
  pure (record { job = j; reused = false })
add_job (beaten d) now key digest req = do
  restart d
  found ← query (λ d. get_by_idempotency_key key d.jobs)
  concurrent_result found digest
add_job broken now key digest req = do
  rollback
  found ← query (λ d. get_by_idempotency_key key d.jobs)
  concurrent_result found digest

abbrev pub reuse_or_add :
    Option ExecutionJob → Flush → ℕ → Text → Text → CreateRequest → Run Created
reuse_or_add (some j) flush now key digest req = idempotent_result j digest
reuse_or_add none flush now key digest req = add_job flush now key digest req

unfoldable pub create : Flush → ℕ → CreateRequest → Run Created
unfolding idempotent_result add_job casefold strip
create flush now req = do
  raise_if (not (accepts_fields req.input_payload))
      (app "Sensitive keys are not allowed in persisted fields" 422)
  let digest = casefold req.input_digest
  let key = strip req.idempotency_key
  raise_if (ltb (length key) 8) (app "Idempotency key is invalid" 422)
  existing ← query (λ d. get_by_idempotency_key key d.jobs)
  reuse_or_add existing flush now key digest req

-- The attempt that a claim opens.
abbrev pub first_beat : ℕ → ℕ → ExecutionAttempt
first_beat now number = record {
  attempt_number = number;
  status = AttemptStatus.running;
  started_at = now;
  completed_at = none;
  safe_error_code = none;
  safe_error_details = none;
  provider_call_count = 0;
  external_submission_possible = false;
  provider_submission_state = SubmissionState.not_started;
}

abbrev pub add_attempt : ExecutionAttempt → ExecutionJob → ExecutionJob
add_attempt a j = record j { attempts = j.attempts ++ a ∷ [] }

-- `MAX_CLAIM_CONCURRENCY_RETRIES`
abbrev pub max_claim_concurrency_retries : ℕ
max_claim_concurrency_retries = 2

module _ (sha256 : Text → Text) where
  -- The end of a round that no other session disturbs: the UPDATE, the new attempt, the commit.
  -- The source's check that the row is still there cannot fail, since the UPDATE returned its key.
  unfoldable pub take_candidate : ℕ → ClaimRequest → Option ExecutionJob → Run (Option ExecutionJob)
  unfolding claimed_job get
  take_candidate now req none = do commit; pure none
  take_candidate now req (some c) = do
    let owner = sha256 req.worker_id
    let j = claimed_job owner (now + seconds req.lease_seconds) c
    set_jobs (put_job (add_attempt (first_beat now j.attempt_count) j))
    commit
    taken ← get c.id
    pure (some taken)

  -- What follows the recovery in one round; `stored` are the rows as they are in the database, and
  -- `again` is what a lost race is followed by.
  unfoldable pub claim_round :
      Flush
      → ℕ
      → ClaimRequest
      → List ExecutionJob
      → Run (Option ExecutionJob)
      → Run (Option ExecutionJob)
  unfolding take_candidate
  claim_round calm now req stored again =
      take_candidate now req (claim_candidate (normalize_job_types req.job_types) stored)
  claim_round (beaten d) now req stored again = do restart d; again
  claim_round broken now req stored again = do rollback; raise integrity

  -- The loop of `claim`: the rounds left after this one, and for each the clock and the flush. The
  -- sessions are made with `autoflush=False`: the recovery changes rows of the session alone until
  -- the flush of the new attempt or the commit, and the UPDATE reads the rows as they were.
  unfoldable pub claim_rounds : ℕ → (ℕ → ℕ) → (ℕ → Flush) → ClaimRequest → Run (Option ExecutionJob)
  unfolding claim_round
  claim_rounds zero clock flush req = do
    stored ← query (λ d. d.jobs)
    recover_expired_leases (clock 0)
    claim_round (flush 0) (clock 0) req stored (pure none)
  claim_rounds (suc n) clock flush req = do
    stored ← query (λ d. d.jobs)
    recover_expired_leases (clock (suc n))
    claim_round (flush (suc n)) (clock (suc n)) req stored (claim_rounds n clock flush req)

  unfoldable pub claim : (ℕ → ℕ) → (ℕ → Flush) → ClaimRequest → Run (Option ExecutionJob)
  claim clock flush req = claim_rounds max_claim_concurrency_retries clock flush req
