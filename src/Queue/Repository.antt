-- ===== src/Queue/Repository.antt =====
-- backend/app/repositories/execution.py: the queries and the claiming UPDATE.
use social_pilot_ai.Base.{
  ℕ, ◌+◌, Bool, true, false, not, ◌&&◌, ◌||◌, Option, none, some, List, [], ◌∷◌, Text, text_eq, ltb,
  leb, ◌==◌, if◌then◌else◌, is_some, keep, any_of,
}
use social_pilot_ai.Queue.Types.{JobStatus, ExecutionAttempt, ExecutionJob, is_queued, is_running}

-- `get`: the row with this primary key.
abbrev pub get_job : ℕ → List ExecutionJob → Option ExecutionJob
get_job id [] = none
get_job id (j ∷ js) = if j.id == id then some j else get_job id js

abbrev pub get_by_idempotency_key : Text → List ExecutionJob → Option ExecutionJob
get_by_idempotency_key key [] = none
get_by_idempotency_key key (j ∷ js) =
    if text_eq j.idempotency_key key then some j else get_by_idempotency_key key js

-- The flush of a changed row.
abbrev pub put_job : ExecutionJob → List ExecutionJob → List ExecutionJob
put_job k [] = []
put_job k (j ∷ js) = (if j.id == k.id then k else j) ∷ put_job k js

abbrev pub put_attempt : ExecutionAttempt → List ExecutionAttempt → List ExecutionAttempt
put_attempt b [] = []
put_attempt b (a ∷ as') =
    (if a.attempt_number == b.attempt_number then b else a) ∷ put_attempt b as'

-- `latest_attempt`: the highest number, of the rows of one job.
abbrev pub latest_attempt : List ExecutionAttempt → Option ExecutionAttempt
latest_attempt [] = none
latest_attempt (a ∷ as') = elim (latest_attempt as') [
  | none ↦ some a
  | some b ↦ if ltb b.attempt_number a.attempt_number then some a else some b
]

-- The WHERE clause of `running_with_expired_lease`; a missing expiry is not expired there.
abbrev pub expired_by : ℕ → Option ℕ → Bool
expired_by now none = false
expired_by now (some t) = leb t now

unfoldable pub has_expired_lease : ℕ → ExecutionJob → Bool
has_expired_lease now j = is_running j.status && expired_by now j.lease_expires_at

-- SQL equality of two nullable keys: NULL equals nothing.
abbrev pub same_key : Option Text → Option Text → Bool
same_key (some a) (some b) = text_eq a b
same_key (some a) none = false
same_key none b = false

-- Another running row `k` with the key of `j`.
abbrev pub holds_key : ExecutionJob → ExecutionJob → Bool
holds_key j k =
    is_running k.status && same_key k.concurrency_key j.concurrency_key && not (k.id == j.id)

-- The subquery `active_same_key`, for one candidate.
unfoldable pub active_same_key : List ExecutionJob → ExecutionJob → Bool
active_same_key js j = any_of (holds_key j) js

abbrev pub type_listed : List Text → Text → Bool
type_listed [] t = true
type_listed (x ∷ xs) t = any_of (λ y. text_eq y t) (x ∷ xs)

-- The conditions of `claim_next`.
unfoldable pub claimable : List Text → List ExecutionJob → ExecutionJob → Bool
unfolding active_same_key
claimable types js j =
    is_queued j.status
    && ltb j.attempt_count j.max_attempts
    && (j.estimated_cost == 0 || j.cost_confirmed)
    && (not (is_some j.concurrency_key) || not (active_same_key js j))
    && type_listed types j.job_type

-- `ORDER BY priority DESC, created_at, id`
abbrev pub precedes : ExecutionJob → ExecutionJob → Bool
precedes a b =
    if ltb b.priority a.priority
    then true
    else if ltb a.priority b.priority
    then false
    else if ltb a.created_at b.created_at
    then true
    else if ltb b.created_at a.created_at
    then false
    else ltb a.id b.id

-- `LIMIT 1` of the rows in that order.
unfoldable pub first_in_order : List ExecutionJob → Option ExecutionJob
first_in_order [] = none
first_in_order (j ∷ js) = elim (first_in_order js) [
  | none ↦ some j
  | some k ↦ if precedes k j then some k else some j
]

unfoldable pub claim_candidate : List Text → List ExecutionJob → Option ExecutionJob
unfolding first_in_order claimable
claim_candidate types js = first_in_order (keep (claimable types js) js)

-- The SET clause of `claim_next`.
unfoldable pub claimed_job : Text → ℕ → ExecutionJob → ExecutionJob
claimed_job owner expires j = record j {
  status = JobStatus.running;
  attempt_count = j.attempt_count + 1;
  lease_owner_digest = some owner;
  lease_expires_at = some expires;
  safe_error_code = none;
  safe_error_details = none;
  completed_at = none;
  uncertain = false;
}
