-- ===== src/Queue/Invariant.antt =====
-- What holds of the table between two calls: the CHECK constraints and unique indexes of
-- backend/app/models/execution.py, and how a job and its attempts agree.
use social_pilot_ai.Base.{
  ℕ, ◌≤◌, ◌<◌, ◌≡◌, ◌≢◌, refl, sym, subst, inl, inr, true, false, some, List, [], ◌∷◌, All, All-imp,
  All-zip, Pairwise, ◌⊎◌, ◌==◌, is_some, Bool-cases, arith,
}
use social_pilot_ai.Queue.Types.{ExecutionJob, Db, is_running, is_succeeded, is_submit_unknown}
use social_pilot_ai.Queue.Repository.{get_job, put_job, same_key}
use social_pilot_ai.Queue.Requests.{same_presence, positive}
use social_pilot_ai.Queue.Attempts.{Numbered, AttemptOk}
use social_pilot_ai.Queue.Lifecycle.{Advances, Advances-refl, Evolves, Evolves-refl}

-- One row: the CHECK constraints, and its attempts.
pub record JobOk (j : ExecutionJob) : Type 0 where
  -- `ck_execution_jobs_attempt_counts`
  pub capped : j.attempt_count ≤ j.max_attempts
  pub some_attempts : 1 ≤ j.max_attempts
  -- `ck_execution_jobs_uncertain_status`
  pub uncertain_status : j.uncertain ≡ is_submit_unknown j.status
  -- `ck_execution_jobs_lease_state`
  pub owner_while_running : is_some j.lease_owner_digest ≡ is_running j.status
  pub expiry_while_running : is_some j.lease_expires_at ≡ is_running j.status
  -- `ck_execution_jobs_result_reference`
  pub result_paired : same_presence j.result_entity_type j.result_entity_id ≡ true
  pub result_positive : positive j.result_entity_id ≡ true
  pub result_of_success : is_some j.result_entity_id ≡ true → is_succeeded j.status ≡ true
  pub numbered : Numbered 0 j.attempts j.attempt_count
  pub live_attempt : All (AttemptOk (is_running j.status) j.attempt_count) j.attempts
  pub claimed : is_running j.status ≡ true → 0 < j.attempt_count

-- Two rows, in the order of their keys: `uq_execution_jobs_idempotency` and
-- `uq_execution_jobs_running_concurrency_key`.
pub record Apart (j k : ExecutionJob) : Type 0 where
  pub ids : j.id < k.id
  pub keys : j.idempotency_key ≢ k.idempotency_key
  pub exclusive :
      is_running j.status ≡ true
      → is_running k.status ≡ true
      → same_key j.concurrency_key k.concurrency_key ≡ false

pub record DbOk (d : Db) : Type 0 where
  pub rows : All JobOk d.jobs
  pub apart : Pairwise Apart d.jobs
  pub fresh : All (λ j. j.id < d.next_id) d.jobs

-- A row found by its key.
pub get_job-id :
    (id : ℕ) (js : List ExecutionJob) (j : ExecutionJob) → get_job id js ≡ some j → j.id ≡ id
get_job-id id [] j e = cc
get_job-id id (x ∷ js) j e = ground (arith, get_job-id id js j)

pub get_job-cons :
    (id : ℕ) (x : ExecutionJob) (js : List ExecutionJob) (j : ExecutionJob)
    → get_job id (x ∷ js) ≡ some j
    → ((x.id ≡ id) × (x ≡ j)) ⊎ ((x.id ≢ id) × (get_job id js ≡ some j))
get_job-cons id x js j e = ground arith

module _ {κ} (P : ExecutionJob → Type κ) where
  pub All-get_job :
      (id : ℕ) (js : List ExecutionJob) (j : ExecutionJob) → All P js → get_job id js ≡ some j → P j
  All-get_job id [] j h e = absurd (cc)
  All-get_job id (x ∷ js) j h e = elim (get_job-cons id x js j e) [
    | inl p ↦ rw (← p.1) h.0
    | inr p ↦ All-get_job id js j h.1 p.1
  ]

  pub All-put_job :
      (k : ExecutionJob) (js : List ExecutionJob) → P k → All P js → All P (put_job k js)
  All-put_job k [] p h = tt
  All-put_job k (x ∷ js) p h = elim (Bool-cases (x.id == k.id)) [
    | inl e ↦ rw e (p, All-put_job k js p h.1)
    | inr e ↦ rw e (h.0, All-put_job k js p h.1)
  ]

-- Rows with a later key are left alone.
pub put_job-later :
    (k : ExecutionJob) (js : List ExecutionJob) → All (λ x. k.id < x.id) js → put_job k js ≡ js
put_job-later k [] h = refl
put_job-later k (x ∷ js) h = ground (arith, put_job-later k js h.1)

pub get-put_job :
    (k : ExecutionJob) (js : List ExecutionJob) (j : ExecutionJob)
    → get_job k.id js ≡ some j
    → get_job k.id (put_job k js) ≡ some k
get-put_job k [] j e = cc
get-put_job k (x ∷ js) j e = ground (arith, get-put_job k js j)

put_job-found :
    (k x : ExecutionJob) (js : List ExecutionJob)
    → x.id ≡ k.id
    → All (λ y. x.id < y.id) js
    → put_job k (x ∷ js) ≡ k ∷ js
put_job-found k x js e h =
    ground (arith, put_job-later k js (All-imp _ _ js (λ y l. omega (arith, l, e)) h))

put_job-other :
    (k x : ExecutionJob) (js : List ExecutionJob)
    → x.id ≢ k.id
    → put_job k (x ∷ js) ≡ x ∷ put_job k js
put_job-other k x js e = ground arith

after_first :
    (x : ExecutionJob) (js : List ExecutionJob) → All (Apart x) js → All (λ y. x.id < y.id) js
after_first x js = All-imp (Apart x) (λ y. x.id < y.id) js (λ y a. a.ids)

-- Replacing a row by one that is apart from the others too.
pub Pairwise-put_job :
    (k : ExecutionJob) (js : List ExecutionJob) (j : ExecutionJob)
    → get_job k.id js ≡ some j
    → All (λ x. Apart j x → Apart k x) js
    → All (λ x. Apart x j → Apart x k) js
    → Pairwise Apart js
    → Pairwise Apart (put_job k js)
Pairwise-put_job k [] j e after before p = tt
Pairwise-put_job k (x ∷ js) j e after before p = elim (get_job-cons k.id x js j e) [
  | inl found ↦
      subst (Pairwise Apart) (sym (put_job-found k x js found.0 (after_first x js p.0)))
        (All-zip (Apart j) (Apart k) js after.1 (subst (λ y. All (Apart y) js) found.1 p.0), p.1)
  | inr other ↦
      let x-j : Apart x j = All-get_job (Apart x) k.id js j p.0 other.1 in
      subst (Pairwise Apart) (sym (put_job-other k x js other.0)) (
        All-put_job (Apart x) k js (before.0 x-j) p.0,
        Pairwise-put_job k js j other.1 after.1 before.1 p.1,
      )
]

pub Evolves-put_job :
    (k : ExecutionJob) (js : List ExecutionJob) (j : ExecutionJob)
    → get_job k.id js ≡ some j
    → Advances j k
    → Pairwise Apart js
    → Evolves js (put_job k js)
Evolves-put_job k [] j e a p = tt
Evolves-put_job k (x ∷ js) j e a p = elim (get_job-cons k.id x js j e) [
  | inl found ↦
      subst (Evolves (x ∷ js)) (sym (put_job-found k x js found.0 (after_first x js p.0)))
        (subst (λ y. Advances y k) (sym found.1) a, Evolves-refl js)
  | inr other ↦
      subst (Evolves (x ∷ js)) (sym (put_job-other k x js other.0))
        (Advances-refl x, Evolves-put_job k js j other.1 a p.1)
]

-- A change of a row that starts no new run keeps its distance from every other row.
pub Apart-after :
    (j k x : ExecutionJob)
    → Advances j k
    → (is_running k.status ≡ true → is_running j.status ≡ true)
    → Apart j x
    → Apart k x
Apart-after j k x a run h = record {
  ids = rw a.same_id h.ids;
  keys = rw a.same_spec h.keys;
  exclusive = rw a.same_spec (λ p q. h.exclusive (run p) q);
}

pub Apart-before :
    (j k x : ExecutionJob)
    → Advances j k
    → (is_running k.status ≡ true → is_running j.status ≡ true)
    → Apart x j
    → Apart x k
Apart-before j k x a run h = record {
  ids = rw a.same_id h.ids;
  keys = rw a.same_spec h.keys;
  exclusive = rw a.same_spec (λ p q. h.exclusive p (run q));
}
