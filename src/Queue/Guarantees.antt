-- ===== src/Queue/Guarantees.antt =====
-- What the queue guarantees over any calls of any clients.
use social_pilot_ai.Base.{
  ℕ, ◌≡◌, ◌≢◌, ◌⊎◌, subst, inl, inr, false, some, List, [], ◌∷◌, Pairwise, Text, arith,
}
use social_pilot_ai.Queue.Types.{JobStatus, ExecutionJob, Db, empty_db}
use social_pilot_ai.Queue.Repository.{get_job, same_key}
use social_pilot_ai.Queue.Lifecycle.{Advances, Evolves}
use social_pilot_ai.Queue.Invariant.{Apart, DbOk, All-get_job, get_job-cons}
use social_pilot_ai.Queue.Candidate.{same_key_comm}
use social_pilot_ai.Queue.System.{Reach, Reach-Sound}

empty-DbOk : DbOk empty_db
empty-DbOk = record { rows = tt; apart = tt; fresh = tt }

-- From the empty table, whatever calls any clients make, in any order, and whatever races `create`
-- and `claim` lose to sessions that themselves keep the constraints: the CHECK constraints and
-- unique indexes on status, lease, result, attempts and keys hold of the table, and each job's
-- attempts are numbered from 1, with the latest of them running exactly while the job does.
pub constraints_hold : (sha256 : Text → Text) (d : Db) → Reach sha256 empty_db d → DbOk d
constraints_hold sha256 d r = (Reach-Sound sha256 empty_db d empty-DbOk r).ok_db

get_evolved :
    (id : ℕ) (js ks : List ExecutionJob) (j : ExecutionJob)
    → Evolves js ks
    → get_job id js ≡ some j
    → (k : ExecutionJob) × (get_job id ks ≡ some k) × Advances j k
get_evolved id [] ks j e g = absurd (cc)
get_evolved id (x ∷ js) [] j e g = absurd e
get_evolved id (x ∷ js) (y ∷ ks) j e g = elim (get_job-cons id x js j g) [
  | inl found ↦ (y, ground (arith, found, e.0.same_id), subst (λ z. Advances z y) found.1 e.0)
  | inr other ↦
      let (k, row, a) = get_evolved id js ks j e.1 other.1 in
      (k, ground (arith, row, other.0, e.0.same_id), a)
]

-- For a table that meets the constraints and any calls from it whose races are lost only to
-- sessions that keep the constraints, a row found by its key is still found under that key
-- afterwards, with the columns that `create` wrote, a status that the status diagram reaches, no
-- fewer attempts, the time of its first submission if it had one, and wholly unchanged if its
-- status was final.
pub job-Advances :
    (sha256 : Text → Text) (start d : Db) (id : ℕ) (j : ExecutionJob)
    → DbOk start
    → Reach sha256 start d
    → get_job id start.jobs ≡ some j
    → (k : ExecutionJob) × (get_job id d.jobs ≡ some k) × Advances j k
job-Advances sha256 start d id j h r g =
    get_evolved id start.jobs d.jobs j (Reach-Sound sha256 start d h r).evolves g

-- Two rows of one table are apart, one way round or the other.
rows-Apart :
    (i n : ℕ) (js : List ExecutionJob) (j k : ExecutionJob)
    → i ≢ n
    → Pairwise Apart js
    → get_job i js ≡ some j
    → get_job n js ≡ some k
    → Apart j k ⊎ Apart k j
rows-Apart i n [] j k d p a b = absurd (cc)
rows-Apart i n (x ∷ js) j k d p a b = elim (get_job-cons i x js j a) [
  | inl here ↦ elim (get_job-cons n x js k b) [
    | inl there ↦ absurd (d (omega (arith, here.0, there.0)))
    | inr there ↦ inl (subst (λ z. Apart z k) here.1 (All-get_job (Apart x) n js k p.0 there.1))
  ]
  | inr here ↦ elim (get_job-cons n x js k b) [
    | inl there ↦ inr (subst (λ z. Apart z j) there.1 (All-get_job (Apart x) i js j p.0 here.1))
    | inr there ↦ rows-Apart i n js j k d p.1 here.1 there.1
  ]
]

-- In every table that calls of any clients reach from the empty one, with the races of `create` and
-- `claim` lost only to sessions that keep the constraints, two different rows that are both running
-- do not have the same concurrency key.
pub running_alone :
    (sha256 : Text → Text) (d : Db) (i n : ℕ) (j k : ExecutionJob)
    → Reach sha256 empty_db d
    → i ≢ n
    → get_job i d.jobs ≡ some j
    → get_job n d.jobs ≡ some k
    → j.status ≡ JobStatus.running
    → k.status ≡ JobStatus.running
    → same_key j.concurrency_key k.concurrency_key ≡ false
running_alone sha256 d i n j k r ne a b p q =
    elim (rows-Apart i n d.jobs j k ne (constraints_hold sha256 d r).apart a b) [
      | inl h ↦ h.exclusive (ground arith) (ground arith)
      | inr h ↦ rw same_key_comm (h.exclusive (ground arith) (ground arith))
    ]
