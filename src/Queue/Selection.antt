-- ===== src/Queue/Selection.antt =====
-- Which job a claim takes, and what it leaves.
use social_pilot_ai.Base.{
  ℕ, ◌+◌, ◌<◌, ◌≡◌, ◌≢◌, ◌⊎◌, ◌↔◌, refl, sym, subst, inl, inr, Bool, Option, true, false, some,
  none, List, [], ◌∷◌, All, All-imp, All-intro, any_of, any_of-eq-false, any_of-false, All-keep,
  keep, Text, text_eq, text_eq_iff, is_some, arith,
}
use social_pilot_ai.Action.{Result, ok, request, or_raise}
use social_pilot_ai.Queue.Types.{JobStatus, ExecutionJob, Db, is_running}
use social_pilot_ai.Queue.Repository.{
  get_job, put_job, same_key, holds_key, active_same_key, type_listed, claimable, precedes,
  claim_candidate, claimed_job, has_expired_lease,
}
use social_pilot_ai.Queue.Requests.{ClaimRequest, normalize_job_types}
use social_pilot_ai.Queue.Service.{get, seconds}
use social_pilot_ai.Queue.Leases.{recover_expired_leases}
use social_pilot_ai.Queue.Claim.{Flush, calm, claim, claim_rounds, claim_round, take_candidate}
use social_pilot_ai.Queue.Invariant.{DbOk, get-put_job}
use social_pilot_ai.Queue.Candidate.{opened_job, first_of_kept, first_is_first, first-none}
use social_pilot_ai.Queue.Written.{Opened}
use social_pilot_ai.Queue.Unflushed.{claim_candidate-recovered}
use social_pilot_ai.Queue.Outcomes.{recovered_db, put}

abbrev Listed : Text → List Text → Type 0
Listed t [] = ⊥
Listed t (x ∷ xs) = (x ≡ t) ⊎ Listed t xs

-- What it takes for a job to be handed to a worker that asks for these types.
pub record MayClaim (types : List Text) (js : List ExecutionJob) (j : ExecutionJob) : Type 0 where
  pub waiting : j.status ≡ JobStatus.queued
  pub room : j.attempt_count < j.max_attempts
  pub paid : (j.estimated_cost ≡ 0) ⊎ (j.cost_confirmed ≡ true)
  pub key_free :
      All
        (λ k.
          is_running k.status ≡ true
          → k.id ≢ j.id
          → same_key k.concurrency_key j.concurrency_key ≡ false)
        js
  pub wanted : (types ≡ []) ⊎ Listed j.job_type types

Listed-iff : (t : Text) (xs : List Text) → (any_of (λ y. text_eq y t) xs ≡ true) ↔ Listed t xs
Listed-iff t [] = (λ h. absurd (cc), λ h. absurd h)
Listed-iff t (x ∷ xs) =
    let (to, from) = Listed-iff t xs in
    (λ h. ground (arith, text_eq_iff x t, to), λ h. ground (arith, text_eq_iff x t, from))

key_free_of_no_key :
    (j : ExecutionJob) (js : List ExecutionJob)
    → is_some j.concurrency_key ≡ false
    → All
        (λ k.
          is_running k.status ≡ true
          → k.id ≢ j.id
          → same_key k.concurrency_key j.concurrency_key ≡ false)
        js
key_free_of_no_key j js e = All-intro _ js (λ k r d. ground (arith, e))

-- The conditions of the query hold of a row exactly when it is queued, has attempts left, costs
-- nothing or is confirmed, has a type that was asked for, and no other running row has its
-- concurrency key.
pub claimable_iff :
    (types : List Text) (js : List ExecutionJob) (j : ExecutionJob)
    → (claimable types js j ≡ true) ↔ MayClaim types js j
claimable_iff types js j = (to, from)
  where
    free :
        (is_some j.concurrency_key ≡ false) ⊎ (active_same_key js j ≡ false)
        → All
            (λ k.
              is_running k.status ≡ true
              → k.id ≢ j.id
              → same_key k.concurrency_key j.concurrency_key ≡ false)
            js
    free (inl e) = key_free_of_no_key j js e
    free (inr e) =
        All-imp (λ k. holds_key j k ≡ false) _ js (λ k q r d. ground (arith, q))
          (any_of-eq-false (holds_key j) js (unfold active_same_key in e))

    wants :
        (ts : List Text) → (type_listed ts j.job_type ≡ true) ↔ ((ts ≡ []) ⊎ Listed j.job_type ts)
    wants [] = (λ h. inl refl, λ h. refl)
    wants (t ∷ ts) = (
      λ h. inr ((Listed-iff j.job_type (t ∷ ts)).0 h),
      λ h. elim h [ inl e ↦ cc | inr l ↦ (Listed-iff j.job_type (t ∷ ts)).1 l ],
    )

    to : claimable types js j ≡ true → MayClaim types js j
    to h = record {
      waiting = unfold claimable in ground arith;
      room = unfold claimable in ground arith;
      paid = unfold claimable in ground arith;
      key_free = free (unfold claimable in ground arith);
      wanted = (wants types).0 (unfold claimable in ground arith);
    }

    from : MayClaim types js j → claimable types js j ≡ true
    from m =
        let busy : active_same_key js j ≡ false =
          unfold active_same_key in
          any_of-false (holds_key j) js (All-imp _ _ js (λ k f. ground (arith, f)) m.key_free) in
        let listed = (wants types).1 m.wanted in
        unfold claimable in ground (arith, busy, listed, m.waiting, m.room, m.paid)

-- On a table that meets the constraints, the candidate of a claim is a row of the table that may be
-- claimed, and no row that may be claimed comes before it in the order of priority, age and key.
pub claim_candidate-first :
    (types : List Text) (d : Db) (c : ExecutionJob)
    → DbOk d
    → claim_candidate types d.jobs ≡ some c
    → (get_job c.id d.jobs ≡ some c)
      × MayClaim types d.jobs c
      × All (λ x. MayClaim types d.jobs x → precedes x c ≡ false) d.jobs
unfolding claim_candidate
claim_candidate-first types d c h e =
    let (row, can) = first_of_kept (claimable types d.jobs) d.jobs c h.apart e in
    (
      row,
      (claimable_iff types d.jobs c).0 can,
      All-imp _ _ d.jobs (λ x k m. k ((claimable_iff types d.jobs x).1 m))
          (All-keep (λ x. precedes x c ≡ false) (claimable types d.jobs) d.jobs
            (first_is_first (keep (claimable types d.jobs) d.jobs) c e)),
    )

-- If there is no candidate, no row of the table may be claimed.
pub claim_candidate-none :
    (types : List Text) (d : Db)
    → claim_candidate types d.jobs ≡ none
    → All (λ x. ¬ MayClaim types d.jobs x) d.jobs
unfolding claim_candidate
claim_candidate-none types d e =
    All-imp _ _ d.jobs (λ x k m. k ((claimable_iff types d.jobs x).1 m))
      (All-keep (λ x. ⊥) (claimable types d.jobs) d.jobs
        (subst (All (λ x. ⊥)) (sym (first-none (keep (claimable types d.jobs) d.jobs) e)) tt))

candidate-unexpired :
    (now : ℕ) (types : List Text) (d : Db) (c : ExecutionJob)
    → DbOk d
    → claim_candidate types d.jobs ≡ some c
    → has_expired_lease now c ≡ false
unfolding has_expired_lease
candidate-unexpired now types d c h e =
    let (row, m, first) = claim_candidate-first types d c h e in ground (arith, m.waiting)

module _ (sha256 : Text → Text) (clock : ℕ → ℕ) (flush : ℕ → Flush) (req : ClaimRequest) (d : Db)
    (undisturbed : flush 2 ≡ calm) where
  -- The row that is made of a candidate: running, with one more attempt, leased to the worker.
  abbrev pub taken : ExecutionJob → ExecutionJob
  taken c = opened_job (sha256 req.worker_id) (clock 2 + seconds req.lease_seconds) (clock 2) c

  abbrev pub claim_outcome : Option ExecutionJob → Result (Option ExecutionJob) × Db
  claim_outcome none = (ok none, recovered_db (clock 2) d)
  claim_outcome (some c) = (ok (some (taken c)), put (taken c) (recovered_db (clock 2) d))

  abbrev pub is_expired : Option ExecutionJob → Bool
  is_expired none = false
  is_expired (some c) = has_expired_lease (clock 2) c

  abbrev pub IsOpened : Option ExecutionJob → Type 0
  IsOpened none = Unit
  IsOpened (some c) =
      Opened (sha256 req.worker_id) (clock 2 + seconds req.lease_seconds) (clock 2) c (taken c)

  taken-Opened :
      (c : ExecutionJob)
      → Opened (sha256 req.worker_id) (clock 2 + seconds req.lease_seconds) (clock 2) c (taken c)
  unfolding claimed_job
  taken-Opened c = record {
    same_id = refl;
    same_spec = refl;
    status = refl;
    counted = refl;
    owner = refl;
    until = refl;
    not_done = refl;
    no_code = refl;
    no_details = refl;
    certain = refl;
    same_submission = refl;
    attempt = _;
    begun = refl;
    number = refl;
    attempt_status = refl;
    start = refl;
    no_call = refl;
    no_submission = refl;
  }

  -- On a table that meets the constraints, a `claim` whose first round no other session disturbs
  -- picks the candidate of the table as it is before the recovery, answers it as a running row with
  -- one more attempt, leased to the worker until its time is up, as `Opened` says, and commits it
  -- together with the recovery of the expired leases; where that table has no candidate, it answers
  -- that there is no job and commits the recovery alone. So a job whose lease has run out is not
  -- handed out by the claim that recovers it.
  pub claim_takes :
      (candidate : Option ExecutionJob)
      → DbOk d
      → claim_candidate (normalize_job_types req.job_types) d.jobs ≡ candidate
      → (request (claim sha256 clock flush req) d ≡ claim_outcome candidate)
        × IsOpened candidate
        × (is_expired candidate ≡ false)
  unfolding claim claim_rounds claim_round take_candidate recover_expired_leases get
  claim_takes none h e = (rw (undisturbed, claim_round) (rw (e, take_candidate) refl), tt, refl)
  claim_takes (some c) h e =
      let (row, can) = claim_candidate-recovered (clock 2) _ d.jobs c h.apart e in
      let k = taken c in
      let after : get_job c.id (put_job k (recovered_db (clock 2) d).jobs) ≡ some k =
        unfold claimed_job in get-put_job k (recovered_db (clock 2) d).jobs c row in
      (
        rw (undisturbed, claim_round) (rw (e, take_candidate) (rw (after, or_raise) refl)),
        taken-Opened c,
        candidate-unexpired (clock 2) _ d c h e,
      )
