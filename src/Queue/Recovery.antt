-- ===== src/Queue/Recovery.antt =====
-- The recovery of expired leases, row by row.
use social_pilot_ai.Base.{
  ℕ, ◌≤◌, ◌<◌, ◌≡◌, ◌⊎◌, ◌∙◌, ap, refl, inl, inr, true, false, none, map, All, All-map, All-intro,
  Bool-cases, arith,
}
use social_pilot_ai.Action.{ok, request}
use social_pilot_ai.Queue.Types.{JobStatus, ExecutionAttempt, ExecutionJob, Db}
use social_pilot_ai.Queue.Repository.{has_expired_lease}
use social_pilot_ai.Queue.Requests.{HeartbeatRequest}
use social_pilot_ai.Queue.Leases.{
  external_possible, recover_if_expired, recover_expired_leases, recover, beat,
}

module _ (now : ℕ) (j : ExecutionJob) where
  -- Recovery, by cases: a row whose lease has not run out stays; one that may have reached a
  -- provider becomes uncertain and is never queued again by it; any other is queued again while
  -- it has attempts left, and fails when it has none.
  pub record Recovers (k : ExecutionJob) : Type 0 where
    pub kept : has_expired_lease now j ≡ false → k ≡ j
    pub uncertain_kept :
        has_expired_lease now j ≡ true
        → external_possible j ≡ true
        → (k.status ≡ JobStatus.submit_unknown) × (k.uncertain ≡ true)
    pub queued_again :
        has_expired_lease now j ≡ true
        → external_possible j ≡ false
        → j.attempt_count < j.max_attempts
        → (k.status ≡ JobStatus.queued) × (k.uncertain ≡ false)
    pub given_up :
        has_expired_lease now j ≡ true
        → external_possible j ≡ false
        → j.max_attempts ≤ j.attempt_count
        → (k.status ≡ JobStatus.failed) × (k.uncertain ≡ false)
    pub released :
        has_expired_lease now j ≡ true → (k.lease_owner_digest ≡ none) × (k.lease_expires_at ≡ none)

  pub recover_if_expired-Recovers : Recovers (recover_if_expired now j)
  recover_if_expired-Recovers = record {
    kept = λ e. unfold recover_if_expired in ground arith;
    uncertain_kept = λ e x. unfold recover_if_expired in ground arith;
    queued_again = λ e x l. unfold recover_if_expired in ground arith;
    given_up = λ e x l. unfold recover_if_expired in ground arith;
    released = λ e. unfold recover_if_expired in ground arith;
  }

-- A recovered row has no lease that has run out.
recovered_unexpired :
    (now : ℕ) (j : ExecutionJob) → has_expired_lease now (recover_if_expired now j) ≡ false
unfolding recover_if_expired
recovered_unexpired now j = elim (Bool-cases (has_expired_lease now j)) [
  | inl e ↦ unfold has_expired_lease in ground (arith, e)
  | inr e ↦ rw e e
]

-- `recover_expired_leases` answers and commits a table in which each row is as the recovery of that
-- row makes it: kept if its lease has not run out; uncertain if it may have reached a provider;
-- otherwise queued again while attempts are left and failed when none is; its lease cleared in each
-- of the last three cases. No row of that table has a lease that has run out.
pub recover_lem :
    (now : ℕ) (d : Db)
    → let (r, d') = request (recover now) d in
      (r ≡ ok tt)
      × (d'.jobs ≡ map (recover_if_expired now) d.jobs)
      × All (λ j. Recovers now j (recover_if_expired now j)) d.jobs
      × All (λ j. has_expired_lease now j ≡ false) d'.jobs
unfolding recover recover_expired_leases
recover_lem now d = (
  refl,
  refl,
  All-intro _ d.jobs (recover_if_expired-Recovers now),
  All-map _ _ (recover_if_expired now) d.jobs (λ j t. recovered_unexpired now j)
      (All-intro (λ j. Unit {0}) d.jobs (λ j. tt)),
)

-- After a heartbeat on a running job that reports a possible external submission, recovering its
-- lease at any later time leaves it running or makes it uncertain: it is not queued again.
pub beat_never_requeued :
    (now later : ℕ) (req : HeartbeatRequest) (j : ExecutionJob) (a : ExecutionAttempt)
    → j.status ≡ JobStatus.running
    → req.external_submission_possible ≡ true
    → let k = recover_if_expired later (beat now req j a) in
      (k.status ≡ JobStatus.running)
      ⊎ ((k.status ≡ JobStatus.submit_unknown) × (k.uncertain ≡ true))
beat_never_requeued now later req j a e x =
    let external : external_possible (beat now req j a) ≡ true =
      unfold external_possible beat in ground (arith, x) in
    let running : (beat now req j a).status ≡ JobStatus.running = unfold beat in e in
    let outcome = recover_if_expired-Recovers later (beat now req j a) in
    elim (Bool-cases (has_expired_lease later (beat now req j a))) [
      | inl p ↦ inr (outcome.uncertain_kept p external)
      | inr p ↦ inl (ap (λ (k : ExecutionJob). k.status) (outcome.kept p) ∙ running)
    ]
