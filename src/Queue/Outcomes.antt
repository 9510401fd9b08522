-- ===== src/Queue/Outcomes.antt =====
-- What a call of the worker that holds a lease answers and commits, on every branch.
use social_pilot_ai.Base.{
  ℕ, ◌≤◌, ◌≡◌, ◌⊎◌, refl, sym, subst, inl, inr, true, false, not, ◌||◌, ◌&&◌, Bool-cases, some, map,
  Text, ltb, arith, Bool,
}
use social_pilot_ai.Json.{Fields, accepts_fields}
use social_pilot_ai.Action.{Session, Error, Result, ok, err, request, raise_if, ◌>>=◌, Ends}
use social_pilot_ai.Queue.Types.{JobStatus, ExecutionAttempt, ExecutionJob, Db, is_certain}
use social_pilot_ai.Queue.Repository.{get_job, put_job, latest_attempt}
use social_pilot_ai.Queue.Requests.{
  HeartbeatRequest, CompleteRequest, FailRequest, UnknownRequest, is_safe_error_code,
}
use social_pilot_ai.Queue.Service.{Run, save}
use social_pilot_ai.Queue.Leases.{
  owned_running, owned_by, lease_expired, recover_if_expired, recover, recover_expired_leases,
  heartbeat, complete, fail, mark_submit_unknown, assert_error, reported_count, beat, completed,
  failed_job, unknown_job,
}
use social_pilot_ai.Queue.Attempts.{is_running_attempt}
use social_pilot_ai.Queue.Invariant.{DbOk}
use social_pilot_ai.Queue.Sound.{save_lem}
use social_pilot_ai.Queue.Granted.{Granted, Granted-Ends}

-- The table after the recovery of every lease that has run out.
abbrev pub recovered_db : ℕ → Db → Db
recovered_db now d = record d { jobs = map (recover_if_expired now) d.jobs }

-- The table with one row rewritten.
abbrev pub put : ExecutionJob → Db → Db
put k d = record d { jobs = put_job k d.jobs }

-- The worker's job with its current attempt: running, leased to this worker, not yet expired.
pub record Holds (digest : Text) (now id : ℕ) (d : Db) (j : ExecutionJob) (a : ExecutionAttempt)
    : Type 0 where
  pub asked : j.id ≡ id
  pub row : get_job j.id d.jobs ≡ some j
  pub row_running : j.status ≡ JobStatus.running
  pub owner : owned_by digest j.lease_owner_digest ≡ true
  pub unexpired : lease_expired now j.lease_expires_at ≡ false
  pub latest : latest_attempt j.attempts ≡ some a
  pub attempt_running : is_running_attempt a.status ≡ true

-- The reported number of provider calls is not below the stored one.
abbrev pub Counted : (ExecutionAttempt → ℕ) → ExecutionJob → ExecutionAttempt → Type 0
Counted n j a = a.provider_call_count ≤ n a

-- What `fail` asks of its request.
pub record Failable (req : FailRequest) (j : ExecutionJob) (a : ExecutionAttempt) : Type 0 where
  pub counted : a.provider_call_count ≤ req.provider_call_count
  pub certain :
      (req.external_submission_possible ≡ true) ⊎ (a.external_submission_possible ≡ true)
      → is_certain req.provider_submission_state ≡ true

-- An error commits nothing but, at most, a recovery.
abbrev pub Untouched : ℕ → Db → Db → Type 0
Untouched now d d' = (d' ≡ d) ⊎ (d' ≡ recovered_db now d)

module _ (digest : Text) (now id : ℕ) (d : Db) (allowed : ExecutionJob → ExecutionAttempt → Type 0)
    (write : ExecutionJob → ExecutionAttempt → ExecutionJob) where
  -- The answer is the row as written, which is what is committed, for the worker that holds the
  -- job and a request that is allowed; or an error.
  abbrev pub Answers : Result ExecutionJob × Db → Type 0
  Answers (ok k, d') =
      (j : ExecutionJob) × (a : ExecutionAttempt) × Holds digest now id d j a
      × allowed j a
      × (k ≡ write j a)
      × (d' ≡ put k d)
  Answers (err e, d') = Untouched now d d'

  abbrev AnswersOk : ExecutionJob → Session Db → Type 0
  AnswersOk k s' = Answers (ok k, s'.committed)

  abbrev AnswersErr : Session Db → Type 0
  AnswersErr s' = Untouched now d s'.committed

  abbrev start_session : Session Db
  start_session = record { committed = d; working = d }

  answered :
      (r : Result ExecutionJob × Session Db)
      → Ends AnswersOk AnswersErr r
      → Answers (r.0, r.1.committed)
  answered (ok k, t) h = h
  answered (err e, t) h = h

  -- The row is written once nothing speaks against it.
  save-Ends :
      (j : ExecutionJob) (a : ExecutionAttempt)
      → Holds digest now id d j a
      → allowed j a
      → (write j a).id ≡ j.id
      → Ends AnswersOk AnswersErr (save (write j a) start_session)
  save-Ends j a h ok' e =
      subst (Ends AnswersOk AnswersErr)
        (sym (
          save_lem start_session j (write j a)
            (subst (λ n. get_job n d.jobs ≡ some j) (sym e) h.row)))
        (j, a, h, ok', refl, refl)

  refuse-Ends :
      (b : Bool) (x : Error) (m : Unit {0} → Run ExecutionJob)
      → (b ≡ false → Ends AnswersOk AnswersErr (m tt start_session))
      → Ends AnswersOk AnswersErr ((raise_if b x >>= m) start_session)
  refuse-Ends true x m k = inl refl
  refuse-Ends false x m k = k refl

  error-Ends :
      (code : Text) (details : Fields) (m : Unit {0} → Run ExecutionJob)
      → Ends AnswersOk AnswersErr (m tt start_session)
      → Ends AnswersOk AnswersErr ((assert_error code details >>= m) start_session)
  error-Ends code details m k = elim (Bool-cases (is_safe_error_code code)) [
    | inr e ↦ rw e (inl refl)
    | inl e ↦ rw e (elim (Bool-cases (accepts_fields details)) [
      | inr e' ↦ rw e' (inl refl)
      | inl e' ↦ rw e' k
    ])
  ]

-- What `owned_running` has granted on a session that has just been opened.
holds :
    (digest : Text) (now id : ℕ) (d : Db) (j : ExecutionJob) (a : ExecutionAttempt)
    → Granted digest now id (record { committed = d; working = d }) j a
    → Holds digest now id d j a
holds digest now id d j a g = record {
  asked = g.asked;
  row = g.row.row;
  row_running = g.row_running;
  owner = g.owner;
  unexpired = g.unexpired;
  latest = g.latest;
  attempt_running = g.attempt_running;
}

module _ (sha256 : Text → Text) (now id : ℕ) (d : Db) (h : DbOk d) where
  granted-Answers :
      (worker : Text) (allowed : ExecutionJob → ExecutionAttempt → Type 0)
      (write : ExecutionJob → ExecutionAttempt → ExecutionJob)
      (f : ExecutionJob × ExecutionAttempt → Run ExecutionJob)
      → ((j : ExecutionJob) (a : ExecutionAttempt)
          → Holds (sha256 worker) now id d j a
          → Ends
              (AnswersOk (sha256 worker) now id d allowed write)
              (AnswersErr (sha256 worker) now id d allowed write)
              (f (j, a) (record { committed = d; working = d })))
      → Ends
          (AnswersOk (sha256 worker) now id d allowed write)
          (AnswersErr (sha256 worker) now id d allowed write)
          ((owned_running sha256 id worker now >>= f) (record { committed = d; working = d }))
  granted-Answers worker allowed write f k =
      Granted-Ends sha256 _ h id worker now f _ _ (inl refl)
        (unfold recover recover_expired_leases in inr refl)
        (λ j a g. k j a (holds (sha256 worker) now id d j a g))

  -- On a table that meets the constraints, `heartbeat` answers a row only if the worker holds the
  -- job and the call count has not gone down; the answer is then the renewed row and it is
  -- committed. An error commits nothing or only a recovery.
  pub heartbeat-Answers :
      (req : HeartbeatRequest)
      → Answers
          (sha256 req.worker_id)
          now
          id
          d
          (Counted (reported_count req.provider_call_count))
          (beat now req)
          (request (heartbeat sha256 now id req) d)
  unfolding heartbeat
  heartbeat-Answers req =
      let digest = sha256 req.worker_id in
      let allowed = Counted (reported_count req.provider_call_count) in
      answered digest now id d allowed (beat now req) _ (
        granted-Answers req.worker_id allowed (beat now req) _ λ j a g.
          refuse-Ends digest now id d allowed (beat now req)
            (ltb (reported_count req.provider_call_count a) a.provider_call_count) _ _
            λ c.
              save-Ends digest now id d allowed (beat now req) j a g (ground arith)
                (unfold beat in refl))

  -- On a table that meets the constraints, `complete` answers a row only if the worker holds the
  -- job and the call count has not gone down; the answer is then the succeeded row and it is
  -- committed. An error commits nothing or only a recovery.
  pub complete-Answers :
      (req : CompleteRequest)
      → Answers
          (sha256 req.worker_id)
          now
          id
          d
          (Counted (λ a. req.provider_call_count))
          (completed now req)
          (request (complete sha256 now id req) d)
  unfolding complete
  complete-Answers req =
      let digest = sha256 req.worker_id in
      let allowed = Counted (λ a. req.provider_call_count) in
      answered digest now id d allowed (completed now req) _ (
        granted-Answers req.worker_id allowed (completed now req) _ λ j a g.
          refuse-Ends digest now id d allowed (completed now req)
            (ltb req.provider_call_count a.provider_call_count) _ _
            λ c.
              save-Ends digest now id d allowed (completed now req) j a g (ground arith)
                (unfold completed in refl))

  -- On a table that meets the constraints, `fail` answers a row only if the worker holds the job,
  -- the call count has not gone down, and the outcome is certain where a submission is possible;
  -- the answer is then the failed row and it is committed. An error commits nothing or only a
  -- recovery.
  pub fail-Answers :
      (req : FailRequest)
      → Answers
          (sha256 req.worker_id)
          now
          id
          d
          (Failable req)
          (failed_job now req)
          (request (fail sha256 now id req) d)
  unfolding fail
  fail-Answers req =
      let digest = sha256 req.worker_id in
      let write = failed_job now req in
      answered digest now id d (Failable req) write _ (
        error-Ends digest now id d (Failable req) write req.safe_error_code req.safe_error_details _
          (granted-Answers req.worker_id (Failable req) write _ λ j a g.
            refuse-Ends digest now id d (Failable req) write
              ((req.external_submission_possible || a.external_submission_possible)
                && not (is_certain req.provider_submission_state))
              _ _
              λ u.
                refuse-Ends digest now id d (Failable req) write
                  (ltb req.provider_call_count a.provider_call_count) _ _
                  λ c.
                    save-Ends digest now id d (Failable req) write j a g (ground arith)
                      (unfold failed_job in refl)))

  -- On a table that meets the constraints, `mark_submit_unknown` answers a row only if the worker
  -- holds the job and the call count has not gone down; the answer is then the uncertain row and it
  -- is committed. An error commits nothing or only a recovery.
  pub mark_submit_unknown-Answers :
      (req : UnknownRequest)
      → Answers
          (sha256 req.worker_id)
          now
          id
          d
          (Counted (λ a. req.provider_call_count))
          (unknown_job now req)
          (request (mark_submit_unknown sha256 now id req) d)
  unfolding mark_submit_unknown
  mark_submit_unknown-Answers req =
      let digest = sha256 req.worker_id in
      let allowed = Counted (λ a. req.provider_call_count) in
      let write = unknown_job now req in
      answered digest now id d allowed write _ (
        error-Ends digest now id d allowed write req.safe_error_code req.safe_error_details _ (
          granted-Answers req.worker_id allowed write _ λ j a g.
            refuse-Ends digest now id d allowed write
              (ltb req.provider_call_count a.provider_call_count) _ _
              λ c.
                save-Ends digest now id d allowed write j a g (ground arith)
                  (unfold unknown_job in refl)))

  -- On a table that meets the constraints, each of `heartbeat`, `complete`, `fail` and
  -- `mark_submit_unknown` answers a row only if the worker holds the job and the call count has not
  -- gone down, and `fail` only if the outcome is also certain where a submission is possible; the
  -- answer is then the renewed, succeeded, failed or uncertain row and it is committed. An error
  -- commits nothing or only a recovery.
  pub holder-Answers :
      (renewal : HeartbeatRequest) (success : CompleteRequest) (failure : FailRequest)
      (doubt : UnknownRequest)
      → Answers
          (sha256 renewal.worker_id)
          now
          id
          d
          (Counted (reported_count renewal.provider_call_count))
          (beat now renewal)
          (request (heartbeat sha256 now id renewal) d)
        × Answers
            (sha256 success.worker_id)
            now
            id
            d
            (Counted (λ a. success.provider_call_count))
            (completed now success)
            (request (complete sha256 now id success) d)
        × Answers
            (sha256 failure.worker_id)
            now
            id
            d
            (Failable failure)
            (failed_job now failure)
            (request (fail sha256 now id failure) d)
        × Answers
            (sha256 doubt.worker_id)
            now
            id
            d
            (Counted (λ a. doubt.provider_call_count))
            (unknown_job now doubt)
            (request (mark_submit_unknown sha256 now id doubt) d)
  holder-Answers renewal success failure doubt = (
    heartbeat-Answers renewal,
    complete-Answers success,
    fail-Answers failure,
    mark_submit_unknown-Answers doubt,
  )
