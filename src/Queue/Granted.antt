-- ===== src/Queue/Granted.antt =====
-- The calls of the worker that holds a lease: what `owned_running` grants, and what follows.
use social_pilot_ai.Base.{
  ℕ, ◌≡◌, refl, sym, subst, inl, inr, true, false, not, ◌||◌, ◌&&◌, Option, none, some, Bool-cases,
  Option-cases, Text, ltb, arith,
}
use social_pilot_ai.Action.{Session, or_raise, ◌>>=◌, Ends}
use social_pilot_ai.Queue.Types.{
  JobStatus, ExecutionAttempt, ExecutionJob, Db, is_running, is_certain,
}
use social_pilot_ai.Queue.Repository.{get_job, latest_attempt}
use social_pilot_ai.Queue.Requests.{
  HeartbeatRequest, CompleteRequest, FailRequest, UnknownRequest, valid_complete,
  is_safe_error_code,
}
use social_pilot_ai.Queue.Service.{Run}
use social_pilot_ai.Queue.Leases.{
  owned_running, owned_by, refuse_expired, lease_expired, running_attempt, heartbeat, complete,
  fail, mark_submit_unknown, assert_error, reported_count,
}
use social_pilot_ai.Queue.Attempts.{is_running_attempt}
use social_pilot_ai.Json.{Fields, accepts_fields}
use social_pilot_ai.Queue.Rows.{
  beat-Change, completed-Change, failed_job-Change, unknown_job-Change,
}
use social_pilot_ai.Queue.Invariant.{DbOk, get_job-id}
use social_pilot_ai.Queue.Leases.{recover}
use social_pilot_ai.Action.{Result, ok, err}
use social_pilot_ai.Queue.Sound.{Good, save-Good}
use social_pilot_ai.Queue.Calls.{Found, found, raise_if-bind, bind-Ends, recover-Good}

-- A job and its attempt, as `owned_running` finds them.
pub record Granted (digest : Text) (now id : ℕ) (s : Session Db) (j : ExecutionJob)
    (a : ExecutionAttempt) : Type 0 where
  pub asked : j.id ≡ id
  pub row : Found s j
  pub row_running : j.status ≡ JobStatus.running
  pub owner : owned_by digest j.lease_owner_digest ≡ true
  pub unexpired : lease_expired now j.lease_expires_at ≡ false
  pub latest : latest_attempt j.attempts ≡ some a
  pub attempt_running : is_running_attempt a.status ≡ true

-- The grant as the value of a call, with the session unchanged.
abbrev pub Grants :
    Text → ℕ → ℕ → Session Db → ExecutionJob × ExecutionAttempt → Session Db → Type 0
Grants digest now id s (j, a) s' = (s' ≡ s) × Granted digest now id s j a

running_attempt-some :
    (o : Option ExecutionAttempt) (a : ExecutionAttempt)
    → running_attempt o ≡ some a
    → (o ≡ some a) × (is_running_attempt a.status ≡ true)
running_attempt-some none a e = cc
running_attempt-some (some b) a e = ground arith

module _ (sha256 : Text → Text) (s : Session Db) (h : DbOk s.working) where
  -- A call for a worker is granted, or it ends where it began or after a committed recovery.
  pub owned_running-Ends :
      (id : ℕ) (worker : Text) (now : ℕ) (E : Session Db → Type 0)
      → E s
      → E (recover now s).1
      → Ends (Grants (sha256 worker) now id s) E (owned_running sha256 id worker now s)
  unfolding owned_running
  owned_running-Ends id worker now E at_s at_recovered =
      elim (Option-cases (get_job id s.working.jobs)) [
        | inl e ↦ rw (e, or_raise) at_s
        | inr (j, e) ↦
            rw (e, or_raise)
              (elim (Bool-cases (is_running j.status)) [
                | inr n ↦ rw n at_s
                | inl r ↦ rw r (elim (Bool-cases (owned_by (sha256 worker) j.lease_owner_digest)) [
                  | inr n ↦ rw n at_s
                  | inl o ↦ rw o (elim (Bool-cases (lease_expired now j.lease_expires_at)) [
                    | inl x ↦ rw (x, refuse_expired) at_recovered
                    | inr x ↦
                        rw (x, refuse_expired)
                          (elim (Option-cases (running_attempt (latest_attempt j.attempts))) [
                            | inl e' ↦ rw (e', or_raise) at_s
                            | inr (a, e') ↦
                                rw (e', or_raise)
                                  (
                                    refl,
                                    record {
                                      asked = get_job-id id s.working.jobs j e;
                                      row = found s id j h e;
                                      row_running = ground arith;
                                      owner = o;
                                      unexpired = x;
                                      latest = (running_attempt-some _ a e').0;
                                      attempt_running = (running_attempt-some _ a e').1;
                                    },
                                  )
                          ])
                  ])
                ])
              ])
      ]

  -- A granted call goes on in the session that it began with.
  pub Granted-Ends :
      {A : Type 0} (id : ℕ) (worker : Text) (now : ℕ) (f : ExecutionJob × ExecutionAttempt → Run A)
      (R : A → Session Db → Type 0) (E : Session Db → Type 0)
      → E s
      → E (recover now s).1
      → ((j : ExecutionJob) (a : ExecutionAttempt)
          → Granted (sha256 worker) now id s j a
          → Ends R E (f (j, a) s))
      → Ends R E ((owned_running sha256 id worker now >>= f) s)
  Granted-Ends id worker now f R E at_s at_recovered k =
      bind-Ends s (owned_running sha256 id worker now) f (Grants (sha256 worker) now id s) R E
        (owned_running-Ends id worker now E at_s at_recovered)
        (λ p s' g. subst (λ t. Ends R E (f p t)) (sym g.0) (k p.0 p.1 g.1))

-- Where every outcome is good, so is the session that is left.
Ends-Good :
    {A : Type 0} (start : Db) (r : Result A × Session Db)
    → Ends (λ a. Good start) (Good start) r
    → Good start r.1
Ends-Good start (ok a, t) g = g
Ends-Good start (err e, t) g = g

Good-Ends :
    {A : Type 0} (start : Db) (r : Result A × Session Db)
    → Good start r.1
    → Ends (λ a. Good start) (Good start) r
Good-Ends start (ok a, t) g = g
Good-Ends start (err e, t) g = g

module _ (sha256 : Text → Text) (start : Db) (s : Session Db) (h : Good start s) where
  Granted-bind :
      {A : Type 0} (id : ℕ) (worker : Text) (now : ℕ) (f : ExecutionJob × ExecutionAttempt → Run A)
      → ((j : ExecutionJob) (a : ExecutionAttempt)
          → Granted (sha256 worker) now id s j a
          → Good start (f (j, a) s).1)
      → Good start ((owned_running sha256 id worker now >>= f) s).1
  Granted-bind id worker now f k = Ends-Good start _ (
      Granted-Ends sha256 s h.working_sound.ok_db id worker now f (λ a. Good start) (Good start) h
        (recover-Good start now s h) (λ j a g. Good-Ends start _ (k j a g)))

  pub heartbeat-Good :
      (now id : ℕ) (req : HeartbeatRequest) → Good start (heartbeat sha256 now id req s).1
  unfolding heartbeat
  heartbeat-Good now id req = Granted-bind id req.worker_id now _ λ j a g.
      raise_if-bind start s (ltb (reported_count req.provider_call_count a) a.provider_call_count) _
        _ h
        λ p.
          save-Good start s j _ h g.row.row
            (beat-Change j g.row.row_ok a g.row_running g.latest now req g.attempt_running)

  pub complete-Good :
      (now id : ℕ) (req : CompleteRequest)
      → valid_complete req ≡ true
      → Good start (complete sha256 now id req s).1
  unfolding complete
  complete-Good now id req v = Granted-bind id req.worker_id now _ λ j a g.
      raise_if-bind start s (ltb req.provider_call_count a.provider_call_count) _ _ h λ p.
        save-Good start s j _ h g.row.row
          (completed-Change j g.row.row_ok a g.row_running g.latest now req v)

  -- The validation of an error comes before anything is read.
  assert_error-bind :
      {A : Type 0} (code : Text) (details : Fields) (f : Unit {0} → Run A)
      → Good start (f tt s).1
      → Good start ((assert_error code details >>= f) s).1
  assert_error-bind code details f k = elim (Bool-cases (is_safe_error_code code)) [
    | inr e ↦ rw e h
    | inl e ↦
        rw e (elim (Bool-cases (accepts_fields details)) [ inr e' ↦ rw e' h | inl e' ↦ rw e' k ])
  ]

  pub fail-Good : (now id : ℕ) (req : FailRequest) → Good start (fail sha256 now id req s).1
  unfolding fail
  fail-Good now id req = assert_error-bind req.safe_error_code req.safe_error_details _ (
      Granted-bind id req.worker_id now _ λ j a g.
        raise_if-bind start s
          ((req.external_submission_possible || a.external_submission_possible)
            && not (is_certain req.provider_submission_state))
          _ _ h
          λ c. raise_if-bind start s (ltb req.provider_call_count a.provider_call_count) _ _ h λ p.
            save-Good start s j _ h g.row.row
              (failed_job-Change j g.row.row_ok a g.row_running g.latest now req))

  pub mark_submit_unknown-Good :
      (now id : ℕ) (req : UnknownRequest) → Good start (mark_submit_unknown sha256 now id req s).1
  unfolding mark_submit_unknown
  mark_submit_unknown-Good now id req =
      assert_error-bind req.safe_error_code req.safe_error_details _ (
        Granted-bind id req.worker_id now _ λ j a g.
          raise_if-bind start s (ltb req.provider_call_count a.provider_call_count) _ _ h λ p.
            save-Good start s j _ h g.row.row
              (unknown_job-Change j g.row.row_ok a g.row_running g.latest now req))
