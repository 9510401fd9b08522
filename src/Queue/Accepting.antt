-- ===== src/Queue/Accepting.antt =====
-- The four calls of the worker that holds a lease, where nothing speaks against them.
use social_pilot_ai.Base.{
  ℕ, ◌≤◌, ◌<◌, ◌≡◌, ap, refl, sym, subst, true, false, not, ◌||◌, ◌&&◌, Option, some, none, Text,
  ltb, arith,
}
use social_pilot_ai.Json.{Fields, accepts_fields}
use social_pilot_ai.Action.{Session, Result, ok, err, app, request, or_raise, ◌>>=◌}
use social_pilot_ai.Queue.Types.{ExecutionAttempt, ExecutionJob, Db, is_certain}
use social_pilot_ai.Queue.Repository.{get_job, latest_attempt}
use social_pilot_ai.Queue.Requests.{
  HeartbeatRequest, CompleteRequest, FailRequest, UnknownRequest, is_safe_error_code,
}
use social_pilot_ai.Queue.Service.{get, save}
use social_pilot_ai.Queue.Leases.{
  owned_running, running_attempt, refuse_expired, heartbeat, complete, fail, mark_submit_unknown,
  assert_error, reported_count, beat, completed, failed_job, unknown_job,
}
use social_pilot_ai.Queue.Attempts.{is_running_attempt}
use social_pilot_ai.Queue.Sound.{save_lem}
use social_pilot_ai.Queue.Outcomes.{Holds, Counted, Failable, put}
use social_pilot_ai.Queue.Written.{Renewed, Succeeded, FailedWith, Doubtful}
use social_pilot_ai.Queue.Writing.{
  beat-Renewed, completed-Succeeded, failed_job-FailedWith, unknown_job-Doubtful,
}

still_running :
    (o : Option ExecutionAttempt) (a : ExecutionAttempt)
    → o ≡ some a
    → is_running_attempt a.status ≡ true
    → running_attempt o ≡ some a
still_running none a e r = absurd (cc)
still_running (some b) a e r = ground (arith)

-- What is asked of the report of an error.
pub record Reportable (code : Text) (details : Fields) : Type 0 where
  pub code_safe : is_safe_error_code code ≡ true
  pub details_safe : accepts_fields details ≡ true

report_passes :
    (code : Text) (details : Fields) (s : Session Db)
    → Reportable code details
    → assert_error code details s ≡ (ok tt, s)
report_passes code details s p = rw p.code_safe (rw p.details_safe refl)

-- A call answers a row and has committed it in its place; the row and its latest attempt are as `P`
-- says.
abbrev pub Writes :
    Db
    → Result ExecutionJob × Db
    → ExecutionJob
    → (ExecutionJob → ExecutionAttempt → Type 0)
    → Type 0
Writes d r k P = (r ≡ (ok k, put k d)) × ((b : ExecutionAttempt) × P k b)

module _ (sha256 : Text → Text) (worker : Text) (now id : ℕ) (d : Db) (j : ExecutionJob)
    (a : ExecutionAttempt) (h : Holds (sha256 worker) now id d j a) where
  abbrev opened : Session Db
  opened = record { committed = d; working = d }

  granted : owned_running sha256 id worker now opened ≡ (ok (j, a), opened)
  unfolding owned_running get
  granted =
      let row : get_job id d.jobs ≡ some j = subst (λ n. get_job n d.jobs ≡ some j) h.asked h.row in
      rw (row, or_raise)
        (rw h.row_running (
          rw h.owner (
            rw (h.unexpired, refuse_expired)
              (rw (still_running (latest_attempt j.attempts) a h.latest h.attempt_running, or_raise)
                refl))))

  saved : (k : ExecutionJob) → k.id ≡ j.id → request (save k) d ≡ (ok k, put k d)
  saved k e =
      ap (λ (r : Result ExecutionJob × Session Db). (r.0, r.1.committed))
        (save_lem opened j k (subst (λ n. get_job n d.jobs ≡ some j) (sym e) h.row))

  -- The worker that holds a job and renews it with no fewer calls than stored is answered the
  -- renewed row, which is committed.
  pub heartbeat_accepted :
      (req : HeartbeatRequest)
      → req.worker_id ≡ worker
      → Counted (reported_count req.provider_call_count) j a
      → request (heartbeat sha256 now id req) d ≡ (ok (beat now req j a), put (beat now req j a) d)
  unfolding heartbeat
  heartbeat_accepted req w c =
      let more : ltb (reported_count req.provider_call_count a) a.provider_call_count ≡ false =
        ground (arith, c) in
      rw w (rw (granted, ◌>>=◌) (rw more (saved (beat now req j a) (unfold beat in refl))))

  -- The worker that holds a job and completes it with no fewer calls than stored is answered the
  -- succeeded row, which is committed.
  pub complete_accepted :
      (req : CompleteRequest)
      → req.worker_id ≡ worker
      → a.provider_call_count ≤ req.provider_call_count
      → request (complete sha256 now id req) d
        ≡ (ok (completed now req j a), put (completed now req j a) d)
  unfolding complete
  complete_accepted req w c =
      let more : ltb req.provider_call_count a.provider_call_count ≡ false = ground (arith, c) in
      rw w
        (rw (granted, ◌>>=◌) (rw more (saved (completed now req j a) (unfold completed in refl))))

  -- The worker that holds a job and reports a failure in a safe form, with no fewer calls than
  -- stored and a certain outcome where a submission is possible, is answered the failed row, which
  -- is committed.
  pub fail_accepted :
      (req : FailRequest)
      → req.worker_id ≡ worker
      → Reportable req.safe_error_code req.safe_error_details
      → Failable req j a
      → request (fail sha256 now id req) d
        ≡ (ok (failed_job now req j a), put (failed_job now req j a) d)
  unfolding fail
  fail_accepted req w p f =
      let more : ltb req.provider_call_count a.provider_call_count ≡ false =
        ground (arith, f.counted) in
      let sure : ((req.external_submission_possible || a.external_submission_possible)
            && not (is_certain req.provider_submission_state))
          ≡ false =
        ground (arith, f.certain) in
      rw (report_passes req.safe_error_code req.safe_error_details opened p, ◌>>=◌)
        (rw w (
          rw (granted, ◌>>=◌)
            (rw sure (rw more (saved (failed_job now req j a) (unfold failed_job in refl))))))

  -- The worker that holds a job and reports an uncertain submission in a safe form, with no fewer
  -- calls than stored, is answered the uncertain row, which is committed.
  pub mark_submit_unknown_accepted :
      (req : UnknownRequest)
      → req.worker_id ≡ worker
      → Reportable req.safe_error_code req.safe_error_details
      → a.provider_call_count ≤ req.provider_call_count
      → request (mark_submit_unknown sha256 now id req) d
        ≡ (ok (unknown_job now req j a), put (unknown_job now req j a) d)
  unfolding mark_submit_unknown
  mark_submit_unknown_accepted req w p c =
      let more : ltb req.provider_call_count a.provider_call_count ≡ false = ground (arith, c) in
      rw (report_passes req.safe_error_code req.safe_error_details opened p, ◌>>=◌)
        (rw w (
          rw (granted, ◌>>=◌)
            (rw more (saved (unknown_job now req j a) (unfold unknown_job in refl)))))

  -- The worker that holds a job is answered and has committed, in the place of the row: for a
  -- heartbeat that counts no fewer calls than stored, the renewed row, leased from now for the time
  -- asked for; for a completion that counts no fewer calls, the succeeded row with the result; for
  -- a failure in a safe form that also names a certain outcome where a submission is possible, the
  -- failed row with the error; for an uncertain submission in a safe form that counts no fewer
  -- calls, the uncertain row with the error. The first time of a submission and the latest attempt
  -- with its calls are written as `Renewed`, `Succeeded`, `FailedWith` and `Doubtful` say.
  pub holder_accepted :
      (renewal : HeartbeatRequest) (success : CompleteRequest) (failure : FailRequest)
      (doubt : UnknownRequest)
      → renewal.worker_id ≡ worker
      → success.worker_id ≡ worker
      → failure.worker_id ≡ worker
      → doubt.worker_id ≡ worker
      → Counted (reported_count renewal.provider_call_count) j a
      → a.provider_call_count ≤ success.provider_call_count
      → Reportable failure.safe_error_code failure.safe_error_details
      → Failable failure j a
      → Reportable doubt.safe_error_code doubt.safe_error_details
      → a.provider_call_count ≤ doubt.provider_call_count
      → Writes d
          (request (heartbeat sha256 now id renewal) d)
          (beat now renewal j a)
          (Renewed now renewal j a)
        × Writes d
            (request (complete sha256 now id success) d)
            (completed now success j a)
            (Succeeded now success j a)
        × Writes d
            (request (fail sha256 now id failure) d)
            (failed_job now failure j a)
            (FailedWith now failure j a)
        × Writes d
            (request (mark_submit_unknown sha256 now id doubt) d)
            (unknown_job now doubt j a)
            (Doubtful now doubt j a)
  holder_accepted renewal success failure doubt w x y z counted more safe failable safe_doubt
        fewer =
      (
        (heartbeat_accepted renewal w counted, beat-Renewed now j a h.latest renewal),
        (complete_accepted success x more, completed-Succeeded now j a h.latest success),
        (fail_accepted failure y safe failable, failed_job-FailedWith now j a h.latest failure),
        (
          mark_submit_unknown_accepted doubt z safe_doubt fewer,
          unknown_job-Doubtful now j a h.latest doubt,
        ),
      )

  -- The same worker, reporting fewer calls than stored, is refused with status 409.
  pub heartbeat_refused :
      (req : HeartbeatRequest)
      → req.worker_id ≡ worker
      → reported_count req.provider_call_count a < a.provider_call_count
      → request (heartbeat sha256 now id req) d
        ≡ (err (app "Provider call count cannot decrease" 409), d)
  unfolding heartbeat
  heartbeat_refused req w c =
      let fewer : ltb (reported_count req.provider_call_count a) a.provider_call_count ≡ true =
        ground (arith, c) in
      rw w (rw (granted, ◌>>=◌) (rw fewer refl))
