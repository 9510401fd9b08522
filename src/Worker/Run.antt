-- ===== src/Worker/Run.antt =====
-- `ExecutionWorker.run_once` of backend/app/execution/worker.py. A handler is the tree of the calls
-- that it makes of its context; what it computes and what providers answer is in the tree's shape.
use social_pilot_ai.Base.{
  ℕ, Bool, true, false, not, ◌&&◌, ◌||◌, ◌==◌, Option, some, none, List, [], ◌∷◌, Text, codes,
  if◌then◌else◌,
}
use social_pilot_ai.Json.{Fields}
use social_pilot_ai.Action.{Result, ok, err, Error, app, request, pure, ◌>>◌}
use social_pilot_ai.Queue.Types.{SubmissionState, ExecutionJob, Db}
use social_pilot_ai.Queue.Requests.{
  LeaseRequest, ClaimRequest, valid_claim, CompleteRequest, valid_complete, FailRequest, valid_fail,
  UnknownRequest, valid_unknown,
}
use social_pilot_ai.Queue.Service.{Run}
use social_pilot_ai.Queue.Leases.{complete, fail, mark_submit_unknown}
use social_pilot_ai.Queue.Claim.{claim}
use social_pilot_ai.Worker.Contracts.{
  HandlerResult, valid_result, failed_with, unknown_with, is_success, is_unknown,
  is_certain_failure, resolve,
}
use social_pilot_ai.Worker.Context.{
  Interrupt, lease_lost_error, worker_stop_requested, World, Live, validated, follow,
  heartbeat_once, pass, checkpoint, before_provider_call, before_irreversible_local_persist,
}

-- A handler may catch what its context raises.
pub data Program : Type 0 where
  returns : HandlerResult → Program
  returns_other raises : Program
  reraises : Interrupt → Program
  at_checkpoint : Program → (Interrupt → Program) → Program
  at_provider_call : Bool → (ℕ → Program) → (Interrupt → Program) → Program
  at_local_persist : Program → (Interrupt → Program) → Program

-- `input_schema.model_validate` and `execute`
pub record Handler : Type 0 where
  pub valid_input : Fields → Bool
  pub execute : Fields → Program

-- How `_invoke_handler` ends: with a result, with an exception of the context, with another.
pub data Ended : Type 0 where
  result : HandlerResult → Ended
  interrupted_by : Interrupt → Ended
  crashed : Ended

pub data WorkerRunStatus : Type 0 where
  no_job succeeded failed submit_unknown lease_lost stopped : WorkerRunStatus

pub record WorkerRunResult : Type 0 where
  pub status : WorkerRunStatus
  pub job_id : Option ℕ

abbrev pub run_result : WorkerRunStatus → ℕ → WorkerRunResult
run_result status id = record { status = status; job_id = some id }

module _ (sha256 : Text → Text) (w : World) (lease : LeaseRequest) (id : ℕ) where
  -- `handler.execute`; a result that is not valid cannot be built, and raises.
  unfoldable pub run : Program → Live → Ended × Live
  unfolding checkpoint before_provider_call before_irreversible_local_persist valid_result
  run (returns r) s = (if valid_result r then result r else crashed, s)
  run returns_other s = (result (failed_with (codes "INVALID_HANDLER_RESULT")), s)
  run raises s = (crashed, s)
  run (reraises i) s = (interrupted_by i, s)
  run (at_checkpoint k h) s =
      let (answer, s') = checkpoint sha256 w lease id s in
      follow answer (λ _. run k s') (λ i. run (h i) s')
  run (at_provider_call may k h) s =
      let (answer, s') = before_provider_call sha256 w lease id may s in
      follow answer (λ n. run (k n) s') (λ i. run (h i) s')
  run (at_local_persist k h) s =
      let (answer, s') = before_irreversible_local_persist sha256 w lease id s in
      follow answer (λ n. run k s') (λ i. run (h i) s')

  -- The checkpoint behind a handler that has returned.
  unfoldable pub close : Ended × Live → Ended × Live
  unfolding checkpoint
  close (result r, s) =
      let (answer, s') = checkpoint sha256 w lease id s in
      (follow answer (λ _. result r) interrupted_by, s')
  close (interrupted_by i, s) = (interrupted_by i, s)
  close (crashed, s) = (crashed, s)

  unfoldable pub invoke_handler : Option Handler → Fields → Live → Ended × Live
  unfolding run close checkpoint
  invoke_handler none payload s = (result (failed_with (codes "UNREGISTERED_JOB_TYPE")), s)
  invoke_handler (some h) payload s =
      let (answer, s') = checkpoint sha256 w lease id s in
      let rest =
        follow answer (λ _. close (run (h.execute payload) s')) (λ i. (interrupted_by i, s')) in
      if h.valid_input payload then rest else (result (failed_with (codes "INVALID_JOB_INPUT")), s)

  -- The three requests of `_finalize`.
  abbrev pub complete_request : HandlerResult → ℕ → CompleteRequest
  complete_request r n = record {
    worker_id = lease.worker_id;
    provider_name = r.provider_name;
    provider_operation_id = r.provider_operation_id;
    provider_call_count = n;
    result_entity_type = r.result_entity_type;
    result_entity_id = r.result_entity_id;
  }

  abbrev pub code_or : Option Text → Text → Text
  code_or none code = code
  code_or (some []) code = code
  code_or (some (c ∷ t)) code = c ∷ t

  abbrev pub unknown_request : HandlerResult → ℕ → UnknownRequest
  unknown_request r n = record {
    worker_id = lease.worker_id;
    safe_error_code = code_or r.safe_error_code (codes "HANDLER_RESULT_UNCERTAIN");
    safe_error_details = r.safe_error_details;
    provider_call_count = n;
    provider_name = r.provider_name;
    provider_operation_id = r.provider_operation_id;
  }

  abbrev pub state_or_not_started : Option SubmissionState → SubmissionState
  state_or_not_started none = SubmissionState.not_started
  state_or_not_started (some state) = state

  abbrev pub fail_request : HandlerResult → ℕ → Bool → FailRequest
  fail_request r n x = record {
    worker_id = lease.worker_id;
    safe_error_code = code_or r.safe_error_code (codes "HANDLER_EXECUTION_FAILED");
    safe_error_details = r.safe_error_details;
    provider_call_count = n;
    external_submission_possible = x;
    provider_submission_state = state_or_not_started r.provider_submission_state;
  }

  abbrev pub store_success : ℕ → HandlerResult → ℕ → Run WorkerRunStatus
  store_success now r n = do
    validated (valid_complete (complete_request r n))
        (complete sha256 now id (complete_request r n))
    pure succeeded

  abbrev pub store_unknown : ℕ → HandlerResult → ℕ → Run WorkerRunStatus
  store_unknown now r n = do
    validated (valid_unknown (unknown_request r n))
        (mark_submit_unknown sha256 now id (unknown_request r n))
    pure submit_unknown

  abbrev pub store_failure : ℕ → HandlerResult → ℕ → Bool → Run WorkerRunStatus
  store_failure now r n x = do
    validated (valid_fail (fail_request r n x)) (fail sha256 now id (fail_request r n x))
    pure failed

  -- Which of the three calls is made, with the status that is reported behind it.
  unfoldable pub store : ℕ → HandlerResult → ℕ → Bool → Run WorkerRunStatus
  store now r n x =
      if is_success r.status
      then store_success now r n
      else if is_unknown r.status || (x && not (is_certain_failure r.provider_submission_state))
      then store_unknown now r n
      else store_failure now r n x

  -- `except AppError`: status 409 means that the lease is lost, anything else is raised.
  abbrev pub conflict : Error → Bool
  conflict (app message code) = code == 409
  conflict _ = false

  abbrev pub reported : Result WorkerRunStatus → Result WorkerRunResult
  reported (ok status) = ok (run_result status id)
  reported (err e) = if conflict e then ok (run_result lease_lost id) else err e

  unfoldable pub store_result : HandlerResult → Bool → Live → Result WorkerRunResult × Live
  unfolding pass store
  store_result r x s =
      let s' = pass sha256 w lease id s in
      let (answer, d) = request (store (w.now s'.tick) r s'.count x) s'.table in
      (reported answer, record s' { table = d })

  -- `_finalize`: an uncertain result is announced by a heartbeat before it is stored.
  unfoldable pub finalize : HandlerResult → Live → Result WorkerRunResult × Live
  unfolding store_result heartbeat_once pass
  finalize r s =
      let (sent, announced) =
        heartbeat_once sha256 w lease id s.count true (pass sha256 w lease id s) in
      let known = store_result r s.external s in
      let after = store_result r true announced in
      if is_unknown r.status && not s.external
      then (if sent then after else (ok (run_result lease_lost id), announced))
      else known

  -- What `_execute_claimed` makes of an exception; `none` where the lease is lost.
  unfoldable pub settle : Ended → Bool → Option HandlerResult
  settle (result r) x = some r
  settle (interrupted_by lease_lost_error) x = none
  settle (interrupted_by worker_stop_requested) x = some (
      if x
      then unknown_with (codes "WORKER_STOPPED_AFTER_EXTERNAL_SUBMISSION")
      else failed_with (codes "WORKER_STOPPED"))
  settle crashed x = some (
      if x
      then unknown_with (codes "HANDLER_EXECUTION_UNCERTAIN")
      else failed_with (codes "HANDLER_EXECUTION_FAILED"))

  abbrev pub conclude : Option HandlerResult → Bool → Live → Result WorkerRunResult × Live
  conclude none lost s = (ok (run_result lease_lost id), s)
  conclude (some r) true s = (ok (run_result lease_lost id), s)
  conclude (some r) false s = finalize r s

  -- `_execute_claimed`: the thread is joined before the outcome is looked at.
  unfoldable pub execute_claimed : Option Handler → Fields → Db → ℕ → Result WorkerRunResult × Live
  unfolding invoke_handler settle finalize pass
  execute_claimed handler payload d tick =
      let start : Live = record {
        tick = tick;
        table = d;
        count = 0;
        external = false;
        lost = false;
        beating = true;
        seen = none;
      } in
      let (ended, s) = invoke_handler handler payload start in
      let joined : Live = record (pass sha256 w lease id s) { beating = false; seen = none } in
      conclude (settle ended s.external) joined.lost joined

module _ (sha256 : Text → Text) (w : World) (lease : LeaseRequest)
    (registry : List (Text × Handler)) where
  abbrev pub execute_if_claimed : Result (Option ExecutionJob) → Db → Result WorkerRunResult × Db
  execute_if_claimed (err e) d = (err e, d)
  execute_if_claimed (ok none) d = (ok (record { status = no_job; job_id = none }), d)
  execute_if_claimed (ok (some j)) d =
      let (answer, s) =
        execute_claimed sha256 w lease j.id (resolve registry j.job_type) j.input_payload d 0 in
      (answer, s.table)

  abbrev pub any_claim : ClaimRequest
  any_claim = record { lease = lease; job_types = [] }

  -- `run_once`, for one caller at a time: the lock that keeps a second one out is left out.
  unfoldable pub run_once : Db → Result WorkerRunResult × Db
  unfolding execute_claimed
  run_once d =
      let (answer, d') =
        request
          (validated (valid_claim any_claim) (claim sha256 w.claim_clock w.claim_flush any_claim))
          d in
      if w.stopped 0
      then (ok (record { status = stopped; job_id = none }), d)
      else execute_if_claimed answer d'
