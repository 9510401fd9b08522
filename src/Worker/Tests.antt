-- ===== src/Worker/Tests.antt =====
-- The worker's theorems at a quiet world and small tables.
use social_pilot_ai.Base.{
  ◌+◌, ◌≡◌, ◌⊎◌, refl, true, false, some, none, List, [], ◌∷◌, Text, codes, text_eq, arith,
}
use social_pilot_ai.Json.{end, accepts_fields}
use social_pilot_ai.Action.{ok, request}
use social_pilot_ai.Queue.Types.{JobStatus, ExecutionAttempt, ExecutionJob, Db}
use social_pilot_ai.Queue.Repository.{get_job}
use social_pilot_ai.Queue.Requests.{valid_complete, valid_fail}
use social_pilot_ai.Queue.Service.{save}
use social_pilot_ai.Queue.Leases.{recover_if_expired, heartbeat, fail, beat, completed}
use social_pilot_ai.Queue.Claim.{calm}
use social_pilot_ai.Queue.Claiming.{calm_ok}
use social_pilot_ai.Queue.Invariant.{DbOk}
use social_pilot_ai.Queue.Outcomes.{Holds, put}
use social_pilot_ai.Queue.System.{Reach, here, next, heartbeat_job, serve}
use social_pilot_ai.Queue.Guarantees.{constraints_hold}
use social_pilot_ai.Queue.Samples.{
  plain, worker, lease, key_one, key_two, running, attempt, table, idle, busy, idle-DbOk, busy-DbOk,
  busy_reached, mine,
}
use social_pilot_ai.Worker.Contracts.{
  HandlerStatus, HandlerResult, failed_with, is_success, is_unknown, is_certain_failure, register,
}
use social_pilot_ai.Worker.Context.{
  World, Live, rests, sends, done, beat_request, thread_step, before_provider_call,
  before_irreversible_local_persist,
}
use social_pilot_ai.Worker.Run.{
  Handler, returns, at_provider_call, reraises, succeeded, failed, store, complete_request,
  run_once,
}
use social_pilot_ai.Worker.Reached.{run_once-Reach}
use social_pilot_ai.Worker.Boundary.{
  Recorded, before_provider_call-Recorded, submission_never_requeued,
}
use social_pilot_ai.Worker.Reports.{ReportShows, run_once-Shows}
use social_pilot_ai.Worker.Decisions.{
  store_failed_certain, store_succeeds, stale_heartbeat_loses_lease,
}

abbrev quiet : World
quiet = record {
  now = λ t. 8;
  stopped = λ t. false;
  others = λ t d. d;
  thread = λ t. rests;
  claim_clock = λ k. 8;
  claim_flush = λ k. calm;
}

abbrev success : HandlerResult
success = record {
  status = HandlerStatus.succeeded;
  safe_error_code = none;
  safe_error_details = end;
  provider_name = some (codes "qwen");
  provider_operation_id = none;
  result_entity_type = none;
  result_entity_id = none;
  provider_submission_state = none;
}

-- One provider call that may submit, and a success.
abbrev handler : Handler
handler = record {
  valid_input = λ payload. true;
  execute = λ payload. at_provider_call true (λ n. returns success) reraises;
}

abbrev registry : List (Text × Handler)
registry = (codes "qwen.copy", handler) ∷ []

run_once-Reach_example : Reach plain idle (run_once plain quiet lease registry idle).1
run_once-Reach_example = run_once-Reach plain quiet lease registry idle (λ t d. here) (λ k. calm_ok)

run_once-Shows_example : let (a, d') = run_once plain quiet lease registry idle in ReportShows a d'
run_once-Shows_example =
    run_once-Shows plain quiet lease registry idle (λ t d. here) (λ k. calm_ok) idle-DbOk

abbrev live : Db → Live
live d = record {
  tick = 0;
  table = d;
  count = 0;
  external = false;
  lost = false;
  beating = true;
  seen = none;
}

call_done : (before_provider_call plain quiet lease 1 true (live busy)).0 ≡ done 1
unfolding before_provider_call heartbeat beat text_eq save
call_done = refl

before_provider_call-Recorded_example :
    (1 ≡ (live busy).count + 1)
    × Recorded 1 (before_provider_call plain quiet lease 1 true (live busy)).1.table
before_provider_call-Recorded_example =
    before_provider_call-Recorded plain quiet lease (λ t d. here) 1 1 (live busy) busy-DbOk
      call_done

persist_done : (before_irreversible_local_persist plain quiet lease 1 (live busy)).0 ≡ done 0
unfolding before_irreversible_local_persist heartbeat beat text_eq save
persist_done = refl

abbrev renewed : Db
renewed = serve plain (heartbeat_job 8 1 (beat_request lease 1 true)) busy

renewed-DbOk : DbOk renewed
renewed-DbOk =
    constraints_hold plain renewed
      (next busy_reached (heartbeat_job 8 1 (beat_request lease 1 true)) tt)

renewed-Recorded : Recorded 1 renewed
unfolding serve heartbeat beat text_eq save
renewed-Recorded = (beat 8 (beat_request lease 1 true) (running 1 key_one) (attempt 7), refl, refl)

submission_never_requeued_example :
    (k : ExecutionJob) × (get_job 1 renewed.jobs ≡ some k)
    × ((recover_if_expired 90000000 k ≡ k)
        ⊎ (((recover_if_expired 90000000 k).status ≡ JobStatus.submit_unknown)
            × ((recover_if_expired 90000000 k).uncertain ≡ true)))
submission_never_requeued_example =
    submission_never_requeued plain 1 90000000 renewed renewed renewed-DbOk here renewed-Recorded

stored_failed :
    (request (store plain quiet lease 1 8 (failed_with (codes "E1")) 0 false) busy).0 ≡ ok failed
unfolding store valid_fail fail accepts_fields text_eq save
stored_failed = refl

store_failed_certain_example :
    (is_success (failed_with (codes "E1")).status ≡ false)
    × (is_unknown (failed_with (codes "E1")).status ≡ false)
    × ((false ≡ false)
        ⊎ (is_certain_failure (failed_with (codes "E1")).provider_submission_state ≡ true))
store_failed_certain_example =
    store_failed_certain plain quiet lease 1 8 (failed_with (codes "E1")) 0 false busy stored_failed

success_valid : valid_complete (complete_request plain quiet lease 1 success 0) ≡ true
unfolding valid_complete
success_valid = refl

store_succeeds_example :
    let k =
      completed 8
        (complete_request plain quiet lease 1 success 0)
        (running 1 key_one)
        (attempt 7) in
    request (store plain quiet lease 1 8 success 0 false) busy ≡ (ok succeeded, put k busy)
store_succeeds_example =
    store_succeeds plain quiet lease 1 8 success 0 false busy (running 1 key_one) (attempt 7) mine
      (omega (arith)) refl success_valid

abbrev called : ExecutionAttempt
called = record (attempt 7) { provider_call_count = 1 }

abbrev called_job : ExecutionJob
called_job = record (running 1 key_one) { attempts = called ∷ [] }

called-Holds : Holds worker 8 1 (table called_job (running 2 key_two)) called_job called
unfolding text_eq
called-Holds = record {
  asked = refl;
  row = refl;
  row_running = refl;
  owner = refl;
  unexpired = refl;
  latest = refl;
  attempt_running = refl;
}

-- The thread has read a count of 0, and the worker has since stored a count of 1.
abbrev overtaken : Live
overtaken = record (live (table called_job (running 2 key_two))) {
  count = 1;
  seen = some (0, false);
}

stale_heartbeat_loses_lease_example :
    let s' = thread_step plain quiet lease 1 sends overtaken in
    (s'.lost ≡ true) × (s'.beating ≡ false) × (s'.table ≡ overtaken.table)
stale_heartbeat_loses_lease_example =
    stale_heartbeat_loses_lease plain quiet lease 1 overtaken 0 false called_job called called-Holds
      refl refl (omega (arith))

registered : register (codes "a.v1") handler [] ≡ ok ((codes "a.v1", handler) ∷ [])
unfolding register
registered = refl
