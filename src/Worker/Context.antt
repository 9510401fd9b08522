-- ===== src/Worker/Context.antt =====
-- The context that a handler runs in, `ExecutionContext` of backend/app/execution/contracts.py, with
-- the heartbeats of backend/app/execution/worker.py, the thread that sends them in the background,
-- and whatever other clients of the queue do in the meantime.
use social_pilot_ai.Base.{
  ℕ, ◌+◌, Bool, true, false, not, ◌||◌, Option, some, none, Text, if◌then◌else◌,
}
use social_pilot_ai.Action.{Result, ok, err, validation, request, raise_if, ◌>>◌}
use social_pilot_ai.Queue.Types.{ExecutionJob, Db}
use social_pilot_ai.Queue.Requests.{LeaseRequest, valid_lease, HeartbeatRequest}
use social_pilot_ai.Queue.Service.{Run}
use social_pilot_ai.Queue.Leases.{heartbeat}
use social_pilot_ai.Queue.Claim.{Flush}

-- `LeaseLostError` and `WorkerStopRequested`
pub data Interrupt : Type 0 where
  lease_lost_error worker_stop_requested : Interrupt

-- How a call of the context ends.
pub data Answer {ℓ} (A : Type ℓ) : Type ℓ where
  done : A → Answer A
  interrupted : Interrupt → Answer A

-- The heartbeat thread does nothing, reads the provider state, or sends what it has read.
pub data ThreadStep : Type 0 where
  rests reads sends : ThreadStep

-- What surrounds the worker at its successive moments: the clock, the stop event, the other
-- clients of the queue, its own heartbeat thread, and the races that `claim` loses.
pub record World : Type 0 where
  pub now : ℕ → ℕ
  pub stopped : ℕ → Bool
  pub others : ℕ → Db → Db
  pub thread : ℕ → ThreadStep
  pub claim_clock : ℕ → ℕ
  pub claim_flush : ℕ → Flush

-- The worker with its claimed job: the next moment, the table, the fields of the context, the
-- lease-lost event, whether the thread is alive, and what it has read and not yet sent.
pub record Live : Type 0 where
  pub tick : ℕ
  pub table : Db
  pub count : ℕ
  pub external : Bool
  pub lost : Bool
  pub beating : Bool
  pub seen : Option (ℕ × Bool)

-- A request model is built, which may raise, and the call is made.
abbrev pub validated : {A : Type 0} → Bool → Run A → Run A
validated valid m = do raise_if (not valid) validation; m

abbrev pub beat_request : LeaseRequest → ℕ → Bool → HeartbeatRequest
beat_request lease count external = record {
  lease = lease;
  provider_call_count = some count;
  external_submission_possible = external;
}

-- Any exception of the call sets the event and becomes `LeaseLostError`.
abbrev pub beat_outcome : Live → Result ExecutionJob × Db → Bool × Live
beat_outcome s (ok j, d) = (true, record s { table = d })
beat_outcome s (err e, d) = (false, record s { table = d; lost = true })

abbrev pub follow {ℓ κ} : {A : Type ℓ} {B : Type κ} → Answer A → (A → B) → (Interrupt → B) → B
follow (done a) k h = k a
follow (interrupted i) k h = h i

-- What the two boundaries write to the fields of the context.
abbrev pub count_call : Bool → Live → Live
count_call may_submit_external s = record s {
  count = s.count + 1;
  external = may_submit_external || s.external;
}

abbrev pub mark_external : Live → Live
mark_external s = record s { external = true }

module _ (sha256 : Text → Text) (w : World) (lease : LeaseRequest) (id : ℕ) where
  -- `_heartbeat_once`: whether it returns.
  unfoldable pub heartbeat_once : ℕ → Bool → Live → Bool × Live
  heartbeat_once n x s = beat_outcome s (
      request
        (validated (valid_lease lease)
          (heartbeat sha256 (w.now s.tick) id (beat_request lease n x)))
        s.table)

  -- The thread sends what it has read, and ends with the first heartbeat that fails.
  unfoldable pub send : Bool → Option (ℕ × Bool) → Live → Live
  unfolding heartbeat_once
  send false seen s = s
  send true none s = s
  send true (some (n, x)) s =
      let (alive, s') = heartbeat_once n x (record s { seen = none }) in
      record s' { beating = alive }

  unfoldable pub thread_step : ThreadStep → Live → Live
  unfolding send
  thread_step rests s = s
  thread_step reads s = record s { seen = some (s.count, s.external) }
  thread_step sends s = send s.beating s.seen s

  -- One moment passes.
  unfoldable pub pass : Live → Live
  unfolding thread_step
  pass s =
      thread_step (w.thread s.tick)
        (record s { tick = s.tick + 1; table = w.others s.tick s.table })

  -- The two tests of `checkpoint`.
  abbrev pub check : Live → Answer (Unit {0})
  check s =
      if s.lost
      then interrupted lease_lost_error
      else if w.stopped s.tick
      then interrupted worker_stop_requested
      else done tt

  unfoldable pub checkpoint : Live → Answer (Unit {0}) × Live
  unfolding pass
  checkpoint s = let s' = pass s in (check s', s')

  -- The heartbeat of a boundary and the checkpoint behind it.
  unfoldable pub persist : ℕ → Bool → Live → Answer ℕ × Live
  unfolding heartbeat_once checkpoint pass
  persist n x s =
      let (sent, s') = heartbeat_once n x (pass s) in
      let (answer, s'') = checkpoint s' in
      if sent
      then (follow answer (λ _. done n) interrupted, s'')
      else (interrupted lease_lost_error, s')

  -- A boundary: a checkpoint, a mark, and the mark's heartbeat.
  unfoldable pub cross : (Live → Live) → Live → Answer ℕ × Live
  unfolding persist checkpoint
  cross mark s =
      let (answer, s1) = checkpoint s in
      let s2 = mark s1 in
      follow answer (λ _. persist s2.count s2.external s2) (λ i. (interrupted i, s1))

  unfoldable pub before_provider_call : Bool → Live → Answer ℕ × Live
  unfolding cross
  before_provider_call may_submit_external = cross (count_call may_submit_external)

  unfoldable pub before_irreversible_local_persist : Live → Answer ℕ × Live
  unfolding cross
  before_irreversible_local_persist = cross mark_external
