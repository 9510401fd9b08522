-- ===== src/Worker/Reached.antt =====
-- How the worker, backend/app/execution/worker.py, touches the table of the queue.
use social_pilot_ai.Base.{
  ℕ, ◌≡◌, ◌∙◌, refl, sym, ap, subst, inl, inr, Bool, true, false, not, ◌&&◌, ◌||◌, Option, some,
  none, List, Text, Bool-cases,
}
use social_pilot_ai.Json.{Fields}
use social_pilot_ai.Action.{Session, Result, ok, err, request, pure, continue, ◌>>=◌}
use social_pilot_ai.Queue.Types.{ExecutionJob, Db}
use social_pilot_ai.Queue.Requests.{
  LeaseRequest, valid_claim, valid_lease, valid_complete, valid_fail, valid_unknown,
}
use social_pilot_ai.Queue.Service.{Run}
use social_pilot_ai.Queue.Leases.{heartbeat}
use social_pilot_ai.Queue.Claim.{claim}
use social_pilot_ai.Queue.Claiming.{FlushOk}
use social_pilot_ai.Queue.System.{
  claim_job, heartbeat_job, complete_job, fail_job, unknown_job_call, checked, handle, serve, Reach,
  here, next,
}
use social_pilot_ai.Worker.Contracts.{
  HandlerResult, is_success, is_unknown, is_certain_failure, resolve,
}
use social_pilot_ai.Worker.Context.{
  World, Live, ThreadStep, rests, reads, sends, Answer, done, interrupted, Interrupt, validated,
  beat_request, beat_outcome, heartbeat_once, send, thread_step, pass, checkpoint, persist, cross,
  before_provider_call, count_call, mark_external, before_irreversible_local_persist, follow,
}
use social_pilot_ai.Worker.Run.{
  Program, returns, returns_other, raises, reraises, at_checkpoint, at_provider_call,
  at_local_persist, Handler, Ended, result, interrupted_by, crashed, run, close, invoke_handler,
  store, store_result, finalize, conclude, complete_request, fail_request, unknown_request,
  execute_claimed, execute_if_claimed, any_claim, run_once,
}

kept : {A B : Type 0} (b : B) (r : Result A × Session Db) → (continue r.0 (λ a. pure b) r.1).1 ≡ r.1
kept b (ok a, s) = refl
kept b (err e, s) = refl

-- A call with its answer replaced leaves what the call leaves.
validated-checked :
    {A B : Type 0} (valid : Bool) (m : Run A) (b : B) (d : Db)
    → (request (validated valid m >>= λ a. pure b) d).1 ≡ (request (checked valid m) d).1
validated-checked true m b d =
    let s : Session Db = record { committed = d; working = d } in
    ap (λ (t : Session Db). t.committed) (kept b (m s) ∙ sym (kept tt (m s)))
validated-checked false m b d = refl

pub validated_left :
    {A : Type 0} (valid : Bool) (m : Run A) (d : Db)
    → (request (validated valid m) d).1 ≡ (request (checked valid m) d).1
validated_left true m d =
    let s : Session Db = record { committed = d; working = d } in
    ap (λ (t : Session Db). t.committed) (sym (kept tt (m s)))
validated_left false m d = refl

module _ (sha256 : Text → Text) (w : World) (lease : LeaseRequest)
    (fair : (t : ℕ) (d : Db) → Reach sha256 d (w.others t d)) (start : Db) where
  -- Steps one after another.
  pub Reach-trans : {d e : Db} → Reach sha256 start d → Reach sha256 d e → Reach sha256 start e
  Reach-trans r here = r
  Reach-trans r (next q call f) = next (Reach-trans r q) call f

  follow-Reach :
      {A B : Type 0} (a : Answer A) (k : A → B × Live) (h : Interrupt → B × Live)
      → ((x : A) → Reach sha256 start (k x).1.table)
      → ((i : Interrupt) → Reach sha256 start (h i).1.table)
      → Reach sha256 start (follow a k h).1.table
  follow-Reach (done x) k h p q = p x
  follow-Reach (interrupted i) k h p q = q i

  module _ (id : ℕ) where
    pub heartbeat_once-Reach :
        (n : ℕ) (x : Bool) (s : Live)
        → Reach sha256 start s.table
        → Reach sha256 start (heartbeat_once sha256 w lease id n x s).1.table
    unfolding heartbeat_once serve handle
    heartbeat_once-Reach n x s r =
        subst (Reach sha256 start)
          (sym (
            outcome (
              request
                (validated (valid_lease lease)
                  (heartbeat sha256 (w.now s.tick) id (beat_request lease n x)))
                s.table)
            ∙ validated_left (valid_lease lease) _ s.table))
          (next r (heartbeat_job (w.now s.tick) id (beat_request lease n x)) tt)
      where
        outcome : (a : Result ExecutionJob × Db) → (beat_outcome s a).1.table ≡ a.1
        outcome (ok j, d) = refl
        outcome (err e, d) = refl

    pub pass-Reach :
        (s : Live)
        → Reach sha256 start s.table
        → Reach sha256 start (pass sha256 w lease id s).table
    unfolding pass thread_step send
    pass-Reach s r = step (w.thread s.tick) _ (Reach-trans r (fair s.tick s.table))
      where
        sent :
            (alive : Bool) (seen : Option (ℕ × Bool)) (t : Live)
            → Reach sha256 start t.table
            → Reach sha256 start (send sha256 w lease id alive seen t).table
        sent false seen t q = q
        sent true none t q = q
        sent true (some (n, x)) t q = heartbeat_once-Reach n x (record t { seen = none }) q

        step :
            (k : ThreadStep) (t : Live)
            → Reach sha256 start t.table
            → Reach sha256 start (thread_step sha256 w lease id k t).table
        step rests t q = q
        step reads t q = q
        step sends t q = sent t.beating t.seen t q

    pub checkpoint-Reach :
        (s : Live)
        → Reach sha256 start s.table
        → Reach sha256 start (checkpoint sha256 w lease id s).1.table
    unfolding checkpoint
    checkpoint-Reach s r = pass-Reach s r

    persist-Reach :
        (n : ℕ) (x : Bool) (s : Live)
        → Reach sha256 start s.table
        → Reach sha256 start (persist sha256 w lease id n x s).1.table
    unfolding persist
    persist-Reach n x s r =
        let q = heartbeat_once-Reach n x (pass sha256 w lease id s) (pass-Reach s r) in
        elim (Bool-cases (heartbeat_once sha256 w lease id n x (pass sha256 w lease id s)).0) [
          | inl e ↦ rw e (checkpoint-Reach _ q)
          | inr e ↦ rw e q
        ]

    cross-Reach :
        (mark : Live → Live) (s : Live)
        → ((t : Live) → (mark t).table ≡ t.table)
        → Reach sha256 start s.table
        → Reach sha256 start (cross sha256 w lease id mark s).1.table
    unfolding cross
    cross-Reach mark s same r =
        let q = checkpoint-Reach s r in
        follow-Reach (checkpoint sha256 w lease id s).0 _ _
          (λ u.
            persist-Reach _ _ _
              (subst (Reach sha256 start) (sym (same (checkpoint sha256 w lease id s).1)) q))
          (λ i. q)

    pub before_provider_call-Reach :
        (may : Bool) (s : Live)
        → Reach sha256 start s.table
        → Reach sha256 start (before_provider_call sha256 w lease id may s).1.table
    unfolding before_provider_call
    before_provider_call-Reach may s r = cross-Reach (count_call may) s (λ t. refl) r

    pub before_irreversible_local_persist-Reach :
        (s : Live)
        → Reach sha256 start s.table
        → Reach sha256 start (before_irreversible_local_persist sha256 w lease id s).1.table
    unfolding before_irreversible_local_persist
    before_irreversible_local_persist-Reach s r = cross-Reach mark_external s (λ t. refl) r

    pub run-Reach :
        (p : Program) (s : Live)
        → Reach sha256 start s.table
        → Reach sha256 start (run sha256 w lease id p s).1.table
    unfolding run
    run-Reach (returns a) s r = r
    run-Reach returns_other s r = r
    run-Reach raises s r = r
    run-Reach (reraises i) s r = r
    run-Reach (at_checkpoint k h) s r =
        let q = checkpoint-Reach s r in
        follow-Reach (checkpoint sha256 w lease id s).0 _ _ (λ u. run-Reach k _ q)
          (λ i. run-Reach (h i) _ q)
    run-Reach (at_provider_call may k h) s r =
        let q = before_provider_call-Reach may s r in
        follow-Reach (before_provider_call sha256 w lease id may s).0 _ _ (λ n. run-Reach (k n) _ q)
          (λ i. run-Reach (h i) _ q)
    run-Reach (at_local_persist k h) s r =
        let q = before_irreversible_local_persist-Reach s r in
        follow-Reach (before_irreversible_local_persist sha256 w lease id s).0 _ _
          (λ n. run-Reach k _ q) (λ i. run-Reach (h i) _ q)

    close-Reach :
        (e : Ended × Live)
        → Reach sha256 start e.1.table
        → Reach sha256 start (close sha256 w lease id e).1.table
    unfolding close
    close-Reach (result a, s) r = checkpoint-Reach s r
    close-Reach (interrupted_by i, s) r = r
    close-Reach (crashed, s) r = r

    pub invoke_handler-Reach :
        (h : Option Handler) (payload : Fields) (s : Live)
        → Reach sha256 start s.table
        → Reach sha256 start (invoke_handler sha256 w lease id h payload s).1.table
    unfolding invoke_handler
    invoke_handler-Reach none payload s r = r
    invoke_handler-Reach (some h) payload s r = elim (Bool-cases (h.valid_input payload)) [
      | inr e ↦ rw e r
      | inl e ↦
          let q = checkpoint-Reach s r in
          rw e (
            follow-Reach (checkpoint sha256 w lease id s).0 _ _
              (λ u. close-Reach _ (run-Reach (h.execute payload) _ q)) (λ i. q))
    ]

    store-Reach :
        (now : ℕ) (a : HandlerResult) (n : ℕ) (x : Bool) (d : Db)
        → Reach sha256 start d
        → Reach sha256 start (request (store sha256 w lease id now a n x) d).1
    unfolding store serve handle
    store-Reach now a n x d r = elim (Bool-cases (is_success a.status)) [
      | inl e ↦ rw e (
          subst (Reach sha256 start)
            (sym
              (validated-checked (valid_complete (complete_request sha256 w lease id a n)) _ _ d))
            (next r (complete_job now id (complete_request sha256 w lease id a n)) tt))
      | inr e ↦
          rw e
            (elim (Bool-cases (
              is_unknown a.status || (x && not (is_certain_failure a.provider_submission_state)))) [
                | inl f ↦ rw f (
                    subst (Reach sha256 start)
                      (sym (
                        validated-checked (valid_unknown (unknown_request sha256 w lease id a n)) _
                          _ d))
                      (next r (unknown_job_call now id (unknown_request sha256 w lease id a n)) tt))
                | inr f ↦ rw f (
                    subst (Reach sha256 start)
                      (sym (
                        validated-checked (valid_fail (fail_request sha256 w lease id a n x)) _ _
                          d))
                      (next r (fail_job now id (fail_request sha256 w lease id a n x)) tt))
              ])
    ]

    store_result-Reach :
        (a : HandlerResult) (x : Bool) (s : Live)
        → Reach sha256 start s.table
        → Reach sha256 start (store_result sha256 w lease id a x s).1.table
    unfolding store_result
    store_result-Reach a x s r = store-Reach _ a _ x _ (pass-Reach s r)

    pub finalize-Reach :
        (a : HandlerResult) (s : Live)
        → Reach sha256 start s.table
        → Reach sha256 start (finalize sha256 w lease id a s).1.table
    unfolding finalize
    finalize-Reach a s r =
        let q = heartbeat_once-Reach s.count true (pass sha256 w lease id s) (pass-Reach s r) in
        elim (Bool-cases (is_unknown a.status && not s.external)) [
          | inr e ↦ rw e (store_result-Reach a s.external s r)
          | inl e ↦
              rw e
                (elim (Bool-cases
                  (heartbeat_once sha256 w lease id s.count true (pass sha256 w lease id s)).0) [
                    | inl f ↦ rw f (store_result-Reach a true _ q)
                    | inr f ↦ rw f q
                  ])
        ]

    conclude-Reach :
        (a : Option HandlerResult) (lost : Bool) (s : Live)
        → Reach sha256 start s.table
        → Reach sha256 start (conclude sha256 w lease id a lost s).1.table
    conclude-Reach none lost s r = r
    conclude-Reach (some a) true s r = r
    conclude-Reach (some a) false s r = finalize-Reach a s r

    pub execute_claimed-Reach :
        (h : Option Handler) (payload : Fields) (d : Db) (tick : ℕ)
        → Reach sha256 start d
        → Reach sha256 start (execute_claimed sha256 w lease id h payload d tick).1.table
    unfolding execute_claimed
    execute_claimed-Reach h payload d tick r =
        conclude-Reach _ _ _ (pass-Reach _ (invoke_handler-Reach h payload _ r))

-- The claim of a run.
pub claim-Reach :
    (sha256 : Text → Text) (w : World) (lease : LeaseRequest) (registry : List (Text × Handler))
    (d : Db)
    → ((k : ℕ) → FlushOk d (w.claim_flush k))
    → let c = any_claim sha256 w lease registry in
      Reach sha256 d
        (request (validated (valid_claim c) (claim sha256 w.claim_clock w.claim_flush c)) d).1
unfolding serve handle
claim-Reach sha256 w lease registry d flush =
    let c = any_claim sha256 w lease registry in
    subst (Reach sha256 d)
      (sym (validated_left (valid_claim c) (claim sha256 w.claim_clock w.claim_flush c) d))
      (next here (claim_job w.claim_clock w.claim_flush c) flush)

-- Whatever the handlers do and whenever the worker is stopped or loses its lease, the table that
-- `run_once` leaves is one that calls of the queue lead to, if its surroundings act through such
-- calls and the races that its claim loses are fair.
pub run_once-Reach :
    (sha256 : Text → Text) (w : World) (lease : LeaseRequest) (registry : List (Text × Handler))
    (d : Db)
    → ((t : ℕ) (e : Db) → Reach sha256 e (w.others t e))
    → ((k : ℕ) → FlushOk d (w.claim_flush k))
    → Reach sha256 d (run_once sha256 w lease registry d).1
unfolding run_once serve handle
run_once-Reach sha256 w lease registry d fair flush = elim (Bool-cases (w.stopped 0)) [
  | inl e ↦ rw e here
  | inr e ↦ rw e (after _ _ (claim-Reach sha256 w lease registry d flush))
]
  where
    after :
        (a : Result (Option ExecutionJob)) (e : Db)
        → Reach sha256 d e
        → Reach sha256 d (execute_if_claimed sha256 w lease registry a e).1
    after (err x) e r = r
    after (ok none) e r = r
    after (ok (some j)) e r =
        execute_claimed-Reach sha256 w lease fair d j.id (resolve registry j.job_type)
          j.input_payload e 0 r
