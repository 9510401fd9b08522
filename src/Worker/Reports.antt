-- ===== src/Worker/Reports.antt =====
-- What `run_once` of backend/app/execution/worker.py reports, beside what stands in the table.
use social_pilot_ai.Base.{
  ℕ, ◌≡◌, ◌∙◌, refl, sym, ap, subst, inl, inr, Bool, true, false, not, ◌&&◌, ◌||◌, Option, some,
  none, List, Text, Bool-cases,
}
use social_pilot_ai.Json.{Fields}
use social_pilot_ai.Action.{Session, Result, ok, err, request, pure, continue, ◌>>=◌}
use social_pilot_ai.Queue.Types.{JobStatus, ExecutionAttempt, ExecutionJob, Db}
use social_pilot_ai.Queue.Repository.{get_job}
use social_pilot_ai.Queue.Requests.{LeaseRequest, valid_complete, valid_fail, valid_unknown}
use social_pilot_ai.Queue.Service.{Run}
use social_pilot_ai.Queue.Leases.{
  complete, fail, mark_submit_unknown, completed, failed_job, unknown_job,
}
use social_pilot_ai.Queue.Claiming.{FlushOk}
use social_pilot_ai.Queue.Invariant.{DbOk, get-put_job}
use social_pilot_ai.Queue.Outcomes.{
  Answers, Counted, Failable, put, complete-Answers, fail-Answers, mark_submit_unknown-Answers,
}
use social_pilot_ai.Queue.System.{Reach, here, Reach-Sound}
use social_pilot_ai.Worker.Contracts.{
  HandlerResult, is_success, is_unknown, is_certain_failure, resolve,
}
use social_pilot_ai.Worker.Context.{World, Live, validated, heartbeat_once, pass}
use social_pilot_ai.Worker.Run.{
  Handler, WorkerRunStatus, no_job, succeeded, failed, submit_unknown, lease_lost, stopped,
  WorkerRunResult, store, complete_request, fail_request, unknown_request, reported, conflict,
  store_result, finalize, conclude, execute_claimed, execute_if_claimed, run_once,
}
use social_pilot_ai.Worker.Reached.{
  heartbeat_once-Reach, pass-Reach, invoke_handler-Reach, claim-Reach,
}

abbrev pub StatusIs : ℕ → JobStatus → Db → Type 0
StatusIs id status d = (k : ExecutionJob) × (get_job id d.jobs ≡ some k) × (k.status ≡ status)

-- What a report on a job promises of the table.
abbrev pub Shows : WorkerRunStatus → Option ℕ → Db → Type 0
Shows succeeded (some id) d = StatusIs id JobStatus.succeeded d
Shows failed (some id) d = StatusIs id JobStatus.failed d
Shows submit_unknown (some id) d = StatusIs id JobStatus.submit_unknown d
Shows succeeded none d = ⊥
Shows failed none d = ⊥
Shows submit_unknown none d = ⊥
Shows lease_lost o d = Unit
Shows no_job o d = Unit
Shows stopped o d = Unit

abbrev pub ReportShows : Result WorkerRunResult → Db → Type 0
ReportShows (ok a) d = Shows a.status a.job_id d
ReportShows (err e) d = Unit

abbrev StoreShows : ℕ → Result WorkerRunStatus × Db → Type 0
StoreShows id (ok st, e) = Shows st (some id) e
StoreShows id (err x, e) = Unit

module _ (digest : Text) (now id : ℕ) (d : Db) (allowed : ExecutionJob → ExecutionAttempt → Type 0)
    (write : ExecutionJob → ExecutionAttempt → ExecutionJob) (status : JobStatus)
    (same_id : (j : ExecutionJob) (a : ExecutionAttempt) → (write j a).id ≡ j.id)
    (sets : (j : ExecutionJob) (a : ExecutionAttempt) → (write j a).status ≡ status) where
  abbrev RowWritten : Result ExecutionJob × Db → Type 0
  RowWritten (ok k, e) = StatusIs id status e
  RowWritten (err x, e) = Unit

  row_written :
      (r : Result ExecutionJob × Db) → Answers digest now id d allowed write r → RowWritten r
  row_written (err x, e) h = tt
  row_written (ok k, e) (j, a, holds, p, same, left) =
      let here : k.id ≡ j.id = ap (λ (x : ExecutionJob). x.id) same ∙ same_id j a in
      let found =
        get-put_job k d.jobs j (subst (λ i. get_job i d.jobs ≡ some j) (sym here) holds.row) in
      (
        k,
        subst (λ (x : Db). get_job id x.jobs ≡ some k) (sym left)
            (subst (λ i. get_job i (put k d).jobs ≡ some k) (here ∙ holds.asked) found),
        ap (λ (x : ExecutionJob). x.status) same ∙ sets j a,
      )

  -- The row behind the status that a call is followed by.
  stored :
      (valid : Bool) (m : Run ExecutionJob) (st : WorkerRunStatus)
      → ((e : Db) → StatusIs id status e → Shows st (some id) e)
      → Answers digest now id d allowed write (request m d)
      → StoreShows id (request (validated valid m >>= λ k. pure st) d)
  stored false m st shown h = tt
  stored true m st shown h = go (m (record { committed = d; working = d })) (row_written _ h)
    where
      go :
          (r : Result ExecutionJob × Session Db)
          → RowWritten (r.0, r.1.committed)
          → let (a, s) = continue r.0 (λ k. pure st) r.1 in StoreShows id (a, s.committed)
      go (ok k, s) q = shown s.committed q
      go (err x, s) q = tt

module _ (sha256 : Text → Text) (w : World) (lease : LeaseRequest)
    (fair : (t : ℕ) (d : Db) → Reach sha256 d (w.others t d)) (id : ℕ) where
  store-Shows :
      (now : ℕ) (r : HandlerResult) (n : ℕ) (x : Bool) (d : Db)
      → DbOk d
      → StoreShows id (request (store sha256 w lease id now r n x) d)
  unfolding store
  store-Shows now r n x d h = elim (Bool-cases (is_success r.status)) [
    | inl e ↦
        let q = complete_request sha256 w lease id r n in
        rw e (
          stored (sha256 lease.worker_id) now id d (Counted (λ a. n)) (completed now q)
            JobStatus.succeeded (λ j a. unfold completed in refl) (λ j a. unfold completed in refl)
            (valid_complete q) (complete sha256 now id q) succeeded (λ e row. row)
            (complete-Answers sha256 now id d h q))
    | inr e ↦
        rw e
          (elim (Bool-cases
            (is_unknown r.status || (x && not (is_certain_failure r.provider_submission_state)))) [
              | inl f ↦
                  let q = unknown_request sha256 w lease id r n in
                  rw f (
                    stored (sha256 lease.worker_id) now id d (Counted (λ a. n)) (unknown_job now q)
                      JobStatus.submit_unknown (λ j a. unfold unknown_job in refl)
                      (λ j a. unfold unknown_job in refl) (valid_unknown q)
                      (mark_submit_unknown sha256 now id q) submit_unknown (λ e row. row)
                      (mark_submit_unknown-Answers sha256 now id d h q))
              | inr f ↦
                  let q = fail_request sha256 w lease id r n x in
                  rw f (
                    stored (sha256 lease.worker_id) now id d (Failable q) (failed_job now q)
                      JobStatus.failed (λ j a. unfold failed_job in refl)
                      (λ j a. unfold failed_job in refl) (valid_fail q) (fail sha256 now id q)
                      failed (λ e row. row) (fail-Answers sha256 now id d h q))
            ])
  ]

  reported-Shows :
      (r : Result WorkerRunStatus × Db)
      → StoreShows id r
      → ReportShows (reported sha256 w lease id r.0) r.1
  reported-Shows (ok st, e) h = h
  reported-Shows (err x, e) h = elim (Bool-cases (conflict sha256 w lease id x)) [
    | inl c ↦ rw c tt
    | inr c ↦ rw c tt
  ]

  store_result-Shows :
      (r : HandlerResult) (x : Bool) (s : Live)
      → DbOk s.table
      → let (a, s') = store_result sha256 w lease id r x s in ReportShows a s'.table
  unfolding store_result
  store_result-Shows r x s h =
      let ready =
        (Reach-Sound sha256 s.table _ h (pass-Reach sha256 w lease fair s.table id s here)).ok_db in
      reported-Shows _ (store-Shows _ r _ x _ ready)

  finalize-Shows :
      (r : HandlerResult) (s : Live)
      → DbOk s.table
      → let (a, s') = finalize sha256 w lease id r s in ReportShows a s'.table
  unfolding finalize
  finalize-Shows r s h =
      let announced =
        (heartbeat_once sha256 w lease id s.count true (pass sha256 w lease id s)).1 in
      let ready : DbOk announced.table =
        (Reach-Sound sha256 s.table _ h (
          heartbeat_once-Reach sha256 w lease fair s.table id s.count true
            (pass sha256 w lease id s) (pass-Reach sha256 w lease fair s.table id s here))).ok_db in
      elim (Bool-cases (is_unknown r.status && not s.external)) [
        | inr e ↦ rw e (store_result-Shows r s.external s h)
        | inl e ↦
            rw e
              (elim (Bool-cases
                (heartbeat_once sha256 w lease id s.count true (pass sha256 w lease id s)).0) [
                  | inl f ↦ rw f (store_result-Shows r true announced ready)
                  | inr f ↦ rw f tt
                ])
      ]

  conclude-Shows :
      (r : Option HandlerResult) (lost : Bool) (s : Live)
      → DbOk s.table
      → let (a, s') = conclude sha256 w lease id r lost s in ReportShows a s'.table
  conclude-Shows none lost s h = tt
  conclude-Shows (some r) true s h = tt
  conclude-Shows (some r) false s h = finalize-Shows r s h

  execute_claimed-Shows :
      (h : Option Handler) (payload : Fields) (d : Db) (tick : ℕ)
      → DbOk d
      → let (a, s') = execute_claimed sha256 w lease id h payload d tick in ReportShows a s'.table
  unfolding execute_claimed
  execute_claimed-Shows h payload d tick good =
      conclude-Shows _ _ _
        (Reach-Sound sha256 d _ good (
          pass-Reach sha256 w lease fair d id _
            (invoke_handler-Reach sha256 w lease fair d id h payload _ here))).ok_db

-- On a table that meets the constraints, with surroundings that act through calls of the queue: if
-- `run_once` reports a job as succeeded, failed or uncertain, then the row of that job has that
-- status in the table that it leaves.
pub run_once-Shows :
    (sha256 : Text → Text) (w : World) (lease : LeaseRequest) (registry : List (Text × Handler))
    (d : Db)
    → ((t : ℕ) (e : Db) → Reach sha256 e (w.others t e))
    → ((k : ℕ) → FlushOk d (w.claim_flush k))
    → DbOk d
    → let (a, d') = run_once sha256 w lease registry d in ReportShows a d'
unfolding run_once
run_once-Shows sha256 w lease registry d fair flush h = elim (Bool-cases (w.stopped 0)) [
  | inl e ↦ rw e tt
  | inr e ↦
      rw e
        (after _ _ (Reach-Sound sha256 d _ h (claim-Reach sha256 w lease registry d flush)).ok_db)
]
  where
    after :
        (a : Result (Option ExecutionJob)) (e : Db)
        → DbOk e
        → let (b, d') = execute_if_claimed sha256 w lease registry a e in ReportShows b d'
    after (err x) e g = tt
    after (ok none) e g = tt
    after (ok (some j)) e g =
        execute_claimed-Shows sha256 w lease fair j.id (resolve registry j.job_type) j.input_payload
          e 0 g
