-- ===== src/Worker/Decisions.antt =====
-- What the worker decides: the call that stores a result, the registry, and a heartbeat that comes
-- too late.
use social_pilot_ai.Base.{
  ℕ, ◌≤◌, ◌<◌, ◌≡◌, ◌≢◌, ◌⊎◌, refl, sym, subst, inl, inr, Bool, true, false, not, ◌&&◌, ◌||◌, some,
  none, List, ◌∷◌, Text, text_eq, text_eq_iff, text_eq_refl, all_of, Bool-cases, Option-cases,
  if◌then◌else◌, arith,
}
use social_pilot_ai.Action.{
  Session, Error, app, validation, Result, ok, err, request, pure, continue, ◌>>=◌,
}
use social_pilot_ai.Queue.Types.{ExecutionAttempt, ExecutionJob, Db}
use social_pilot_ai.Queue.Requests.{
  LeaseRequest, valid_lease, valid_complete, valid_unknown, within, is_name_char,
}
use social_pilot_ai.Queue.Service.{Run}
use social_pilot_ai.Queue.Leases.{heartbeat, complete, completed, mark_submit_unknown}
use social_pilot_ai.Queue.Outcomes.{Holds, put}
use social_pilot_ai.Queue.Accepting.{complete_accepted, heartbeat_refused}
use social_pilot_ai.Worker.Contracts.{
  HandlerResult, is_success, is_unknown, is_certain_failure, resolve, register,
}
use social_pilot_ai.Worker.Context.{
  World, Live, sends, validated, beat_request, beat_outcome, heartbeat_once, send, thread_step,
}
use social_pilot_ai.Worker.Run.{
  WorkerRunStatus, succeeded, failed, submit_unknown, store, store_success, store_unknown,
  store_failure, complete_request, unknown_request,
}

-- A status is answered only by the branch that it is written in.
answers_own :
    (r : Result ExecutionJob × Session Db) (st st' : WorkerRunStatus)
    → (continue r.0 (λ k. pure st) r.1).0 ≡ ok st'
    → ok st ≡ ok st'
answers_own (ok k, s) st st' e = e
answers_own (err x, s) st st' e = absurd (cc)

own :
    (valid : Bool) (m : Run ExecutionJob) (st st' : WorkerRunStatus) (d : Db)
    → (request (validated valid m >>= λ k. pure st) d).0 ≡ ok st'
    → ok st ≡ ok st'
own true m st st' d e = answers_own (m (record { committed = d; working = d })) st st' e
own false m st st' d e = absurd (cc)

abbrev refusal : Bool → Error
refusal true = app "Provider call count cannot decrease" 409
refusal false = validation

abbrev IsLost : Live → Live → Type 0
IsLost s s' = (s'.lost ≡ true) × (s'.beating ≡ false) × (s'.table ≡ s.table)

beat_outcome-IsLost :
    (s : Live) (e : Error) (r : Result ExecutionJob × Db)
    → r ≡ (err e, s.table)
    → let (alive, s') = beat_outcome s r in IsLost s (record s' { beating = alive })
beat_outcome-IsLost s e r q =
    subst
      (λ (o : Result ExecutionJob × Db).
        let (alive, s') = beat_outcome s o in IsLost s (record s' { beating = alive }))
      (sym q) (refl, refl, refl)

module _ (sha256 : Text → Text) (w : World) (lease : LeaseRequest) (id : ℕ) where
  -- If storing a result answers that the job has failed, then the result was neither a success nor
  -- uncertain, and either no external submission was possible or the result names a certain outcome
  -- of it.
  pub store_failed_certain :
      (now : ℕ) (r : HandlerResult) (n : ℕ) (x : Bool) (d : Db)
      → (request (store sha256 w lease id now r n x) d).0 ≡ ok failed
      → (is_success r.status ≡ false)
        × (is_unknown r.status ≡ false)
        × ((x ≡ false) ⊎ (is_certain_failure r.provider_submission_state ≡ true))
  unfolding store
  store_failed_certain now r n x d e = elim (Bool-cases (is_success r.status)) [
    | inl p ↦ absurd (not_success p)
    | inr p ↦
        elim (Bool-cases
          (is_unknown r.status || (x && not (is_certain_failure r.provider_submission_state)))) [
            | inl q ↦ absurd (not_unknown p q)
            | inr q ↦ ground (arith, p, q)
          ]
  ]
    where
      choice : Bool → Bool → Run WorkerRunStatus
      choice a b =
          if a
          then store_success sha256 w lease id now r n
          else if b
          then store_unknown sha256 w lease id now r n
          else store_failure sha256 w lease id now r n x

      uncertain : Bool
      uncertain = is_unknown r.status || (x && not (is_certain_failure r.provider_submission_state))

      not_success : is_success r.status ≡ true → ⊥
      not_success p =
          let f : ok succeeded ≡ ok failed =
            own (valid_complete (complete_request sha256 w lease id r n))
              (complete sha256 now id (complete_request sha256 w lease id r n)) succeeded failed d
              (subst (λ a. (request (choice a uncertain) d).0 ≡ ok failed) p e) in
          cc

      not_unknown : is_success r.status ≡ false → uncertain ≡ true → ⊥
      not_unknown p q =
          let f : ok submit_unknown ≡ ok failed =
            own (valid_unknown (unknown_request sha256 w lease id r n))
              (mark_submit_unknown sha256 now id (unknown_request sha256 w lease id r n))
              submit_unknown failed d
              (subst (λ b. (request (choice false b) d).0 ≡ ok failed) q
                (subst (λ a. (request (choice a uncertain) d).0 ≡ ok failed) p e)) in
          cc

  -- If the worker holds the job, has counted no fewer calls than stored, and its result is a
  -- success whose request is valid, then storing the result answers that the job has succeeded and
  -- commits the succeeded row.
  pub store_succeeds :
      (now : ℕ) (r : HandlerResult) (n : ℕ) (x : Bool) (d : Db) (j : ExecutionJob)
      (a : ExecutionAttempt)
      → Holds (sha256 lease.worker_id) now id d j a
      → a.provider_call_count ≤ n
      → is_success r.status ≡ true
      → valid_complete (complete_request sha256 w lease id r n) ≡ true
      → let k = completed now (complete_request sha256 w lease id r n) j a in
        request (store sha256 w lease id now r n x) d ≡ (ok succeeded, put k d)
  unfolding store
  store_succeeds now r n x d j a holds counted success valid =
      let q = complete_request sha256 w lease id r n in
      let accepted = complete_accepted sha256 lease.worker_id now id d j a holds q refl counted in
      rw success (
        rw valid
          (answered (complete sha256 now id q (record { committed = d; working = d })) accepted))
    where
      answered :
          {k : ExecutionJob} (o : Result ExecutionJob × Session Db)
          → let before : Result ExecutionJob × Db = (o.0, o.1.committed) in
            let after : Result WorkerRunStatus × Db =
              let (b, s) = continue o.0 (λ z. pure succeeded) o.1 in (b, s.committed) in
            before ≡ (ok k, put k d) → after ≡ (ok succeeded, put k d)
      answered (ok z, s) e = ground (arith, e)
      answered (err z, s) e = absurd (cc)

  -- If the heartbeat thread of a worker that holds its job sends a count that it has read before
  -- the worker stored a higher one, then the lease counts as lost and the thread ends, although the
  -- table is unchanged.
  pub stale_heartbeat_loses_lease :
      (s : Live) (n : ℕ) (x : Bool) (j : ExecutionJob) (a : ExecutionAttempt)
      → Holds (sha256 lease.worker_id) (w.now s.tick) id s.table j a
      → s.beating ≡ true
      → s.seen ≡ some (n, x)
      → n < a.provider_call_count
      → let s' = thread_step sha256 w lease id sends s in
        (s'.lost ≡ true) × (s'.beating ≡ false) × (s'.table ≡ s.table)
  unfolding thread_step send heartbeat_once
  stale_heartbeat_loses_lease s n x j a holds beating seen fewer =
      subst (λ b. IsLost s (send sha256 w lease id b s.seen s)) (sym beating)
        (subst (λ o. IsLost s (send sha256 w lease id true o s)) (sym seen)
          (beat_outcome-IsLost (record s { seen = none }) _ _ refused))
    where
      refused :
          request
            (validated
              (valid_lease lease)
              (heartbeat sha256 (w.now s.tick) id (beat_request lease n x)))
            s.table
          ≡ (err (refusal (valid_lease lease)), s.table)
      refused = elim (Bool-cases (valid_lease lease)) [
        | inl v ↦ rw v (
            heartbeat_refused sha256 lease.worker_id (w.now s.tick) id s.table j a holds
              (beat_request lease n x) refl fewer)
        | inr v ↦ rw v refl
      ]

module _ {H : Type 0} where
  -- If a handler is registered under a job type, then there was none under it before, that type
  -- resolves to it afterwards, and every other type resolves as before.
  pub resolve-register :
      (t : Text) (h : H) (hs ks : List (Text × H))
      → register t h hs ≡ ok ks
      → (resolve hs t ≡ none)
        × (resolve ks t ≡ some h)
        × ((u : Text) → u ≢ t → resolve ks u ≡ resolve hs u)
  unfolding register
  resolve-register t h hs ks e = elim (Bool-cases (within 1 80 t && all_of is_name_char t)) [
    | inr p ↦ absurd (ground arith)
    | inl p ↦ elim (Option-cases (resolve hs t)) [
      | inr (g, q) ↦ absurd (ground arith)
      | inl q ↦
          let added : ks ≡ (t, h) ∷ hs = ground arith in
          (
            q,
            rw added (rw text_eq_refl refl),
            λ u ne.
                let other : text_eq t u ≡ false = ground (arith, text_eq_iff t u, ne) in
                rw added (rw other refl),
          )
    ]
  ]
