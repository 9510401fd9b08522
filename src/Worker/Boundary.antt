-- ===== src/Worker/Boundary.antt =====
-- The boundaries of backend/app/execution/contracts.py: what stands in the table once a handler may
-- go on to call a provider.
use social_pilot_ai.Base.{
  ℕ, ◌+◌, ◌≡◌, ◌⊎◌, ◌∙◌, refl, sym, ap, subst, inl, inr, Bool, true, false, Option, some, none,
  is_some, Text, Bool-cases, if◌then◌else◌, arith,
}
use social_pilot_ai.Action.{Result, ok, err, request}
use social_pilot_ai.Queue.Types.{JobStatus, ExecutionAttempt, ExecutionJob, Db}
use social_pilot_ai.Queue.Repository.{get_job, has_expired_lease}
use social_pilot_ai.Queue.Requests.{LeaseRequest, valid_lease, HeartbeatRequest}
use social_pilot_ai.Queue.Leases.{
  heartbeat, beat, external_possible, recover_if_expired, reported_count,
}
use social_pilot_ai.Queue.Invariant.{DbOk, get-put_job}
use social_pilot_ai.Queue.Outcomes.{Answers, Counted, put, heartbeat-Answers}
use social_pilot_ai.Queue.System.{Reach, here, Reach-Sound}
use social_pilot_ai.Queue.Guarantees.{job-Advances}
use social_pilot_ai.Queue.Recovery.{recover_if_expired-Recovers}
use social_pilot_ai.Worker.Context.{
  World, Live, ThreadStep, rests, reads, sends, Answer, done, interrupted, lease_lost_error,
  validated, beat_request, beat_outcome, heartbeat_once, send, thread_step, check, pass, checkpoint,
  persist, cross, count_call, mark_external, before_provider_call,
  before_irreversible_local_persist, follow,
}
use social_pilot_ai.Worker.Reached.{heartbeat_once-Reach, pass-Reach}

-- A possible submission of the job is on record.
abbrev pub Recorded : ℕ → Db → Type 0
Recorded id d = (k : ExecutionJob) × (get_job id d.jobs ≡ some k) × (is_some k.submitted_at ≡ true)

-- It stays on record.
pub Recorded-Reach :
    (sha256 : Text → Text) (id : ℕ) (d e : Db)
    → DbOk d
    → Reach sha256 d e
    → Recorded id d
    → Recorded id e
Recorded-Reach sha256 id d e h r (k, row, at) =
    let (l, row', a) = job-Advances sha256 d e id k h r row in
    (l, row', ap is_some (a.submission_kept at) ∙ at)

beat_records :
    (now : ℕ) (lease : LeaseRequest) (n : ℕ) (j : ExecutionJob) (a : ExecutionAttempt)
    → is_some (beat now (beat_request lease n true) j a).submitted_at ≡ true
unfolding beat
beat_records now lease n j a = ground arith

beat_same_id :
    (now : ℕ) (lease : LeaseRequest) (n : ℕ) (j : ExecutionJob) (a : ExecutionAttempt)
    → (beat now (beat_request lease n true) j a).id ≡ j.id
unfolding beat
beat_same_id now lease n j a = refl

module _ (sha256 : Text → Text) (w : World) (lease : LeaseRequest) (id : ℕ) where
  -- A heartbeat that reports a possible submission and returns has put it on record.
  heartbeat_once-Recorded :
      (n : ℕ) (s : Live)
      → DbOk s.table
      → (heartbeat_once sha256 w lease id n true s).0 ≡ true
      → Recorded id (heartbeat_once sha256 w lease id n true s).1.table
  unfolding heartbeat_once
  heartbeat_once-Recorded n s h e = elim (Bool-cases (valid_lease lease)) [
    | inr bad ↦ absurd (refused bad)
    | inl good ↦ rw good (
        recorded (request (heartbeat sha256 now id req) s.table)
          (heartbeat-Answers sha256 now id s.table h req)
          (subst
            (λ b.
              (beat_outcome s (request (validated b (heartbeat sha256 now id req)) s.table)).0
              ≡ true)
            good e))
  ]
    where
      now : ℕ
      now = w.now s.tick

      req : HeartbeatRequest
      req = beat_request lease n true

      refused : valid_lease lease ≡ false → ⊥
      refused bad =
          let f : false ≡ true =
            subst
              (λ b.
                (beat_outcome s (request (validated b (heartbeat sha256 now id req)) s.table)).0
                ≡ true)
              bad e in
          cc

      recorded :
          (r : Result ExecutionJob × Db)
          → Answers
              (sha256 lease.worker_id)
              now
              id
              s.table
              (Counted (reported_count (some n)))
              (beat now req)
              r
          → (beat_outcome s r).0 ≡ true
          → Recorded id (beat_outcome s r).1.table
      recorded (err x, d) answers f = absurd (cc)
      recorded (ok k, d) (j, a, holds, counted, same, left) f =
          let here : k.id ≡ j.id =
            ap (λ (x : ExecutionJob). x.id) same ∙ beat_same_id now lease n j a in
          let found =
            get-put_job k s.table.jobs j
              (subst (λ i. get_job i s.table.jobs ≡ some j) (sym here) holds.row) in
          (
            k,
            subst (λ (x : Db). get_job id x.jobs ≡ some k) (sym left)
                (subst (λ i. get_job i (put k s.table).jobs ≡ some k) (here ∙ holds.asked) found),
            subst (λ (x : ExecutionJob). is_some x.submitted_at ≡ true) (sym same)
                (beat_records now lease n j a),
          )

-- What passes at a moment leaves the context's count.
send-count :
    (sha256 : Text → Text) (w : World) (lease : LeaseRequest) (id : ℕ) (b : Bool)
    (o : Option (ℕ × Bool)) (s : Live)
    → (send sha256 w lease id b o s).count ≡ s.count
unfolding send heartbeat_once
send-count sha256 w lease id false o s = refl
send-count sha256 w lease id true none s = refl
send-count sha256 w lease id true (some (n, x)) s = outcome _
  where
    outcome :
        (r : Result ExecutionJob × Db)
        → (beat_outcome (record s { seen = none }) r).1.count ≡ s.count
    outcome (ok j, d) = refl
    outcome (err e, d) = refl

pass-count :
    (sha256 : Text → Text) (w : World) (lease : LeaseRequest) (id : ℕ) (s : Live)
    → (pass sha256 w lease id s).count ≡ s.count
unfolding pass thread_step
pass-count sha256 w lease id s = step (w.thread s.tick)
  where
    t : Live
    t = record s { tick = s.tick + 1; table = w.others s.tick s.table }

    step : (k : ThreadStep) → (thread_step sha256 w lease id k t).count ≡ s.count
    step rests = refl
    step reads = refl
    step sends = send-count sha256 w lease id t.beating t.seen t

module _ (sha256 : Text → Text) (w : World) (lease : LeaseRequest)
    (fair : (t : ℕ) (d : Db) → Reach sha256 d (w.others t d)) (id : ℕ) where
  pass-DbOk : (s : Live) → DbOk s.table → DbOk (pass sha256 w lease id s).table
  pass-DbOk s h =
      (Reach-Sound sha256 s.table _ h (pass-Reach sha256 w lease fair s.table id s here)).ok_db

  persist-Recorded :
      (n m : ℕ) (s : Live)
      → DbOk s.table
      → (persist sha256 w lease id n true s).0 ≡ done m
      → (m ≡ n) × Recorded id (persist sha256 w lease id n true s).1.table
  unfolding persist checkpoint
  persist-Recorded n m s h e = elim (Bool-cases (heartbeat_once sha256 w lease id n true t).0) [
    | inr f ↦ absurd (never (subst (λ b. (outcome b).0 ≡ done m) f e))
    | inl f ↦
        let sent = heartbeat_once-Recorded sha256 w lease id n t (pass-DbOk s h) f in
        let ok_t =
          (Reach-Sound sha256 t.table t'.table (pass-DbOk s h)
            (heartbeat_once-Reach sha256 w lease fair t.table id n true t here)).ok_db in
        let later =
          Recorded-Reach sha256 id t'.table (pass sha256 w lease id t').table ok_t
            (pass-Reach sha256 w lease fair t'.table id t' here) sent in
        (
          number (check sha256 w lease id (pass sha256 w lease id t'))
              (subst (λ b. (outcome b).0 ≡ done m) f e),
          subst (λ b. Recorded id (outcome b).1.table) (sym f) later,
        )
  ]
    where
      t : Live
      t = pass sha256 w lease id s

      t' : Live
      t' = (heartbeat_once sha256 w lease id n true t).1

      outcome : Bool → Answer ℕ × Live
      outcome b =
          if b
          then (
            follow (check sha256 w lease id (pass sha256 w lease id t')) (λ _. done n) interrupted,
            pass sha256 w lease id t',
          )
          else (interrupted lease_lost_error, t')

      never : interrupted lease_lost_error ≡ done m → ⊥
      never q = cc

      number : (a : Answer (Unit {0})) → follow a (λ _. done n) interrupted ≡ done m → m ≡ n
      number (done u) q = cc
      number (interrupted i) q = absurd (cc)

  cross-Recorded :
      (mark : Live → Live) (m : ℕ) (s : Live)
      → ((t : Live) → ((mark t).table ≡ t.table) × ((mark t).external ≡ true))
      → DbOk s.table
      → (cross sha256 w lease id mark s).0 ≡ done m
      → (m ≡ (mark (pass sha256 w lease id s)).count)
        × Recorded id (cross sha256 w lease id mark s).1.table
  unfolding cross checkpoint
  cross-Recorded mark m s marks h e = go (check sha256 w lease id (pass sha256 w lease id s)) e
    where
      t : Live
      t = mark (pass sha256 w lease id s)

      marked : DbOk t.table
      marked = subst DbOk (sym (marks (pass sha256 w lease id s)).0) (pass-DbOk s h)

      rest : Answer (Unit {0}) → Answer ℕ × Live
      rest a =
          follow a (λ _. persist sha256 w lease id t.count t.external t)
            (λ i. (interrupted i, pass sha256 w lease id s))

      go :
          (a : Answer (Unit {0}))
          → (rest a).0 ≡ done m
          → (m ≡ t.count) × Recorded id (rest a).1.table
      go (interrupted i) q = absurd (cc)
      go (done u) q =
          subst (λ b. (m ≡ t.count) × Recorded id (persist sha256 w lease id t.count b t).1.table)
            (sym (marks (pass sha256 w lease id s)).1)
            (persist-Recorded t.count m t marked (
              subst (λ b. (persist sha256 w lease id t.count b t).0 ≡ done m)
                (marks (pass sha256 w lease id s)).1 q))

  -- On a table that meets the constraints and with surroundings that act through calls of the
  -- queue: when `before_provider_call(may_submit_external=True)` lets the handler go on with a
  -- count, that count is one more than before, and a submission of the job is on record in the
  -- table.
  pub before_provider_call-Recorded :
      (m : ℕ) (s : Live)
      → DbOk s.table
      → (before_provider_call sha256 w lease id true s).0 ≡ done m
      → (m ≡ s.count + 1) × Recorded id (before_provider_call sha256 w lease id true s).1.table
  unfolding before_provider_call
  before_provider_call-Recorded m s h e =
      let (number, recorded) = cross-Recorded (count_call true) m s (λ t. (refl, refl)) h e in
      (number ∙ ap (λ n. n + 1) (pass-count sha256 w lease id s), recorded)

  -- On a table that meets the constraints and with surroundings that act through calls of the
  -- queue: when `before_irreversible_local_persist` lets the handler go on, the count is as before,
  -- and a submission of the job is on record in the table.
  pub before_irreversible_local_persist-Recorded :
      (m : ℕ) (s : Live)
      → DbOk s.table
      → (before_irreversible_local_persist sha256 w lease id s).0 ≡ done m
      → (m ≡ s.count) × Recorded id (before_irreversible_local_persist sha256 w lease id s).1.table
  unfolding before_irreversible_local_persist
  before_irreversible_local_persist-Recorded m s h e =
      let (number, recorded) = cross-Recorded mark_external m s (λ t. (refl, refl)) h e in
      (number ∙ pass-count sha256 w lease id s, recorded)

-- Once a submission of a job is on record in a table that meets the constraints, then after any
-- calls of any clients the job is still there, and recovery at any time leaves it as it is or makes
-- it uncertain.
pub submission_never_requeued :
    (sha256 : Text → Text) (id later : ℕ) (d e : Db)
    → DbOk d
    → Reach sha256 d e
    → Recorded id d
    → (k : ExecutionJob) × (get_job id e.jobs ≡ some k)
      × ((recover_if_expired later k ≡ k)
          ⊎ (((recover_if_expired later k).status ≡ JobStatus.submit_unknown)
              × ((recover_if_expired later k).uncertain ≡ true)))
submission_never_requeued sha256 id later d e h r recorded =
    let (k, row, at) = Recorded-Reach sha256 id d e h r recorded in
    let outcome = recover_if_expired-Recovers later k in
    let external : external_possible k ≡ true = unfold external_possible in ground (arith, at) in
    (
      k,
      row,
      elim (Bool-cases (has_expired_lease later k)) [
        | inl p ↦ inr (outcome.uncertain_kept p external)
        | inr p ↦ inl (outcome.kept p)
      ],
    )
