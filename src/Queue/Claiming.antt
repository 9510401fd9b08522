-- ===== src/Queue/Claiming.antt =====
-- `create` and `claim` keep a session good, whatever the other sessions commit in between.
use social_pilot_ai.Base.{
  ℕ, zero, suc, ◌+◌, ◌<◌, ◌≡◌, ◌≢◌, refl, sym, subst, inl, inr, true, not, Option, none, some, List,
  [], ◌∷◌, ◌++◌, map, All, All-imp, All-both, All-append, Pairwise-snoc, Bool-cases, Text, text_eq,
  text_eq_iff, strip, casefold, length, ltb, arith,
}
use social_pilot_ai.Json.{accepts_fields}
use social_pilot_ai.Action.{Session}
use social_pilot_ai.Queue.Types.{JobStatus, ExecutionJob, Db}
use social_pilot_ai.Queue.Repository.{
  get_job, put_job, get_by_idempotency_key, claim_candidate, claimable, claimed_job,
}
use social_pilot_ai.Queue.Requests.{CreateRequest, ClaimRequest, valid_create, normalize_job_types}
use social_pilot_ai.Queue.Service.{Run, seconds}
use social_pilot_ai.Queue.Leases.{recover_if_expired, recover_expired_leases}
use social_pilot_ai.Queue.Claim.{
  Flush, calm, beaten, broken, new_job, insert_job, idempotent_result, concurrent_result, add_job,
  reuse_or_add, create, take_candidate, claim_round, claim_rounds, claim,
}
use social_pilot_ai.Queue.Lifecycle.{◌⟶*◌, here, Evolves, Evolves-refl, Evolves-trans}
use social_pilot_ai.Queue.Invariant.{
  JobOk, Apart, All-get_job, All-put_job, Pairwise-put_job, Evolves-put_job,
}
use social_pilot_ai.Queue.Candidate.{
  opened_job, opened_job-JobOk, opened_job-Advances, opened-after, opened-before,
}
use social_pilot_ai.Queue.Unflushed.{claim_candidate-recovered}
use social_pilot_ai.Queue.Calls.{get-bind, raise_if-bind}
use social_pilot_ai.Queue.Sound.{Sound, Sound-jobs, Good, Good-both, recover_expired_leases-Good}

-- What the other sessions have committed follows from the table at the start.
pub data FlushOk (start : Db) : Flush → Type 0 where
  calm_ok : FlushOk start calm
  beaten_ok : {d : Db} → Sound start d → FlushOk start (beaten d)
  broken_ok : FlushOk start broken

idempotent-Good :
    (start : Db) (s : Session Db) (j : ExecutionJob) (digest : Text)
    → Good start s
    → Good start (idempotent_result j digest s).1
unfolding idempotent_result
idempotent-Good start s j digest h = elim (Bool-cases (text_eq j.input_digest digest)) [
  | inl e ↦ rw e h
  | inr e ↦ rw e h
]

concurrent-Good :
    (start : Db) (s : Session Db) (o : Option ExecutionJob) (digest : Text)
    → Good start s
    → Good start (concurrent_result o digest s).1
unfolding concurrent_result
concurrent-Good start s none digest h = h
concurrent-Good start s (some j) digest h = idempotent-Good start s j digest h

-- No row with a key that the query does not find.
keys_differ :
    (key : Text) (js : List ExecutionJob)
    → get_by_idempotency_key key js ≡ none
    → All (λ j. j.idempotency_key ≢ key) js
keys_differ key [] e = tt
keys_differ key (j ∷ js) e = ground (arith, text_eq_iff j.idempotency_key key, keys_differ key js)

pub Evolves-append :
    (js : List ExecutionJob) (k : ExecutionJob)
    → k.status ≡ JobStatus.queued
    → Evolves js (js ++ k ∷ [])
Evolves-append [] k e = (subst (λ x. JobStatus.queued ⟶* x) (sym e) here, tt)
Evolves-append (j ∷ js) k e = ((Evolves-refl (j ∷ [])).0, Evolves-append js k e)

new_job-JobOk :
    (now id : ℕ) (req : CreateRequest) → valid_create req ≡ true → JobOk (new_job now id req)
unfolding new_job valid_create
new_job-JobOk now id req v = ground arith

-- A new row is queued, has the next key, and an idempotency key of its own.
new_job-Apart :
    (now id : ℕ) (req : CreateRequest) (j : ExecutionJob)
    → (j.id < id) × (j.idempotency_key ≢ strip req.idempotency_key)
    → Apart j (new_job now id req)
unfolding new_job
new_job-Apart now id req j h = record { ids = h.0; keys = h.1; exclusive = λ p q. absurd (cc) }

insert_job-Sound :
    (start d : Db) (now : ℕ) (req : CreateRequest)
    → valid_create req ≡ true
    → get_by_idempotency_key (strip req.idempotency_key) d.jobs ≡ none
    → Sound start d
    → Sound start (insert_job now req d)
unfolding insert_job
insert_job-Sound start d now req v absent h =
    let k = new_job now d.next_id req in
    record {
      ok_db = record {
        rows =
            All-append JobOk d.jobs (k ∷ []) h.ok_db.rows (new_job-JobOk now d.next_id req v, tt);
        apart =
            Pairwise-snoc Apart d.jobs k
              (All-imp _ _ d.jobs (new_job-Apart now d.next_id req)
                (All-both _ _ d.jobs h.ok_db.fresh (keys_differ _ d.jobs absent)))
              h.ok_db.apart;
        fresh =
            All-append _ d.jobs (k ∷ [])
              (All-imp _ _ d.jobs (λ j (l : j.id < d.next_id). omega arith) h.ok_db.fresh)
              (unfold new_job in (omega arith, tt));
      };
      evolves =
          Evolves-trans start.jobs d.jobs _ h.evolves
            (Evolves-append d.jobs k (unfold new_job in refl));
    }

module _ (start : Db) (now : ℕ) (req : CreateRequest) (v : valid_create req ≡ true) where
  add_job-Good :
      (flush : Flush) (digest : Text) (s : Session Db)
      → Good start s
      → FlushOk start flush
      → get_by_idempotency_key (strip req.idempotency_key) s.working.jobs ≡ none
      → Good start (add_job flush now (strip req.idempotency_key) digest req s).1
  unfolding add_job
  add_job-Good calm digest s h f absent =
      let sound = insert_job-Sound start s.working now req v absent h.working_sound in
      let good = Good-both sound in get-bind start _ s.working.next_id _ good (λ j k. good)
  add_job-Good (beaten d) digest s h (beaten_ok sound) absent =
      concurrent-Good start _ _ digest (Good-both sound)
  add_job-Good broken digest s h f absent =
      concurrent-Good start _ _ digest (Good-both h.committed_sound)

  reuse_or_add-Good :
      (o : Option ExecutionJob) (flush : Flush) (digest : Text) (s : Session Db)
      → get_by_idempotency_key (strip req.idempotency_key) s.working.jobs ≡ o
      → Good start s
      → FlushOk start flush
      → Good start (reuse_or_add o flush now (strip req.idempotency_key) digest req s).1
  reuse_or_add-Good none flush digest s e h f = add_job-Good flush digest s h f e
  reuse_or_add-Good (some j) flush digest s e h f = idempotent-Good start s j digest h

  pub create-Good :
      (flush : Flush) (s : Session Db)
      → Good start s
      → FlushOk start flush
      → Good start (create flush now req s).1
  unfolding create
  create-Good flush s h f =
      raise_if-bind start s (not (accepts_fields req.input_payload)) _ _ h λ p.
        raise_if-bind start s (ltb (length (strip req.idempotency_key)) 8) _ _ h
          λ q. reuse_or_add-Good _ flush (casefold req.input_digest) s refl h f

module _ (sha256 : Text → Text) (start : Db) (req : ClaimRequest) where
  opened-Sound :
      (d : Db) (now : ℕ) (owner : Text) (expires : ℕ) (types : List Text) (c : ExecutionJob)
      → (get_job c.id d.jobs ≡ some c) × (claimable types d.jobs c ≡ true)
      → Sound start d
      → Sound start (record d { jobs = put_job (opened_job owner expires now c) d.jobs })
  unfolding claimed_job
  opened-Sound d now owner expires types c (row, can) h =
      let ok' = All-get_job JobOk c.id d.jobs c h.ok_db.rows row in
      let k = opened_job owner expires now c in
      Sound-jobs start d (put_job k d.jobs) h
        (All-put_job JobOk k d.jobs (opened_job-JobOk owner expires now types d.jobs c ok' can)
          h.ok_db.rows)
        (Pairwise-put_job k d.jobs c row (opened-after owner expires now types d.jobs c ok' can)
          (opened-before owner expires now types d.jobs c ok' can) h.ok_db.apart)
        (All-put_job (λ j. j.id < d.next_id) k d.jobs
          (All-get_job (λ j. j.id < d.next_id) c.id d.jobs c h.ok_db.fresh row) h.ok_db.fresh)
        (Evolves-put_job k d.jobs c row
          (opened_job-Advances owner expires now types d.jobs c ok' can) h.ok_db.apart)

  take_candidate-Good :
      (now : ℕ) (types : List Text) (o : Option ExecutionJob) (d : Db) (s : Session Db)
      → Sound start d
      → claim_candidate types d.jobs ≡ o
      → s.working ≡ record d { jobs = map (recover_if_expired now) d.jobs }
      → Good start s
      → Good start (take_candidate sha256 now req o s).1
  unfolding take_candidate
  take_candidate-Good now types none d s before e same h = Good-both h.working_sound
  take_candidate-Good now types (some c) d s before e same h =
      let found = claim_candidate-recovered now types d.jobs c before.ok_db.apart e in
      let held =
        subst (λ (x : Db). (get_job c.id x.jobs ≡ some c) × (claimable types x.jobs c ≡ true))
          (sym same) found in
      let sound =
        opened-Sound s.working now (sha256 req.worker_id) (now + seconds req.lease_seconds) types c
          held h.working_sound in
      let good = Good-both sound in get-bind start _ c.id _ good (λ j k. good)

  claim_round-Good :
      (flush : Flush) (now : ℕ) (again : Run (Option ExecutionJob)) (d : Db) (s : Session Db)
      → ((s' : Session Db) → Good start s' → Good start (again s').1)
      → Sound start d
      → s.working ≡ record d { jobs = map (recover_if_expired now) d.jobs }
      → Good start s
      → FlushOk start flush
      → Good start (claim_round sha256 flush now req d.jobs again s).1
  unfolding claim_round
  claim_round-Good calm now again d s more before same h f =
      take_candidate-Good now (normalize_job_types req.job_types) _ d s before refl same h
  claim_round-Good (beaten w) now again d s more before same h (beaten_ok sound) =
      more _ (Good-both sound)
  claim_round-Good broken now again d s more before same h f = Good-both h.committed_sound

  module _ (clock : ℕ → ℕ) (flush : ℕ → Flush) (f : (k : ℕ) → FlushOk start (flush k)) where
    claim_rounds-Good :
        (n : ℕ) (s : Session Db)
        → Good start s
        → Good start (claim_rounds sha256 n clock flush req s).1
    unfolding claim_rounds recover_expired_leases
    claim_rounds-Good zero s h =
        claim_round-Good (flush 0) (clock 0) _ s.working _ (λ s' g. g) h.working_sound refl
          (recover_expired_leases-Good start (clock 0) s h) (f 0)
    claim_rounds-Good (suc n) s h =
        claim_round-Good (flush (suc n)) (clock (suc n)) _ s.working _ (claim_rounds-Good n)
          h.working_sound refl (recover_expired_leases-Good start (clock (suc n)) s h) (f (suc n))

    pub claim-Good : (s : Session Db) → Good start s → Good start (claim sha256 clock flush req s).1
    unfolding claim
    claim-Good s h = claim_rounds-Good 2 s h
