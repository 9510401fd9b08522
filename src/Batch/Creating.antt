-- ===== src/Batch/Creating.antt =====
-- What `create` of a batch leaves.
use social_pilot_ai.Base.{
  ℕ, ◌<◌, ◌≡◌, refl, sym, subst, ap, ◌∙◌, Bool, true, false, not, ◌||◌, Option, none, some, List,
  [], ◌∷◌, ◌++◌, ◌+◌, text_eq, is_some, leb, All, All-imp, inl, inr, Option-cases, arith,
}
use social_pilot_ai.Action.{
  Session, Result, ok, app, integrity, pure, query, commit, raise_if, request, ◌>>=◌, ◌>>◌, >>=-ok,
  try_or, try_or-ok, request-ok,
}
use social_pilot_ai.Queue.Types.{Db}
use social_pilot_ai.Queue.Invariant.{DbOk}
use social_pilot_ai.Queue.Sound.{Sound, Sound-refl}
use social_pilot_ai.Batch.Types.{BatchVideoJob, BatchDb, Step}
use social_pilot_ai.Batch.Requests.{BatchVideoCreateRequest}
use social_pilot_ai.Batch.Repository.{
  batch_with_id, flush_batch, get_by_idempotency, get_by_digest, batch_row_ok,
}
use social_pilot_ai.Batch.Preflight.{Encoders, Preflight, run}
use social_pilot_ai.Batch.Preflights.{run-same}
use social_pilot_ai.Batch.Service.{
  CreateRead, create_read, get_batch, list_variants, required_batch, new_batch, add_variants,
}
use social_pilot_ai.Batch.Creates.{
  insert_all, concurrent, create_checked, by_digest, by_key, create, reuse, or_match, start_over,
}
use social_pilot_ai.Batch.Adding.{Held, add_variants-Held}

-- The variants of a batch that is still to come.
abbrev pub Unborn : BatchDb → Type 0
Unborn d = All (λ v. v.batch_video_job_id < d.next_batch_id) d.variants

module _ (others : Option BatchDb) (now : ℕ) (req : BatchVideoCreateRequest) where
  flushed :
      (b : BatchVideoJob) (s t : Session BatchDb)
      → flush_batch b s ≡ (ok tt, t)
      → (batch_row_ok b ≡ true)
        × (t ≡ record s {
          working = record s.working {
            batches = s.working.batches ++ b ∷ [];
            next_batch_id = s.working.next_batch_id + 1;
          };
        })
  unfolding flush_batch
  flushed b s t h = (ground (arith, h), ground (arith, h))

  born_apart :
      (b : BatchVideoJob) (start : Db) (s t : Session BatchDb)
      → flush_batch b s ≡ (ok tt, t)
      → b.id ≡ s.working.next_batch_id
      → Unborn s.working
      → Sound start s.working.queue
      → (0 < b.max_concurrency) × Held now req b start t.working
  born_apart b start s t h key unborn sound =
      let (row, left) = flushed b s t h in
      (
        ground (arith, row),
        subst (λ (x : Session BatchDb). Held now req b start x.working) (sym left)
            (record {
              sound = sound;
              linked =
                  All-imp _ _ s.working.variants
                    (λ v (l : v.batch_video_job_id < s.working.next_batch_id) own.
                      absurd (omega (arith, l, own, key)))
                    unborn;
            }),
      )

  -- What a new batch leaves.
  record Fresh (checked : Preflight) (s t : Session BatchDb) (id : ℕ) (reused : Bool) : Type 0 where
    key : id ≡ s.working.next_batch_id
    new : reused ≡ false
    both : t.working ≡ t.committed
    held : Held now req (new_batch id req checked) s.working.queue t.committed

  insert_all-Fresh :
      (checked : Preflight) (s t : Session BatchDb) (id : ℕ) (reused : Bool)
      → insert_all others now req checked s ≡ (ok (id, reused), t)
      → DbOk s.working.queue
      → Unborn s.working
      → Fresh checked s t id reused
  unfolding insert_all
  insert_all-Fresh checked s t id reused h good unborn =
      let n = s.working.next_batch_id in
      let b = new_batch n req checked in
      let last : Step (ℕ × Bool) = commit >> pure (n, false) in
      let added : Step (ℕ × Bool) = add_variants now req b 0 checked.variants >> last in
      let (u, s0, e0, h0) =
        >>=-ok (raise_if (is_some others) integrity) (λ u. flush_batch b >> added) (id, reused) s t
          h in
      let (u1, s1, e1, h1) = >>=-ok (flush_batch b) (λ u. added) (id, reused) s0 t h0 in
      let (u2, s2, e2, h2) =
        >>=-ok (add_variants now req b 0 checked.variants) (λ u. last) (id, reused) s1 t h1 in
      let same : s ≡ s0 = ap (λ (r : Result (Unit {0}) × Session BatchDb). r.1) e0 in
      let flush_s : flush_batch b s ≡ (ok tt, s1) =
        subst (λ x. flush_batch b x ≡ (ok tt, s1)) (sym same) e1 in
      let (room, start) =
        born_apart b s.working.queue s s1 flush_s (unfold new_batch in refl) unborn
          (Sound-refl s.working.queue good) in
      let all =
        add_variants-Held now req b s.working.queue 0 checked.variants s1 s2 room e2 start in
      let key : n ≡ id = ground (arith, h2) in
      let left : record { committed = s2.working; working = s2.working } ≡ t =
        ap (λ (r : Result (ℕ × Bool) × Session BatchDb). r.1) h2 in
      record {
        key = sym key;
        new = ground (arith, h2);
        both = rw (← left) refl;
        held =
            subst (λ m. Held now req (new_batch m req checked) s.working.queue t.committed) key
              (subst (λ (x : Session BatchDb). Held now req b s.working.queue x.committed) left
                all);
      }

  reuse-reused :
      (o : Option BatchVideoJob) (s t : Session BatchDb) (id : ℕ) (reused : Bool)
      → reuse others now req o s ≡ (ok (id, reused), t)
      → reused ≡ true
  reuse-reused none s t id reused h = absurd (cc)
  reuse-reused (some b) s t id reused h = ground (arith, h)

  -- The handler of a conflict answers a batch that was there.
  concurrent-reused :
      (s t : Session BatchDb) (id : ℕ) (reused : Bool)
      → concurrent others now req s ≡ (ok (id, reused), t)
      → reused ≡ true
  unfolding concurrent
  concurrent-reused s t id reused h =
      let find : Option BatchVideoJob → Step (ℕ × Bool) =
        λ o. or_match req.request_digest o >>= reuse others now req in
      let look : Step (ℕ × Bool) =
        query (λ d. get_by_idempotency req.idempotency_key d.batches) >>= find in
      let (u, s0, e0, h0) = >>=-ok (start_over others) (λ u. look) (id, reused) s t h in
      let (o, s1, e1, h1) =
        >>=-ok (query (λ d. get_by_idempotency req.idempotency_key d.batches)) find (id, reused) s0
          t h0 in
      let (o2, s2, e2, h2) =
        >>=-ok (or_match req.request_digest o) (reuse others now req) (id, reused) s1 t h1 in
      reuse-reused o2 s2 t id reused h2

  abbrev mismatch : Preflight → Bool
  mismatch checked =
      not (text_eq checked.request_digest req.request_digest)
      || not (text_eq checked.preflight_digest req.preflight_digest)

  create_checked-Fresh :
      (e : Encoders) (s t : Session BatchDb) (id : ℕ) (reused : Bool)
      → create_checked others now req e s ≡ (ok (id, reused), t)
      → reused ≡ false
      → DbOk s.working.queue
      → Unborn s.working
      → (checked : Preflight) × Fresh checked s t id reused
  unfolding create_checked
  create_checked-Fresh e s t id reused h fresh good unborn =
      let attempt : Preflight → Step (ℕ × Bool) =
        λ p. try_or (insert_all others now req p) (concurrent others now req) in
      let compare_digests : Preflight → Step (ℕ × Bool) =
        λ p. raise_if (mismatch p) (app "Batch video frozen Preflight mismatch" 409) >> attempt p in
      let (u, s0, e0, h0) =
        >>=-ok
          (raise_if (leb req.preflight_expires_at now)
            (app "Batch video Preflight has expired" 409))
          (λ u. run e req.request req.preflight_expires_at >>= compare_digests) (id, reused) s t
          h in
      let (p, s1, e1, h1) =
        >>=-ok (run e req.request req.preflight_expires_at) compare_digests (id, reused) s0 t h0 in
      let (u2, s2, e2, h2) =
        >>=-ok (raise_if (mismatch p) (app "Batch video frozen Preflight mismatch" 409))
          (λ u. attempt p) (id, reused) s1 t h1 in
      let same0 : s ≡ s0 = ap (λ (r : Result (Unit {0}) × Session BatchDb). r.1) e0 in
      let same1 : s1 ≡ s0 = run-same e req.request req.preflight_expires_at s0 s1 p e1 in
      let same2 : s1 ≡ s2 = ap (λ (r : Result (Unit {0}) × Session BatchDb). r.1) e2 in
      let same : s2 ≡ s = sym same2 ∙ same1 ∙ sym same0 in
      let tried : attempt p s ≡ (ok (id, reused), t) =
        subst (λ x. attempt p x ≡ (ok (id, reused), t)) same h2 in
      elim (try_or-ok (insert_all others now req p) (concurrent others now req) (id, reused) s t
        tried) [
          | inl done ↦ (p, insert_all-Fresh p s t id reused done good unborn)
          | inr (s3, failed, again) ↦
              absurd (ground (arith, fresh, concurrent-reused s3 t id reused again))
        ]

  by_key-Fresh :
      (e : Encoders) (o : Option BatchVideoJob) (s t : Session BatchDb) (id : ℕ) (reused : Bool)
      → by_key others now req e o s ≡ (ok (id, reused), t)
      → reused ≡ false
      → DbOk s.working.queue
      → Unborn s.working
      → (checked : Preflight) × Fresh checked s t id reused
  by_key-Fresh e (some b) s t id reused h fresh good unborn =
      absurd (ground (arith, fresh, reuse-reused (some b) s t id reused h))
  by_key-Fresh e none s t id reused h fresh good unborn =
      elim (Option-cases (get_by_digest req.request_digest s.working.batches)) [
        | inl missing ↦
            create_checked-Fresh e s t id reused
              (subst (λ o. by_digest others now req e o s ≡ (ok (id, reused), t)) missing h) fresh
              good unborn
        | inr (b, found) ↦
            let answered : by_digest others now req e (some b) s ≡ (ok (id, reused), t) =
              subst (λ o. by_digest others now req e o s ≡ (ok (id, reused), t)) found h in
            absurd (ground (arith, fresh, answered))
      ]

batch_with_id-id :
    (id : ℕ) (bs : List BatchVideoJob) (b : BatchVideoJob)
    → batch_with_id id bs ≡ some b
    → b.id ≡ id
batch_with_id-id id [] b e = cc
batch_with_id-id id (x ∷ bs) b e = ground (arith, batch_with_id-id id bs b)

-- The answer is about the batch with this key, and nothing is changed by it.
create_read_lem :
    (reused : Bool) (id : ℕ) (s t : Session BatchDb) (read : CreateRead)
    → create_read reused id s ≡ (ok read, t)
    → (s ≡ t) × (read.batch.id ≡ id) × (read.reused ≡ reused)
unfolding create_read get_batch list_variants required_batch
create_read_lem reused id s t read h = elim (Option-cases (batch_with_id id s.working.batches)) [
  | inl missing ↦ absurd (ground (arith, missing, h))
  | inr (b, found) ↦
      let own = batch_with_id-id id s.working.batches b found in
      (ground (arith, found, h), ground (arith, found, h, own), ground (arith, found, h))
]

-- What a new batch has committed: its jobs are queued, in its slots, beside the jobs before it.
pub record CreatedBatch (now : ℕ) (req : BatchVideoCreateRequest) (start : Db) (id : ℕ)
    (d : BatchDb) : Type 0 where
  pub batch : BatchVideoJob
  pub same_id : batch.id ≡ id
  pub slots : batch.max_concurrency ≡ req.max_concurrency
  pub held : Held now req batch start d

-- From a database whose queue meets the constraints and whose variants belong to earlier batches:
-- what a `create` that answers a new batch has committed keeps the constraints of the queue, has
-- changed the jobs before it only along the status diagram, and every variant of the batch names a
-- job that is there, under the concurrency key of a slot below `max_concurrency`.
pub create-CreatedBatch :
    (e : Encoders) (others : Option BatchDb) (now : ℕ) (req : BatchVideoCreateRequest)
    (d d' : BatchDb) (read : CreateRead)
    → request (create others now req e) d ≡ (ok read, d')
    → read.reused ≡ false
    → DbOk d.queue
    → Unborn d
    → CreatedBatch now req d.queue read.batch.id d'
unfolding create
create-CreatedBatch e others now req d d' read h fresh good unborn =
    let s : Session BatchDb = record { committed = d; working = d } in
    let existing = get_by_idempotency req.idempotency_key d.batches in
    let answer : ℕ × Bool → Step CreateRead = λ x. create_read x.1 x.0 in
    let (t, h0, committed) = request-ok (create others now req e) read d d' h in
    let ((id, reused), s1, e1, h1) = >>=-ok (by_key others now req e existing) answer read s t h0 in
    let (same, own, told) = create_read_lem reused id s1 t read h1 in
    let (checked, f) =
      by_key-Fresh others now req e existing s s1 id reused e1 (sym told ∙ fresh) good unborn in
    let left : s1.committed ≡ d' = ap (λ (x : Session BatchDb). x.committed) same ∙ committed in
    record {
      batch = new_batch id req checked;
      same_id = unfold new_batch in sym own;
      slots = unfold new_batch in refl;
      held = subst (Held now req (new_batch id req checked) d.queue) left f.held;
    }
