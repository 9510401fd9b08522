-- ===== src/Batch/Running.antt =====
-- How many jobs of a batch run at once, whatever the clients of the queue do.
use social_pilot_ai.Base.{
  ℕ, ◌≤◌, ◌≡◌, subst, ap, ◌∙◌, Bool, true, false, ◌&&◌, Option, none, some, List, [], ◌∷◌, Text,
  length, ◌==◌, keep, any_of, All, All-imp, All-both, Pairwise, Bool-cases, inl, inr, arith,
}
use social_pilot_ai.Action.{ok, request}
use social_pilot_ai.Queue.Types.{ExecutionJob, Db, is_running}
use social_pilot_ai.Queue.Repository.{get_job}
use social_pilot_ai.Queue.Invariant.{Apart, DbOk}
use social_pilot_ai.Queue.System.{Reach, Reach-Sound}
use social_pilot_ai.Queue.Guarantees.{job-Advances}
use social_pilot_ai.Batch.Types.{BatchVideoJob, BatchVideoVariant, BatchDb}
use social_pilot_ai.Batch.Requests.{BatchVideoCreateRequest}
use social_pilot_ai.Batch.Repository.{variants_of}
use social_pilot_ai.Batch.Preflight.{Encoders}
use social_pilot_ai.Batch.Service.{CreateRead, slot_key}
use social_pilot_ai.Batch.Creates.{create}
use social_pilot_ai.Batch.Slots.{InSlot, slots_bound}
use social_pilot_ai.Batch.Adding.{Linked, Held}
use social_pilot_ai.Batch.Creating.{Unborn, create-CreatedBatch}

abbrev pub key_is : Option ℕ → ℕ → Bool
key_is none n = false
key_is (some i) n = i == n

-- The job of one of these variants.
abbrev pub belongs : List BatchVideoVariant → ExecutionJob → Bool
belongs vs j = any_of (λ v. key_is v.execution_job_id j.id) vs

abbrev pub running_of : List BatchVideoVariant → List ExecutionJob → List ExecutionJob
running_of vs js = keep (λ j. is_running j.status && belongs vs j) js

module _ {ℓ κ} {A : Type ℓ} where
  All-keep-both :
      (P : A → Type κ) (t : A → Bool) (xs : List A)
      → All P xs
      → All (λ x. P x × (t x ≡ true)) (keep t xs)
  All-keep-both P t [] h = tt
  All-keep-both P t (x ∷ xs) h = elim (Bool-cases (t x)) [
    | inl e ↦ rw e ((h.0, e), All-keep-both P t xs h.1)
    | inr e ↦ rw e (All-keep-both P t xs h.1)
  ]

  any_of-found :
      (P : A → Type κ) (t : A → Bool) (xs : List A)
      → All P xs
      → any_of t xs ≡ true
      → (x : A) × P x × (t x ≡ true)
  any_of-found P t [] h e = absurd (cc)
  any_of-found P t (x ∷ xs) h e = elim (Bool-cases (t x)) [
    | inl f ↦ (x, h.0, f)
    | inr f ↦ any_of-found P t xs h.1 (ground (arith, e, f))
  ]

-- In a table in the order of its keys, a row is found under its own.
found_under_own :
    (js : List ExecutionJob) → Pairwise Apart js → All (λ j. get_job j.id js ≡ some j) js
found_under_own [] p = tt
found_under_own (x ∷ js) p = (
  ground arith,
  All-imp _ _ js
      (λ j (r : (get_job j.id js ≡ some j) × Apart x j).
        let less = r.1.ids in let row = r.0 in ground (arith, row, less))
      (All-both _ _ js (found_under_own js p.1) p.0),
)

module _ (sha256 : Text → Text) (now : ℕ) (req : BatchVideoCreateRequest) (batch : BatchVideoJob)
    (start : Db) (d : BatchDb) (q : Db) (held : Held now req batch start d)
    (r : Reach sha256 d.queue q) where
  slot_kept :
      (j : ExecutionJob)
      → get_job j.id q.jobs ≡ some j
      → belongs (variants_of batch.id d.variants) j ≡ true
      → InSlot (slot_key now req batch) batch.max_concurrency j
  slot_kept j row mine =
      let (v, (linked, of_batch), is_its) =
        any_of-found _ (λ v. key_is v.execution_job_id j.id) (variants_of batch.id d.variants)
          (All-keep-both (Linked now req batch d.queue.jobs) (λ v. v.batch_video_job_id == batch.id)
            d.variants held.linked)
          mine in
      let (i, j0, key, row0, (n, lt, slot)) = linked (ground (arith, of_batch)) in
      let (k, row1, a) = job-Advances sha256 d.queue q i j0 held.sound.ok_db r row0 in
      let same_id : i ≡ j.id = ground (arith, key, is_its) in
      let same_row : k ≡ j = ground (arith, row1, row, same_id) in
      (
        n,
        lt,
        subst (λ (x : ExecutionJob). x.concurrency_key ≡ some (slot_key now req batch n)) same_row
            (ap (λ spec. spec.concurrency_key) a.same_spec ∙ slot),
      )

-- From a database whose queue meets the constraints and whose variants belong to earlier batches:
-- after a `create` that answers a new batch, whatever calls of the queue any clients make, at most
-- `max_concurrency` jobs of the variants of that batch are running.
pub batch_bounded :
    (sha256 : Text → Text) (e : Encoders) (others : Option BatchDb) (now : ℕ)
    (req : BatchVideoCreateRequest) (d d' : BatchDb) (read : CreateRead) (q : Db)
    → DbOk d.queue
    → Unborn d
    → request (create others now req e) d ≡ (ok read, d')
    → read.reused ≡ false
    → Reach sha256 d'.queue q
    → length (running_of (variants_of read.batch.id d'.variants) q.jobs) ≤ req.max_concurrency
batch_bounded sha256 e others now req d d' read q good unborn h fresh r =
    let c = create-CreatedBatch e others now req d d' read h fresh good unborn in
    let vs = variants_of c.batch.id d'.variants in
    let apart = (Reach-Sound sha256 d'.queue q c.held.sound.ok_db r).ok_db.apart in
    let bound : length (running_of vs q.jobs) ≤ c.batch.max_concurrency =
      slots_bound (slot_key now req c.batch) c.batch.max_concurrency (belongs vs) q.jobs apart (
        All-imp _ _ (running_of vs q.jobs)
          (λ j
              (x : (get_job j.id q.jobs ≡ some j) × ((is_running j.status && belongs vs j) ≡ true)).
            slot_kept sha256 now req c.batch d.queue d' q c.held r j x.0 (ground (arith, x.1)))
          (All-keep-both _ _ q.jobs (found_under_own q.jobs apart))) in
    subst (λ n. length (running_of (variants_of n d'.variants) q.jobs) ≤ req.max_concurrency)
      c.same_id (subst (λ n. length (running_of vs q.jobs) ≤ n) c.slots bound)
