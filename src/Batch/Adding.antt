-- ===== src/Batch/Adding.antt =====
-- What the loop of `create` leaves: queued jobs in the slots of their batch, each with its variant.
use social_pilot_ai.Base.{
  ℕ, suc, ◌+◌, ◌%◌, ◌<◌, ◌≡◌, ◌≢◌, refl, sym, subst, ap, false, some, List, [], ◌∷◌, ◌++◌, Text,
  text_eq, text_eq_iff, ◌==◌, any_of, any_of-eq-false, All, All-imp, All-both, All-append,
  Pairwise-snoc, Bool-cases, inl, inr, arith,
}
use social_pilot_ai.Action.{Session, Result, ok, >>=-ok}
use social_pilot_ai.Queue.Types.{ExecutionJob, Db}
use social_pilot_ai.Queue.Repository.{get_job}
use social_pilot_ai.Queue.Lifecycle.{Evolves-trans}
use social_pilot_ai.Queue.Claiming.{Evolves-append}
use social_pilot_ai.Queue.Creation.{get_new}
use native.Mathlib.Nat.{mod-lt}
use social_pilot_ai.Queue.Invariant.{JobOk, Apart}
use social_pilot_ai.Queue.Sound.{Sound}
use social_pilot_ai.Batch.Types.{BatchVideoJob, BatchVideoVariant, BatchDb}
use social_pilot_ai.Batch.Requests.{BatchVideoCreateRequest}
use social_pilot_ai.Batch.Repository.{put_variant}
use social_pilot_ai.Batch.Preflight.{Plan}
use social_pilot_ai.Batch.Service.{new_variant, prepare_job, slot_key, add_variant, add_variants}
use social_pilot_ai.Batch.Slots.{InSlot}

module _ (now : ℕ) (req : BatchVideoCreateRequest) (batch : BatchVideoJob) where
  abbrev pub grown : ℕ → Plan → BatchDb → BatchDb
  grown ordinal plan d =
      let v = new_variant now req batch d.next_variant_id plan in
      let j = prepare_job now req batch d.queue.next_id ordinal v in
      record d {
        queue = record { jobs = d.queue.jobs ++ j ∷ []; next_id = d.queue.next_id + 1 };
        variants =
            put_variant (record v { execution_job_id = some d.queue.next_id })
              (d.variants ++ v ∷ []);
        next_variant_id = d.next_variant_id + 1;
      }

  abbrev pub NewKey : (ordinal : ℕ) (plan : Plan) (d : BatchDb) → Type 0
  NewKey ordinal plan d =
      any_of
        (λ k.
          text_eq k.idempotency_key
            (prepare_job now req batch d.queue.next_id ordinal
              (new_variant now req batch d.next_variant_id plan)).idempotency_key)
        d.queue.jobs
      ≡ false

  add_variant-grown :
      (ordinal : ℕ) (plan : Plan) (s t : Session BatchDb)
      → add_variant now req batch ordinal plan s ≡ (ok tt, t)
      → (t ≡ record s { working = grown ordinal plan s.working }) × NewKey ordinal plan s.working
  unfolding add_variant
  add_variant-grown ordinal plan s t h = (ground (arith, h), ground (arith, h))

  -- The job of a variant of the batch is there, in one of the slots.
  abbrev pub Linked : List ExecutionJob → BatchVideoVariant → Type 0
  Linked js v =
      v.batch_video_job_id ≡ batch.id
      → (i : ℕ) × (j : ExecutionJob) × (v.execution_job_id ≡ some i)
        × (get_job i js ≡ some j)
        × InSlot (slot_key now req batch) batch.max_concurrency j

  get_job-append :
      (i : ℕ) (js : List ExecutionJob) (k j : ExecutionJob)
      → get_job i js ≡ some j
      → get_job i (js ++ k ∷ []) ≡ some j
  get_job-append i [] k j e = absurd (cc)
  get_job-append i (x ∷ js) k j e = ground (arith, get_job-append i js k j)

  Linked-append :
      (js : List ExecutionJob) (k : ExecutionJob) (v : BatchVideoVariant)
      → Linked js v
      → Linked (js ++ k ∷ []) v
  Linked-append js k v h own =
      let (i, j, key, row, slot) = h own in (i, j, key, get_job-append i js k j row, slot)

  -- The new variant takes its job; the variants before it stay, or take the same job.
  All-put_variant :
      (P : BatchVideoVariant → Type 0) (w v : BatchVideoVariant) (vs : List BatchVideoVariant)
      → v.id ≡ w.id
      → P w
      → All P vs
      → All P (put_variant w (vs ++ v ∷ []))
  All-put_variant P w v [] e p a = (ground (arith, e, p), tt)
  All-put_variant P w v (x ∷ vs) e p a = elim (Bool-cases (x.id == w.id)) [
    | inl b ↦ rw b (p, All-put_variant P w v vs e p a.1)
    | inr b ↦ rw b (a.0, All-put_variant P w v vs e p a.1)
  ]

  pub record Held (start : Db) (d : BatchDb) : Type 0 where
    pub sound : Sound start d.queue
    pub linked : All (Linked d.queue.jobs) d.variants

  keys_apart :
      (key : Text) (js : List ExecutionJob)
      → any_of (λ k. text_eq k.idempotency_key key) js ≡ false
      → All (λ k. k.idempotency_key ≢ key) js
  keys_apart key js e =
      All-imp _ _ js
        (λ k f. λ same. absurd (ground (arith, text_eq_iff k.idempotency_key key, f, same)))
        (any_of-eq-false _ js e)

  prepare_job-Apart :
      (id ordinal : ℕ) (v : BatchVideoVariant) (j : ExecutionJob)
      → (j.id < id) × (j.idempotency_key ≢ (prepare_job now req batch id ordinal v).idempotency_key)
      → Apart j (prepare_job now req batch id ordinal v)
  unfolding prepare_job
  prepare_job-Apart id ordinal v j h = record {
    ids = h.0;
    keys = h.1;
    exclusive = λ p q. absurd (cc);
  }

  grown-Held :
      (start : Db) (ordinal : ℕ) (plan : Plan) (d : BatchDb)
      → 0 < batch.max_concurrency
      → NewKey ordinal plan d
      → Held start d
      → Held start (grown ordinal plan d)
  grown-Held start ordinal plan d room fresh_key h =
      let v = new_variant now req batch d.next_variant_id plan in
      let k = prepare_job now req batch d.queue.next_id ordinal v in
      record {
        sound = record {
          ok_db = record {
            rows =
                All-append JobOk d.queue.jobs (k ∷ []) h.sound.ok_db.rows
                  (unfold prepare_job in ground arith, tt);
            apart =
                Pairwise-snoc Apart d.queue.jobs k
                  (All-imp _ _ d.queue.jobs (prepare_job-Apart d.queue.next_id ordinal v) (
                    All-both _ _ d.queue.jobs h.sound.ok_db.fresh
                      (keys_apart _ d.queue.jobs fresh_key)))
                  h.sound.ok_db.apart;
            fresh =
                All-append _ d.queue.jobs (k ∷ [])
                  (All-imp _ _ d.queue.jobs (λ j (l : j.id < d.queue.next_id). omega arith)
                    h.sound.ok_db.fresh)
                  (unfold prepare_job in (omega arith, tt));
          };
          evolves =
              Evolves-trans start.jobs d.queue.jobs _ h.sound.evolves
                (Evolves-append d.queue.jobs k (unfold prepare_job in refl));
        };
        linked =
            All-put_variant (Linked (d.queue.jobs ++ k ∷ []))
              (record v { execution_job_id = some d.queue.next_id }) v d.variants refl
              (λ own. (
                d.queue.next_id,
                k,
                refl,
                unfold prepare_job in get_new k d.queue.jobs h.sound.ok_db.fresh,
                (ordinal % batch.max_concurrency, mod-lt ordinal room, unfold prepare_job in refl),
              ))
              (All-imp _ _ d.variants (Linked-append d.queue.jobs k) h.linked);
      }

  pub add_variants-Held :
      (start : Db) (ordinal : ℕ) (plans : List Plan) (s t : Session BatchDb)
      → 0 < batch.max_concurrency
      → add_variants now req batch ordinal plans s ≡ (ok tt, t)
      → Held start s.working
      → Held start t.working
  unfolding add_variants
  add_variants-Held start ordinal [] s t room e h =
      subst (λ (x : Session BatchDb). Held start x.working)
        (ap (λ (r : Result (Unit {0}) × Session BatchDb). r.1) e) h
  add_variants-Held start ordinal (plan ∷ plans) s t room e h =
      let (u, s1, first, rest) =
        >>=-ok (add_variant now req batch ordinal plan)
          (λ u. add_variants now req batch (suc ordinal) plans) tt s t e in
      let (left, fresh_key) = add_variant-grown ordinal plan s s1 first in
      add_variants-Held start (suc ordinal) plans s1 t room rest (
        subst (λ (x : Session BatchDb). Held start x.working) (sym left)
          (grown-Held start ordinal plan s.working room fresh_key h))
