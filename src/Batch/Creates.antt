-- ===== src/Batch/Creates.antt =====
-- `create` of backend/app/services/batch_video_job_service.py.
use social_pilot_ai.Base.{
  ℕ, Bool, true, false, not, ◌||◌, Option, none, some, Text, text_eq, leb, is_some,
}
use social_pilot_ai.Action.{
  app, integrity, pure, raise, query, commit, raise_if, ◌>>=◌, ◌>>◌, ok, try_or,
}
use social_pilot_ai.Batch.Types.{BatchVideoJob, BatchDb, Step}
use social_pilot_ai.Batch.Requests.{BatchVideoCreateRequest}
use social_pilot_ai.Batch.Repository.{get_by_idempotency, get_by_digest, flush_batch}
use social_pilot_ai.Batch.Preflight.{Encoders, Preflight, run}
use social_pilot_ai.Batch.Service.{CreateRead, create_read, new_batch, add_variants}

-- The rollback of a failed transaction: the session then sees what other sessions have committed,
-- where that is what the transaction failed on.
abbrev pub start_over : Option BatchDb → Step (Unit {0})
start_over none s = (ok tt, record { committed = s.committed; working = s.committed })
start_over (some d) s = (ok tt, record { committed = d; working = d })

abbrev pub or_match : Text → Option BatchVideoJob → Step (Option BatchVideoJob)
or_match digest none = query (λ d. get_by_digest digest d.batches)
or_match digest (some b) = pure (some b)

module _ (others : Option BatchDb) (now : ℕ) (req : BatchVideoCreateRequest) where
  -- The body of the `try`, which answers the key of the new batch; `others` are rows that another
  -- session has committed in the meantime, which a flush then meets.
  unfoldable pub insert_all : Preflight → Step (ℕ × Bool)
  unfolding new_batch flush_batch add_variants
  insert_all checked = do
    id ← query (λ d. d.next_batch_id)
    let batch = new_batch id req checked
    raise_if (is_some others) integrity
    flush_batch batch
    add_variants now req batch 0 checked.variants
    commit
    pure (id, false)

  abbrev pub reuse : Option BatchVideoJob → Step (ℕ × Bool)
  reuse none = raise integrity
  reuse (some b) = do
    raise_if (not (text_eq b.request_digest req.request_digest))
        (app "Idempotency key was used for different input" 409)
    pure (b.id, true)

  -- The handler of a conflict.
  unfoldable pub concurrent : Step (ℕ × Bool)
  concurrent = do
    start_over others
    by_key ← query (λ d. get_by_idempotency req.idempotency_key d.batches)
    found ← or_match req.request_digest by_key
    reuse found

  unfoldable pub create_checked : Encoders → Step (ℕ × Bool)
  unfolding run insert_all concurrent
  create_checked e = do
    raise_if (leb req.preflight_expires_at now) (app "Batch video Preflight has expired" 409)
    checked ← run e req.request req.preflight_expires_at
    raise_if
        (not (text_eq checked.request_digest req.request_digest)
          || not (text_eq checked.preflight_digest req.preflight_digest))
        (app "Batch video frozen Preflight mismatch" 409)
    try_or (insert_all checked) concurrent

  abbrev pub by_digest : Encoders → Option BatchVideoJob → Step (ℕ × Bool)
  by_digest e (some b) = pure (b.id, true)
  by_digest e none = create_checked e

  abbrev pub by_key : Encoders → Option BatchVideoJob → Step (ℕ × Bool)
  by_key e (some b) = reuse (some b)
  by_key e none = do
    matched ← query (λ d. get_by_digest req.request_digest d.batches)
    by_digest e matched

  unfoldable pub create : Encoders → Step CreateRead
  unfolding create_checked create_read
  create e = do
    existing ← query (λ d. get_by_idempotency req.idempotency_key d.batches)
    (id, reused) ← by_key e existing
    create_read reused id
