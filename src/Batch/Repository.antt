-- ===== src/Batch/Repository.antt =====
-- backend/app/repositories/batch_video.py, and the flushes of new and changed rows with the unique
-- indexes and CHECK constraints of backend/app/models/batch_video.py.
use social_pilot_ai.Base.{
  ℕ, ◌+◌, Bool, true, false, not, ◌&&◌, ◌||◌, Option, none, some, List, [], ◌∷◌, ◌++◌, Text, codes,
  text_eq, ltb, leb, ◌==◌, if◌then◌else◌, keep, any_of, sort_with,
}
use social_pilot_ai.Action.{integrity, query, modify, raise_if, ◌>>=◌, ◌>>◌}
use social_pilot_ai.Queue.Types.{ExecutionJob}
use social_pilot_ai.Batch.Types.{platform_rank, BatchVideoJob, BatchVideoVariant, Step}
use social_pilot_ai.Batch.Requests.{between}

abbrev pub batch_with_id : ℕ → List BatchVideoJob → Option BatchVideoJob
batch_with_id id [] = none
batch_with_id id (b ∷ bs) = if b.id == id then some b else batch_with_id id bs

abbrev pub get_by_idempotency : Text → List BatchVideoJob → Option BatchVideoJob
get_by_idempotency key [] = none
get_by_idempotency key (b ∷ bs) =
    if text_eq b.idempotency_key key then some b else get_by_idempotency key bs

abbrev pub get_by_digest : Text → List BatchVideoJob → Option BatchVideoJob
get_by_digest digest [] = none
get_by_digest digest (b ∷ bs) =
    if text_eq b.request_digest digest then some b else get_by_digest digest bs

abbrev pub variant_with_id : ℕ → List BatchVideoVariant → Option BatchVideoVariant
variant_with_id id [] = none
variant_with_id id (v ∷ vs) = if v.id == id then some v else variant_with_id id vs

-- `batch.variants`, in the order of their keys.
abbrev pub variants_of : ℕ → List BatchVideoVariant → List BatchVideoVariant
variants_of id vs = keep (λ v. v.batch_video_job_id == id) vs

-- `ORDER BY product_id, platform, variant_index`
abbrev pub listed_before : BatchVideoVariant → BatchVideoVariant → Bool
listed_before v w =
    if ltb v.product_id w.product_id
    then true
    else if ltb w.product_id v.product_id
    then false
    else if ltb (platform_rank v.platform) (platform_rank w.platform)
    then true
    else if ltb (platform_rank w.platform) (platform_rank v.platform)
    then false
    else leb v.variant_index w.variant_index

abbrev pub listed_variants : ℕ → List BatchVideoVariant → List BatchVideoVariant
listed_variants id vs = sort_with listed_before (variants_of id vs)

abbrev pub put_variant : BatchVideoVariant → List BatchVideoVariant → List BatchVideoVariant
put_variant w [] = []
put_variant w (v ∷ vs) = (if v.id == w.id then w else v) ∷ put_variant w vs

-- `uq_batch_video_jobs_digest`, `uq_batch_video_jobs_idempotency`
abbrev pub batch_clash : BatchVideoJob → BatchVideoJob → Bool
batch_clash b c =
    text_eq c.request_digest b.request_digest || text_eq c.idempotency_key b.idempotency_key

-- The CHECK constraints of a batch on the columns that are not constant.
abbrev pub batch_row_ok : BatchVideoJob → Bool
batch_row_ok b =
    ltb 0 b.variant_count
    && between 1 b.variant_count b.max_concurrency
    && leb b.priority 100
    && b.current_stage_cost == 0

unfoldable pub flush_batch : BatchVideoJob → Step (Unit {0})
flush_batch b = do
  clash ← query (λ d. any_of (batch_clash b) d.batches)
  raise_if (clash || not (batch_row_ok b)) integrity
  modify (λ d. record d { batches = d.batches ++ b ∷ []; next_batch_id = d.next_batch_id + 1 })

-- `uq_batch_video_variants_idempotency`, `uq_batch_video_variants_identity`
abbrev pub same_identity : BatchVideoVariant → BatchVideoVariant → Bool
same_identity v w =
    v.batch_video_job_id == w.batch_video_job_id
    && v.product_id == w.product_id
    && platform_rank v.platform == platform_rank w.platform
    && v.variant_index == w.variant_index

abbrev pub variant_clash : BatchVideoVariant → BatchVideoVariant → Bool
variant_clash v w = text_eq w.idempotency_key v.idempotency_key || same_identity w v

abbrev pub variant_row_ok : BatchVideoVariant → Bool
variant_row_ok v =
    leb 1 v.variant_index && v.duration_seconds == 15 && text_eq v.aspect_ratio (codes "9:16")

unfoldable pub flush_variant : BatchVideoVariant → Step (Unit {0})
flush_variant v = do
  clash ← query (λ d. any_of (variant_clash v) d.variants)
  raise_if (clash || not (variant_row_ok v)) integrity
  modify
      (λ d. record d { variants = d.variants ++ v ∷ []; next_variant_id = d.next_variant_id + 1 })

-- `uq_execution_jobs_idempotency`
unfoldable pub flush_job : ExecutionJob → Step (Unit {0})
flush_job j = do
  clash ← query (λ d. any_of (λ k. text_eq k.idempotency_key j.idempotency_key) d.queue.jobs)
  raise_if clash integrity
  modify (λ d. record d {
    queue = record { jobs = d.queue.jobs ++ j ∷ []; next_id = d.queue.next_id + 1 };
  })
