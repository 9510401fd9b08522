-- ===== src/Batch/Service.antt =====
-- `BatchVideoJobService` of backend/app/services/batch_video_job_service.py: `create` and the
-- reads. `now` is the clock's answer to `datetime.now(UTC)` and `utc_now()`.
use social_pilot_ai.Base.{
  ℕ, suc, ◌%◌, Bool, true, false, none, some, List, [], ◌∷◌, ◌++◌, map, Text, codes, sort_by,
  decimal,
}
use social_pilot_ai.Json.{number, string}
use social_pilot_ai.Action.{app, pure, query, modify, or_raise, ◌>>=◌, ◌>>◌}
use social_pilot_ai.Queue.Types.{JobStatus, ExecutionJob}
use social_pilot_ai.Batch.Types.{
  VariantStatus, BatchStatus, BatchVideoJob, BatchVideoVariant, Step, platform_rank,
}
use social_pilot_ai.Batch.Requests.{BatchVideoCreateRequest}
use social_pilot_ai.Batch.Status.{variant_status, aggregate_batch_status}
use social_pilot_ai.Batch.Repository.{
  batch_with_id, variant_with_id, variants_of, listed_variants, put_variant, flush_variant,
  flush_job,
}
use social_pilot_ai.Batch.Preflight.{
  Plan, Preflight, entries, ids_json, platforms_json, or_null, contract_version,
}

unfoldable pub required_batch : ℕ → Step BatchVideoJob
required_batch id = do
  found ← query (λ d. batch_with_id id d.batches)
  or_raise found (app "Batch video resource not found" 404)

-- `get_batch`: the row, with the status that its variants give it.
unfoldable pub get_batch : ℕ → Step BatchVideoJob
unfolding required_batch aggregate_batch_status
get_batch id = do
  b ← required_batch id
  status ← query (λ d. aggregate_batch_status d.queue.jobs (variants_of id d.variants))
  pure (record b { status = status })

-- `_variant_read`
abbrev pub variant_read : List ExecutionJob → BatchVideoVariant → BatchVideoVariant
variant_read js v = record v { status = variant_status js v }

unfoldable pub list_variants : ℕ → Step (List BatchVideoVariant)
unfolding required_batch
list_variants id = do
  required_batch id
  query (λ d. map (variant_read d.queue.jobs) (listed_variants id d.variants))

unfoldable pub get_variant : ℕ → Step BatchVideoVariant
get_variant id = do
  found ← query (λ d. variant_with_id id d.variants)
  v ← or_raise found (app "Batch video resource not found" 404)
  query (λ d. variant_read d.queue.jobs v)

-- `BatchVideoCreateRead`
pub record CreateRead : Type 0 where
  pub batch : BatchVideoJob
  pub variants : List BatchVideoVariant
  pub reused : Bool

unfoldable pub create_read : Bool → ℕ → Step CreateRead
unfolding get_batch list_variants
create_read reused id = do
  b ← get_batch id
  vs ← list_variants id
  pure (record { batch = b; variants = vs; reused = reused })

unfoldable pub new_batch : ℕ → BatchVideoCreateRequest → Preflight → BatchVideoJob
new_batch id req checked = record {
  id = id;
  request_digest = checked.request_digest;
  idempotency_key = req.idempotency_key;
  status = BatchStatus.waiting;
  priority = req.priority;
  variant_count = checked.variant_count;
  max_concurrency = req.max_concurrency;
  current_stage_cost = 0;
  currency = codes "USD";
  cost_scope = codes "orchestration_only";
  downstream_provider_cost_status = codes "NOT_ESTIMATED";
  cost_confirmed = true;
  frozen_constraints_json = entries (
      (codes "contract_version", string contract_version)
      ∷ (codes "product_ids", ids_json (sort_by (λ id. id) req.product_ids))
      ∷ (codes "platforms", platforms_json (sort_by platform_rank req.platforms))
      ∷ (codes "variants_per_platform", number req.variants_per_platform)
      ∷ (codes "duration_seconds", number req.duration_seconds)
      ∷ (codes "aspect_ratio", string req.aspect_ratio)
      ∷ (codes "language", string req.language)
      ∷ (codes "creative_angle", or_null req.creative_angle)
      ∷ []);
}

-- A key of three parts, `f"{prefix}:{a}:{b}"`.
abbrev pub joined_key : Text → Text → Text → Text
joined_key prefix a b = prefix ++ codes ":" ++ a ++ codes ":" ++ b

module _ (now : ℕ) (req : BatchVideoCreateRequest) (batch : BatchVideoJob) where
  unfoldable pub new_variant : ℕ → Plan → BatchVideoVariant
  new_variant id plan = record {
    id = id;
    batch_video_job_id = batch.id;
    product_id = plan.product_id;
    platform = plan.platform;
    variant_index = plan.variant_index;
    duration_seconds = req.duration_seconds;
    aspect_ratio = req.aspect_ratio;
    language = req.language;
    creative_angle = req.creative_angle;
    brand_kit_version_id = plan.brand_kit_version_id;
    brand_kit_version_digest = plan.brand_kit_version_digest;
    source_digest = plan.source_digest;
    idempotency_key = joined_key (codes "batch-variant") batch.request_digest plan.source_digest;
    execution_job_id = none;
    status = VariantStatus.waiting;
    result_entity_type = none;
    result_entity_id = none;
    safe_error_code = none;
    updated_at = now;
    completed_at = none;
  }

  -- `f"video-batch:{batch.id}:slot:{slot}"`
  unfoldable pub slot_key : ℕ → Text
  unfolding decimal
  slot_key slot = codes "video-batch:" ++ decimal batch.id ++ codes ":slot:" ++ decimal slot

  unfoldable pub prepare_job : ℕ → ℕ → BatchVideoVariant → ExecutionJob
  unfolding slot_key
  prepare_job id ordinal v = record {
    id = id;
    spec = record {
      job_type = codes "video.batch.variant.prepare.v1";
      source_type = codes "batch_video_variant";
      source_id = v.id;
      input_digest = v.source_digest;
      idempotency_key = joined_key (codes "batch-prepare") batch.request_digest v.source_digest;
      input_payload = entries (
          (codes "variant_id", number v.id) ∷ (codes "source_digest", string v.source_digest) ∷ []);
      priority = batch.priority;
      concurrency_key = some (slot_key (ordinal % batch.max_concurrency));
      estimated_cost = 0;
      currency = codes "USD";
      cost_confirmed = true;
      max_attempts = 1;
      created_at = now;
    };
    status = JobStatus.queued;
    attempt_count = 0;
    lease_owner_digest = none;
    lease_expires_at = none;
    provider_name = none;
    provider_operation_id = none;
    submitted_at = none;
    completed_at = none;
    safe_error_code = none;
    safe_error_details = none;
    uncertain = false;
    result_entity_type = none;
    result_entity_id = none;
    attempts = [];
  }

  -- The body of the loop over the plans.
  unfoldable pub add_variant : ℕ → Plan → Step (Unit {0})
  unfolding new_variant prepare_job flush_variant flush_job
  add_variant ordinal plan = do
    id ← query (λ d. d.next_variant_id)
    let v = new_variant id plan
    flush_variant v
    job_id ← query (λ d. d.queue.next_id)
    flush_job (prepare_job job_id ordinal v)
    modify (λ d. record d {
      variants = put_variant (record v { execution_job_id = some job_id }) d.variants;
    })

  unfoldable pub add_variants : ℕ → List Plan → Step (Unit {0})
  unfolding add_variant
  add_variants ordinal [] = pure tt
  add_variants ordinal (plan ∷ plans) = do
    add_variant ordinal plan
    add_variants (suc ordinal) plans
