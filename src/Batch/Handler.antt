-- ===== src/Batch/Handler.antt =====
-- backend/app/execution/handlers/batch_video_variant.py: the job that prepares one variant, from
-- its checkpoint on. A refusal is a value, so each step answers the next or the code of a failure.
use social_pilot_ai.Base.{
  ℕ, Bool, true, false, not, Option, none, some, String, List, [], ◌∷◌, Text, codes, text_eq, ◌==◌,
  if◌then◌else◌,
}
use social_pilot_ai.Action.{pure, query, commit, modify, ◌>>=◌, ◌>>◌}
use social_pilot_ai.Json.{end}
use social_pilot_ai.Worker.Contracts.{HandlerStatus, HandlerResult, failed_with}
use social_pilot_ai.Batch.Types.{
  VariantStatus, BatchVideoVariant, Product, BrandKitVersion, BatchDb, Step,
}
use social_pilot_ai.Batch.Repository.{variant_with_id, put_variant}
use social_pilot_ai.Batch.Preflight.{Encoders, stable_digest, variant_source_payload, brand_with_id}

-- `BatchVideoVariantPrepareV1Input`
pub record PrepareInput : Type 0 where
  pub variant_id : ℕ
  pub source_digest : Text

abbrev pub product_with_id : ℕ → List Product → Option Product
product_with_id id [] = none
product_with_id id (p ∷ ps) = if p.id == id then some p else product_with_id id ps

abbrev pub optional_text_eq : Text → Option Text → Bool
optional_text_eq t none = false
optional_text_eq t (some u) = text_eq t u

-- `brand is None or brand.digest != variant.brand_kit_version_digest`, where a version is named.
abbrev pub brand_mismatch : List BrandKitVersion → BatchVideoVariant → Bool
brand_mismatch bs v = elim v.brand_kit_version_id [
  | none ↦ false
  | some id ↦ elim (brand_with_id id bs) [
    | none ↦ true
    | some b ↦ not (optional_text_eq b.digest v.brand_kit_version_digest)
  ]
]

-- The digest of what the variant holds now.
unfoldable pub actual_digest : Encoders → BatchVideoVariant → Text
unfolding stable_digest variant_source_payload
actual_digest e v = stable_digest e (
    variant_source_payload v.product_id v.platform v.variant_index v.duration_seconds v.aspect_ratio
      v.language v.creative_angle v.brand_kit_version_id v.brand_kit_version_digest)

abbrev pub product_missing : BatchDb → BatchVideoVariant → Bool
product_missing d v = elim (product_with_id v.product_id d.products) [
  | none ↦ true
  | some p ↦ false
]

-- The checks after the variant is found, in their order.
unfoldable pub refusal : Encoders → BatchDb → PrepareInput → BatchVideoVariant → Option String
unfolding actual_digest
refusal e d data' v =
    if not (text_eq v.source_digest data'.source_digest)
    then some "BATCH_VARIANT_IDENTITY_MISMATCH"
    else if product_missing d v
    then some "BATCH_VARIANT_PRODUCT_MISSING"
    else if brand_mismatch d.brands v
    then some "BATCH_VARIANT_BRAND_MISMATCH"
    else if not (text_eq (actual_digest e v) v.source_digest)
    then some "BATCH_VARIANT_SOURCE_MISMATCH"
    else none

-- The row that a success writes; `updated_at` is set by `onupdate`, after it has been read.
abbrev pub prepared : ℕ → BatchVideoVariant → BatchVideoVariant
prepared now v = record v {
  status = VariantStatus.ready_for_script;
  result_entity_type = some (codes "batch_video_variant");
  result_entity_id = some v.id;
  completed_at = some v.updated_at;
  updated_at = now;
}

abbrev pub prepared_result : BatchVideoVariant → HandlerResult
prepared_result v = record {
  status = HandlerStatus.succeeded;
  safe_error_code = none;
  safe_error_details = end;
  provider_name = some (codes "local_batch_orchestrator");
  provider_operation_id = none;
  result_entity_type = some (codes "batch_video_variant");
  result_entity_id = some v.id;
  provider_submission_state = none;
}

abbrev pub finish_prepare : ℕ → BatchVideoVariant → Option String → Step HandlerResult
finish_prepare now v (some code) = pure (failed_with (codes code))
finish_prepare now v none = do
  modify (λ d. record d { variants = put_variant (prepared now v) d.variants })
  commit
  pure (prepared_result v)

abbrev pub prepare_found :
    Encoders → ℕ → PrepareInput → Option BatchVideoVariant → Step HandlerResult
prepare_found e now data' none = pure (failed_with (codes "BATCH_VARIANT_IDENTITY_MISMATCH"))
prepare_found e now data' (some v) = do
  refused ← query (λ d. refusal e d data' v)
  finish_prepare now v refused

unfoldable pub prepare : Encoders → ℕ → PrepareInput → Step HandlerResult
unfolding refusal
prepare e now data' = do
  found ← query (λ d. variant_with_id data'.variant_id d.variants)
  prepare_found e now data' found
