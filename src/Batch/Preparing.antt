-- ===== src/Batch/Preparing.antt =====
-- The preparation of a variant that `create` has planned.
use social_pilot_ai.Base.{ℕ, Option, some}
use social_pilot_ai.Action.{request}
use social_pilot_ai.Json.{Json}
use social_pilot_ai.Batch.Types.{Platform, BatchVideoJob, BatchVideoVariant, BrandKitVersion}
use social_pilot_ai.Batch.Requests.{BatchVideoCreateRequest}
use social_pilot_ai.Batch.Preflight.{
  Encoders, plan_of, variant_source_payload, brand_id, brand_digest,
}
use social_pilot_ai.Batch.Service.{new_variant}

module _ (e : Encoders) (now : ℕ) (req : BatchVideoCreateRequest) (batch : BatchVideoJob) where
  -- The variant that `create` makes of a plan for this product, platform and index.
  abbrev pub planned_variant : Option BrandKitVersion → ℕ → Platform → ℕ → ℕ → ℕ → BatchVideoVariant
  planned_variant brand product platform index id job =
      record (new_variant now req batch id (plan_of e req.request brand product platform index)) {
        execution_job_id = some job;
      }

  -- What the digest of a plan covers.
  abbrev pub plan_payload : Option BrandKitVersion → ℕ → Platform → ℕ → Json
  plan_payload brand product platform index =
      variant_source_payload product platform index req.request.duration_seconds
        req.request.aspect_ratio req.request.language req.request.creative_angle (brand_id brand)
        (brand_digest brand)

  -- What has become of it in a row.
  abbrev pub row_payload : BatchVideoVariant → Json
  row_payload w =
      variant_source_payload w.product_id w.platform w.variant_index w.duration_seconds
        w.aspect_ratio w.language w.creative_angle w.brand_kit_version_id w.brand_kit_version_digest
