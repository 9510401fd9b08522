-- ===== src/Batch/Types.antt =====
-- The rows of backend/app/models/batch_video.py, with the tables that the batch service reads and
-- writes beside them. Left out: `created_at`, which only the API reads, and the columns of the
-- script generation (`qwen_script_*`, `active_script_version_id`, `script_version_sequence`).
use social_pilot_ai.Base.{ℕ, Bool, Option, List, Text, codes}
use social_pilot_ai.Json.{Fields}
use social_pilot_ai.Action.{Action}
use social_pilot_ai.Queue.Types.{Db}

-- `Platform`
pub data Platform : Type 0 where
  youtube tiktok instagram : Platform

abbrev pub platform_text : Platform → Text
platform_text Platform.youtube = codes "youtube"
platform_text Platform.tiktok = codes "tiktok"
platform_text Platform.instagram = codes "instagram"

-- The place of a platform's name in the alphabet, which `sorted` goes by.
abbrev pub platform_rank : Platform → ℕ
platform_rank Platform.instagram = 0
platform_rank Platform.tiktok = 1
platform_rank Platform.youtube = 2

-- The status of a variant.
pub data VariantStatus : Type 0 where
  waiting running ready_for_script paused failed cancelled : VariantStatus

-- The status of a batch.
pub data BatchStatus : Type 0 where
  waiting running paused ready_for_script partial_failed failed cancelled mixed_terminal :
      BatchStatus

pub record BatchVideoJob : Type 0 where
  pub id : ℕ
  pub request_digest : Text
  pub idempotency_key : Text
  pub status : BatchStatus
  pub priority : ℕ
  pub variant_count : ℕ
  pub max_concurrency : ℕ
  pub current_stage_cost : ℕ
  pub currency : Text
  pub cost_scope : Text
  pub downstream_provider_cost_status : Text
  pub cost_confirmed : Bool
  pub frozen_constraints_json : Fields

pub record BatchVideoVariant : Type 0 where
  pub id : ℕ
  pub batch_video_job_id : ℕ
  pub product_id : ℕ
  pub platform : Platform
  pub variant_index : ℕ
  pub duration_seconds : ℕ
  pub aspect_ratio : Text
  pub language : Text
  pub creative_angle : Option Text
  pub brand_kit_version_id : Option ℕ
  pub brand_kit_version_digest : Option Text
  pub source_digest : Text
  pub idempotency_key : Text
  pub execution_job_id : Option ℕ
  pub status : VariantStatus
  pub result_entity_type : Option Text
  pub result_entity_id : Option ℕ
  pub safe_error_code : Option Text
  pub updated_at : ℕ
  pub completed_at : Option ℕ

-- The columns of a product and of a brand kit version that the batch service reads.
pub record Product : Type 0 where
  pub id : ℕ
  pub brand_kit_version_id : Option ℕ

pub record BrandKitVersion : Type 0 where
  pub id : ℕ
  pub digest : Text

-- The tables, each in the order of its primary key, with the next keys.
pub record BatchDb : Type 0 where
  pub queue : Db
  pub batches : List BatchVideoJob
  pub variants : List BatchVideoVariant
  pub products : List Product
  pub brands : List BrandKitVersion
  pub next_batch_id : ℕ
  pub next_variant_id : ℕ

abbrev pub Step : Type 0 → Type 0
Step A = Action BatchDb A
