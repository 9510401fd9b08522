-- ===== src/Batch/Samples.antt =====
-- A small database of batches, and the calls that lead to it.
use social_pilot_ai.Base.{ℕ, ◌≡◌, refl, false, none, [], ◌∷◌, ◌++◌, Text, text_eq, codes}
use social_pilot_ai.Json.{
  Json, null, boolean, number, string, array, object, Items, nil, cons, Fields, end, field,
}
use social_pilot_ai.Action.{ok, request}
use social_pilot_ai.Queue.Types.{empty_db, ExecutionJob}
use social_pilot_ai.Batch.Types.{Platform, BatchVideoJob, BatchVideoVariant, BatchDb}
use social_pilot_ai.Batch.Requests.{BatchVideoRequest, BatchVideoCreateRequest}
use social_pilot_ai.Batch.Preflight.{
  Encoders, Preflight, run, plan_of, stable_digest, preflight_digest_of, product_plans,
}
use social_pilot_ai.Batch.Service.{new_batch, new_variant, prepare_job}
use social_pilot_ai.Batch.Preparing.{planned_variant}
use social_pilot_ai.Batch.Reusing.{known_read}
use social_pilot_ai.Batch.Creates.{create}

-- An encoder that keeps the numbers of a value.
unfoldable mutual
  pub numbers : Json → Text
  numbers (number n) = n ∷ []
  numbers (array xs) = item_numbers xs
  numbers (object fs) = field_numbers fs
  numbers null = []
  numbers (boolean b) = []
  numbers (string s) = []

  pub item_numbers : Items → Text
  item_numbers nil = []
  item_numbers (cons x xs) = numbers x ++ item_numbers xs

  pub field_numbers : Fields → Text
  field_numbers end = []
  field_numbers (field k v fs) = numbers v ++ field_numbers fs

unfoldable pub encoders : Encoders
unfolding numbers
encoders = record { dumps = numbers; sha256 = λ t. t; isoformat = λ n. n ∷ [] }

abbrev pub two_variants : BatchVideoRequest
two_variants = record {
  product_ids = 7 ∷ [];
  platforms = Platform.tiktok ∷ [];
  variants_per_platform = 2;
  duration_seconds = 15;
  aspect_ratio = codes "9:16";
  language = codes "en";
  priority = 50;
  max_concurrency = 1;
  creative_angle = none;
  idempotency_key = codes "batch-0001";
}

abbrev pub shop : BatchDb
shop = record {
  queue = empty_db;
  batches = [];
  variants = [];
  products = record { id = 7; brand_kit_version_id = none } ∷ [];
  brands = [];
  next_batch_id = 1;
  next_variant_id = 1;
}

-- The request that the preflight of `two_variants` allows.
abbrev pub two_order : BatchVideoCreateRequest
two_order = record {
  request = two_variants;
  request_digest = 7 ∷ 2 ∷ 15 ∷ 50 ∷ 1 ∷ 7 ∷ 1 ∷ 7 ∷ 2 ∷ [];
  preflight_digest = [];
  preflight_expires_at = 900;
}

abbrev pub two_checked : Preflight
two_checked = record {
  request_digest = two_order.request_digest;
  preflight_digest = [];
  expires_at = 900;
  variant_count = 2;
  max_concurrency = 1;
  variants =
      plan_of encoders two_variants none 7 Platform.tiktok 1
      ∷ plan_of encoders two_variants none 7 Platform.tiktok 2
      ∷ [];
}

pub run_two : request (run encoders two_variants 900) shop ≡ (ok two_checked, shop)
unfolding run encoders numbers item_numbers field_numbers stable_digest preflight_digest_of
    product_plans
run_two = refl

abbrev pub two_batch : BatchVideoJob
two_batch = new_batch 1 two_order two_checked

abbrev pub two_variant : ℕ → BatchVideoVariant
two_variant n = planned_variant encoders 10 two_order two_batch none 7 Platform.tiktok n n n

abbrev pub two_job : ℕ → ℕ → ExecutionJob
two_job n ordinal =
    prepare_job 10 two_order two_batch n ordinal (
      new_variant 10 two_order two_batch n (plan_of encoders two_variants none 7 Platform.tiktok n))

abbrev pub shop_two : BatchDb
shop_two = record shop {
  queue = record { jobs = two_job 1 0 ∷ two_job 2 1 ∷ []; next_id = 3 };
  batches = two_batch ∷ [];
  variants = two_variant 1 ∷ two_variant 2 ∷ [];
  next_batch_id = 2;
  next_variant_id = 3;
}

pub create_two :
    request (create none 10 two_order encoders) shop
    ≡ (ok (record (known_read shop_two two_batch) { reused = false }), shop_two)
unfolding create encoders numbers item_numbers field_numbers text_eq stable_digest
    preflight_digest_of product_plans
create_two = refl
