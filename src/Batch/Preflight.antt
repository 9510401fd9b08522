-- ===== src/Batch/Preflight.antt =====
-- backend/app/services/batch_video_preflight.py, `json.dumps`, SHA-256 and `isoformat` are parameters.
use social_pilot_ai.Base.{
  ℕ, ◌*◌, Bool, true, false, not, ◌&&◌, Option, none, some, List, [], ◌∷◌, map, Text, codes, length,
  ltb, ◌==◌, if◌then◌else◌, keep, any_of, range_from, flat_map, sort_by, set_by, member,
}
use social_pilot_ai.Json.{
  Json, null, number, string, array, object, Items, nil, cons, Fields, end, field,
}
use social_pilot_ai.Action.{app, pure, query, raise_if, ◌>>=◌, ◌>>◌}
use social_pilot_ai.Batch.Requests.{BatchVideoRequest}
use social_pilot_ai.Batch.Types.{
  Platform, platform_text, platform_rank, Product, BrandKitVersion, BatchDb, Step,
}

pub record Encoders : Type 0 where
  pub dumps : Json → Text
  pub sha256 : Text → Text
  pub isoformat : ℕ → Text

abbrev pub contract_version : Text
contract_version = codes "batch-video-orchestration-v1"

abbrev pub max_batch_variants : ℕ
max_batch_variants = 60

unfoldable pub stable_digest : Encoders → Json → Text
stable_digest e value = e.sha256 (e.dumps value)

-- A mapping, written key by key.
abbrev pub entries : List (Text × Json) → Fields
entries [] = end
entries ((k, v) ∷ kvs) = field k v (entries kvs)

abbrev pub or_null : Option Text → Json
or_null none = null
or_null (some t) = string t

abbrev pub number_or_null : Option ℕ → Json
number_or_null none = null
number_or_null (some n) = number n

-- `BatchVideoVariantPlan`
pub record Plan : Type 0 where
  pub product_id : ℕ
  pub platform : Platform
  pub variant_index : ℕ
  pub brand_kit_version_id : Option ℕ
  pub brand_kit_version_digest : Option Text
  pub source_digest : Text

unfoldable pub variant_source_payload :
    ℕ → Platform → ℕ → ℕ → Text → Text → Option Text → Option ℕ → Option Text → Json
variant_source_payload product platform index duration aspect language angle brand digest = object (
    entries (
      (codes "contract_version", string contract_version)
      ∷ (codes "product_id", number product)
      ∷ (codes "platform", string (platform_text platform))
      ∷ (codes "variant_index", number index)
      ∷ (codes "duration_seconds", number duration)
      ∷ (codes "aspect_ratio", string aspect)
      ∷ (codes "language", string language)
      ∷ (codes "creative_angle", or_null angle)
      ∷ (codes "brand_kit_version_id", number_or_null brand)
      ∷ (codes "brand_kit_version_digest", or_null digest)
      ∷ []))

-- The row with this key.
abbrev pub brand_with_id : ℕ → List BrandKitVersion → Option BrandKitVersion
brand_with_id id [] = none
brand_with_id id (b ∷ bs) = if b.id == id then some b else brand_with_id id bs

-- `product.brand_kit_version`
abbrev pub brand_of : List BrandKitVersion → Product → Option BrandKitVersion
brand_of bs p = elim p.brand_kit_version_id [ none ↦ none | some id ↦ brand_with_id id bs ]

abbrev pub brand_id : Option BrandKitVersion → Option ℕ
brand_id none = none
brand_id (some b) = some b.id

abbrev pub brand_digest : Option BrandKitVersion → Option Text
brand_digest none = none
brand_digest (some b) = some b.digest

-- `product.brand_kit_version_id is not None and brand is None`
abbrev pub brand_missing : List BrandKitVersion → Product → Bool
brand_missing bs p = elim p.brand_kit_version_id [
  | none ↦ false
  | some id ↦ elim (brand_with_id id bs) [ none ↦ true | some b ↦ false ]
]

-- The same list of keys.
abbrev pub same_ids : List ℕ → List ℕ → Bool
same_ids [] [] = true
same_ids [] (y ∷ ys) = false
same_ids (x ∷ xs) [] = false
same_ids (x ∷ xs) (y ∷ ys) = x == y && same_ids xs ys

abbrev pub plan_json : Plan → Json
plan_json p = object (
    entries (
      (codes "product_id", number p.product_id)
      ∷ (codes "platform", string (platform_text p.platform))
      ∷ (codes "variant_index", number p.variant_index)
      ∷ (codes "brand_kit_version_id", number_or_null p.brand_kit_version_id)
      ∷ (codes "brand_kit_version_digest", or_null p.brand_kit_version_digest)
      ∷ (codes "source_digest", string p.source_digest)
      ∷ []))

abbrev pub items : List Json → Items
items [] = nil
items (x ∷ xs) = cons x (items xs)

abbrev pub ids_json : List ℕ → Json
ids_json ids = array (items (map number ids))

abbrev pub platforms_json : List Platform → Json
platforms_json ps = array (items (map (λ p. string (platform_text p)) ps))

module _ (r : BatchVideoRequest) where
  -- `frozen`
  unfoldable pub frozen : List Plan → Json
  frozen plans = object (
      entries (
        (codes "contract_version", string contract_version)
        ∷ (codes "product_ids", ids_json (sort_by (λ id. id) r.product_ids))
        ∷ (codes "platforms", platforms_json (sort_by platform_rank r.platforms))
        ∷ (codes "variants_per_platform", number r.variants_per_platform)
        ∷ (codes "duration_seconds", number r.duration_seconds)
        ∷ (codes "aspect_ratio", string r.aspect_ratio)
        ∷ (codes "language", string r.language)
        ∷ (codes "priority", number r.priority)
        ∷ (codes "max_concurrency", number r.max_concurrency)
        ∷ (codes "creative_angle", or_null r.creative_angle)
        ∷ (codes "variants", array (items (map plan_json plans)))
        ∷ []))

  -- `len(product_ids) * len(platforms) * data.variants_per_platform`
  abbrev pub total : ℕ
  total = length r.product_ids * length r.platforms * r.variants_per_platform

  -- The products asked for, in the order of their keys.
  abbrev pub products_found : BatchDb → List Product
  products_found d = keep (λ p. member p.id (sort_by (λ id. id) r.product_ids)) d.products

unfoldable pub preflight_digest_of : Encoders → Text → ℕ → Text
unfolding stable_digest
preflight_digest_of e request_digest expires = stable_digest e (
    object (
      entries (
        (codes "request_digest", string request_digest)
        ∷ (codes "expires_at", string (e.isoformat expires))
        ∷ [])))

module _ (e : Encoders) (r : BatchVideoRequest) where
  -- The body of the innermost loop.
  unfoldable pub plan_of : Option BrandKitVersion → ℕ → Platform → ℕ → Plan
  unfolding stable_digest variant_source_payload
  plan_of brand product platform index = record {
    product_id = product;
    platform = platform;
    variant_index = index;
    brand_kit_version_id = brand_id brand;
    brand_kit_version_digest = brand_digest brand;
    source_digest = stable_digest e (
        variant_source_payload product platform index r.duration_seconds r.aspect_ratio r.language
          r.creative_angle (brand_id brand) (brand_digest brand));
  }

  unfoldable pub product_plans : List BrandKitVersion → Product → List Plan
  unfolding plan_of
  product_plans bs p =
      flat_map
        (λ platform.
          map (plan_of (brand_of bs p) p.id platform) (range_from 1 r.variants_per_platform))
        (sort_by platform_rank r.platforms)

  abbrev pub plans_of : List BrandKitVersion → List Product → List Plan
  plans_of bs ps = flat_map (product_plans bs) ps

-- `BatchVideoPreflightRead`, without the constants that every preflight answers.
pub record Preflight : Type 0 where
  pub request_digest : Text
  pub preflight_digest : Text
  pub expires_at : ℕ
  pub variant_count : ℕ
  pub max_concurrency : ℕ
  pub variants : List Plan

-- `BatchVideoPreflightService.run`, with `expires_at` worked out.
unfoldable pub run : Encoders → BatchVideoRequest → ℕ → Step Preflight
unfolding frozen
run e r expires = do
  raise_if (not (length (set_by (λ id. id) r.product_ids) == length r.product_ids))
      (app "Product IDs must be distinct" 422)
  raise_if (not (length (set_by platform_rank r.platforms) == length r.platforms))
      (app "Platforms must be distinct" 422)
  raise_if (ltb max_batch_variants (total r)) (app "Batch variant limit exceeded" 422)
  raise_if (ltb (total r) r.max_concurrency) (app "Maximum concurrency exceeds variant count" 422)
  found ← query (products_found r)
  raise_if (not (same_ids (map (λ p. p.id) found) (sort_by (λ id. id) r.product_ids)))
      (app "One or more products were not found" 404)
  brands ← query (λ d. d.brands)
  raise_if (any_of (brand_missing brands) found) (app "Product BrandKitVersion is unavailable" 409)
  let plans = plans_of e r brands found
  let digest = stable_digest e (frozen r plans)
  pure (record {
    request_digest = digest;
    preflight_digest = preflight_digest_of e digest expires;
    expires_at = expires;
    variant_count = total r;
    max_concurrency = r.max_concurrency;
    variants = plans;
  })
