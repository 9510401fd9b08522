-- ===== src/Batch/Plans.antt =====
-- What the preflight promises about its plans.
use social_pilot_ai.Base.{
  ℕ, ◌*◌, ◌<◌, ◌≡◌, refl, ◌∙◌, Bool, true, false, ◌&&◌, List, [], ◌∷◌, map, length, ◌==◌, All,
  All-imp, Pairwise, range_from, sort_by, set_by, length-map, length-flat_map, length-range_from,
  length-sort_with, set_by-Pairwise, range_from-Pairwise, Pairwise-sort_with, Pairwise-flat_map,
  Pairwise-map, Across, All-map-intro, All-flat_map, arith,
}
use social_pilot_ai.Batch.Types.{Platform, platform_rank, Product, BrandKitVersion}
use social_pilot_ai.Batch.Requests.{BatchVideoRequest}
use social_pilot_ai.Batch.Preflight.{
  Encoders, Plan, plan_of, product_plans, plans_of, same_ids, brand_of,
}

-- `uq_batch_video_variants_identity`, of two plans of one batch.
abbrev pub same_plan : Plan → Plan → Bool
same_plan p q =
    p.product_id == q.product_id
    && platform_rank p.platform == platform_rank q.platform
    && p.variant_index == q.variant_index

abbrev Differ : Plan → Plan → Type 0
Differ p q = same_plan p q ≡ false

pub same_ids-eq : (xs ys : List ℕ) → same_ids xs ys ≡ true → xs ≡ ys
same_ids-eq [] [] h = refl
same_ids-eq [] (y ∷ ys) h = absurd (cc)
same_ids-eq (x ∷ xs) [] h = absurd (cc)
same_ids-eq (x ∷ xs) (y ∷ ys) h = ground (arith, h, same_ids-eq xs ys)

module _ (e : Encoders) (r : BatchVideoRequest) (bs : List BrandKitVersion) where
  plans_of_platform : Product → Platform → List Plan
  plans_of_platform p platform =
      map (plan_of e r (brand_of bs p) p.id platform) (range_from 1 r.variants_per_platform)

  -- As many plans as the request counts.
  length-product_plans :
      (p : Product) → length (product_plans e r bs p) ≡ length r.platforms * r.variants_per_platform
  unfolding product_plans
  length-product_plans p =
      length-flat_map _ r.variants_per_platform (sort_by platform_rank r.platforms) (λ platform.
        length-map _ (range_from 1 r.variants_per_platform)
        ∙ length-range_from 1 r.variants_per_platform)
      ∙ rw (length-sort_with _ r.platforms) refl

  pub length-plans_of :
      (ps : List Product)
      → length (plans_of e r bs ps) ≡ length ps * (length r.platforms * r.variants_per_platform)
  length-plans_of ps = length-flat_map (product_plans e r bs) _ ps length-product_plans

  -- The plans of one product are its own, and differ in platform or index.
  product_plans-own : (p : Product) → All (λ pl. pl.product_id ≡ p.id) (product_plans e r bs p)
  unfolding product_plans plan_of
  product_plans-own p =
      All-flat_map _ _ (sort_by platform_rank r.platforms)
        (λ platform. All-map-intro _ _ (range_from 1 r.variants_per_platform) (λ k. refl))

  platform_own :
      (p : Product) (platform : Platform)
      → All
          (λ pl. platform_rank pl.platform ≡ platform_rank platform)
          (plans_of_platform p platform)
  unfolding plans_of_platform plan_of
  platform_own p platform = All-map-intro _ _ (range_from 1 r.variants_per_platform) (λ k. refl)

  plans_of_platform-Differ :
      (p : Product) (platform : Platform) → Pairwise Differ (plans_of_platform p platform)
  unfolding plans_of_platform plan_of
  plans_of_platform-Differ p platform =
      Pairwise-map Differ (λ i k. i < k) _ (range_from 1 r.variants_per_platform)
        (λ i k h. ground (arith, h)) (range_from-Pairwise 1 r.variants_per_platform)

module _ {A : Type 0} (key : A → ℕ) (a b : ℕ) (R : A → A → Type 0) where
  -- Elements with one key against elements with another.
  Across-keys :
      (xs ys : List A)
      → ((x y : A) → key x ≡ a → key y ≡ b → R x y)
      → All (λ x. key x ≡ a) xs
      → All (λ y. key y ≡ b) ys
      → Across R xs ys
  Across-keys xs ys h p q = All-imp _ _ xs (λ x e. All-imp _ _ ys (λ y f. h x y e f) q) p

module _ (e : Encoders) (r : BatchVideoRequest) (bs : List BrandKitVersion) where
  product_plans-Differ :
      (p : Product)
      → length (set_by platform_rank r.platforms) ≡ length r.platforms
      → Pairwise Differ (product_plans e r bs p)
  unfolding product_plans plans_of_platform
  product_plans-Differ p h =
      Pairwise-flat_map Differ (λ x y. (platform_rank x == platform_rank y) ≡ false) _
        (sort_by platform_rank r.platforms) (plans_of_platform-Differ e r bs p)
        (λ x y d.
          Across-keys (λ pl. platform_rank pl.platform) (platform_rank x) (platform_rank y) Differ _
            _ (λ pl ql s t. ground (arith, s, t, d)) (platform_own e r bs p x)
            (platform_own e r bs p y))
        (Pairwise-sort_with _ _ r.platforms (λ x y d. ground (arith, d))
          (set_by-Pairwise platform_rank r.platforms h))

  pub plans_of-Differ :
      (ps : List Product)
      → length (set_by platform_rank r.platforms) ≡ length r.platforms
      → Pairwise (λ p q. p.id < q.id) ps
      → Pairwise Differ (plans_of e r bs ps)
  plans_of-Differ ps h ids =
      Pairwise-flat_map Differ (λ p q. p.id < q.id) (product_plans e r bs) ps
        (λ p. product_plans-Differ p h)
        (λ p q lt.
          Across-keys (λ pl. pl.product_id) p.id q.id Differ _ _
            (λ pl ql s t. ground (arith, s, t, lt)) (product_plans-own e r bs p)
            (product_plans-own e r bs q))
        ids
