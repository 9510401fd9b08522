-- ===== src/Batch/Preflights.antt =====
-- What the preflight answers, as a whole.
use social_pilot_ai.Base.{
  ℕ, ◌*◌, ◌≤◌, ◌<◌, ◌≡◌, sym, ap, ◌∙◌, false, map, length, Pairwise, sort_by, set_by, length-map,
  length-sort_with, Pairwise-keep, arith,
}
use social_pilot_ai.Action.{Session, ok}
use social_pilot_ai.Batch.Types.{Product, BatchDb, platform_rank}
use social_pilot_ai.Batch.Requests.{BatchVideoRequest}
use social_pilot_ai.Batch.Preflight.{Encoders, Preflight, run, plans_of, products_found, total}
use social_pilot_ai.Batch.Plans.{same_plan, same_ids-eq, length-plans_of, plans_of-Differ}

module _ (e : Encoders) (r : BatchVideoRequest) (expires : ℕ) (s t : Session BatchDb)
    (p : Preflight) where
  record Answered : Type 0 where
    platforms_distinct : length (set_by platform_rank r.platforms) ≡ length r.platforms
    bounded : total r ≤ 60
    room : r.max_concurrency ≤ total r
    found :
        map (λ (q : Product). q.id) (products_found r s.working) ≡ sort_by (λ id. id) r.product_ids
    counted : p.variant_count ≡ total r
    capped : p.max_concurrency ≡ r.max_concurrency
    planned : p.variants ≡ plans_of e r s.working.brands (products_found r s.working)
    same : t ≡ s

  run-Answered : run e r expires s ≡ (ok p, t) → Answered
  unfolding run
  run-Answered h = record {
    platforms_distinct = ground (arith, h);
    bounded = ground (arith, h);
    room = ground (arith, h);
    found = same_ids-eq _ _ (ground (arith, h));
    counted = ground (arith, h);
    capped = ground (arith, h);
    planned = ground (arith, h);
    same = ground (arith, h);
  }

  pub run-same : run e r expires s ≡ (ok p, t) → t ≡ s
  run-same h = (run-Answered h).same

  -- What a client may rely on in the answer.
  pub record Planned : Type 0 where
    pub complete : length p.variants ≡ p.variant_count
    pub few : p.variant_count ≤ 60
    pub slots : r.max_concurrency ≤ p.variant_count
    pub product_count :
        p.variant_count ≡ length r.product_ids * length r.platforms * r.variants_per_platform
    pub identities : Pairwise (λ x y. same_plan x y ≡ false) p.variants

  -- Where the products are in the order of their keys, a preflight that answers has as many plans
  -- as `variant_count`, which is the number of products times platforms times variants per platform
  -- and at most 60; the concurrency asked for is at most that; and no two plans have the same
  -- product, platform and index.
  pub run-Planned :
      Pairwise (λ x y. x.id < y.id) s.working.products → run e r expires s ≡ (ok p, t) → Planned
  run-Planned ordered h =
      let a = run-Answered h in
      let found = products_found r s.working in
      let as_many : length found ≡ length r.product_ids =
        sym (length-map (λ (q : Product). q.id) found)
        ∙ ap length a.found
        ∙ length-sort_with _ r.product_ids in
      let plans : length (plans_of e r s.working.brands found) ≡ total r =
        length-plans_of e r s.working.brands found ∙ rw as_many (grind arith) in
      record {
        complete = ap length a.planned ∙ plans ∙ sym a.counted;
        few = rw a.counted a.bounded;
        slots = rw a.counted a.room;
        product_count = a.counted;
        identities = rw a.planned (
            plans_of-Differ e r s.working.brands found a.platforms_distinct
              (Pairwise-keep _ _ s.working.products ordered));
      }
