-- ===== src/Batch/Tests.antt =====
-- Small runs of the batch service, and its properties at concrete inputs.
use social_pilot_ai.Base.{
  ℕ, ◌≡◌, ◌≢◌, refl, ap, ◌≤◌, true, false, some, none, [], ◌∷◌, length, text_eq, any_of,
}
use social_pilot_ai.Action.{Result, ok, err, app, request}
use social_pilot_ai.Queue.Types.{empty_db}
use social_pilot_ai.Queue.Invariant.{DbOk}
use social_pilot_ai.Queue.System.{next, here, serve}
use social_pilot_ai.Queue.Guarantees.{constraints_hold}
use social_pilot_ai.Queue.Claiming.{calm_ok}
use social_pilot_ai.Queue.Samples.{plain, claim_at}
use social_pilot_ai.Batch.Types.{BatchVideoVariant, BatchDb, VariantStatus, BatchStatus, BatchDb}
use social_pilot_ai.Batch.Repository.{variants_of, get_by_idempotency, get_by_digest}
use social_pilot_ai.Batch.Service.{new_batch, new_variant}
use social_pilot_ai.Batch.Status.{aggregate_statuses}
use social_pilot_ai.Batch.Requests.{BatchVideoCreateRequest, valid_request}
use social_pilot_ai.Batch.Preflight.{stable_digest, variant_source_payload, run, plan_of}
use social_pilot_ai.Batch.Preflights.{Planned, run-Planned}
use social_pilot_ai.Batch.Controls.{Control, control_batch}
use social_pilot_ai.Batch.Controlling.{lacks_job}
use social_pilot_ai.Batch.Controlled.{Through}
use social_pilot_ai.Batch.Creates.{create}
use social_pilot_ai.Batch.Creating.{CreatedBatch, create-CreatedBatch}
use social_pilot_ai.Batch.Running.{running_of, batch_bounded}
use social_pilot_ai.Batch.Reusing.{known_read}
use social_pilot_ai.Batch.Aggregate.{described, aggregate_statuses-described}
use social_pilot_ai.Batch.Handler.{prepare, prepared, prepared_result}
use social_pilot_ai.Batch.Samples.{
  encoders, numbers, item_numbers, field_numbers, two_variants, two_order, two_checked, two_batch,
  two_variant, shop, shop_two, run_two, create_two,
}

request_valid : valid_request two_variants ≡ true
unfolding valid_request text_eq
request_valid = refl

too_many :
    request (run encoders (record two_variants { variants_per_platform = 61 }) 900) shop
    ≡ (err (app "Batch variant limit exceeded" 422), shop)
unfolding run
too_many = refl

ready_and_failed :
    aggregate_statuses (VariantStatus.ready_for_script ∷ VariantStatus.failed ∷ [])
    ≡ BatchStatus.partial_failed
unfolding aggregate_statuses
ready_and_failed = refl

nothing-DbOk : DbOk empty_db
nothing-DbOk = constraints_hold plain empty_db here

run-Planned_example :
    Planned encoders two_variants 900
      (record { committed = shop; working = shop })
      (record { committed = shop; working = shop })
      two_checked
unfolding run
run-Planned_example =
    run-Planned encoders two_variants 900 (record { committed = shop; working = shop })
      (record { committed = shop; working = shop }) two_checked (tt, tt)
      (ap (λ (r : Result _ × BatchDb). (r.0, record { committed = shop; working = shop })) run_two)

create-CreatedBatch_example : CreatedBatch 10 two_order empty_db 1 shop_two
unfolding new_batch
create-CreatedBatch_example =
    create-CreatedBatch encoders none 10 two_order shop shop_two
      (record (known_read shop_two two_batch) { reused = false }) create_two refl nothing-DbOk tt

batch_bounded_example :
    length
      (running_of (variants_of 1 shop_two.variants) (serve plain (claim_at 11) shop_two.queue).jobs)
    ≤ 1
unfolding new_batch
batch_bounded_example =
    batch_bounded plain encoders none 10 two_order shop shop_two
      (record (known_read shop_two two_batch) { reused = false })
      (serve plain (claim_at 11) shop_two.queue) nothing-DbOk tt create_two refl
      (next here (claim_at 11) (λ k. calm_ok))

abbrev Controlled : Control → ℕ → BatchDb → Type 0
Controlled control now d =
    (any_of (lacks_job d.queue.jobs) (variants_of 1 d.variants) ≡ false
      → Through control now 1 d two_batch (request (control_batch control now 1) d))
    × (any_of (lacks_job d.queue.jobs) (variants_of 1 d.variants) ≡ true
        → request (control_batch control now 1) d
          ≡ (err (app "Batch video queue record is incomplete" 409), d))

abbrev Reuses : BatchVideoCreateRequest → BatchDb → Type 0
Reuses req d =
    (get_by_idempotency req.idempotency_key d.batches ≡ some two_batch
      → two_batch.request_digest ≡ req.request_digest
      → request (create none 40 req encoders) d ≡ (ok (known_read d two_batch), d))
    × (get_by_idempotency req.idempotency_key d.batches ≡ some two_batch
        → two_batch.request_digest ≢ req.request_digest
        → request (create none 40 req encoders) d
          ≡ (err (app "Idempotency key was used for different input" 409), d))
    × (get_by_idempotency req.idempotency_key d.batches ≡ none
        → get_by_digest req.request_digest d.batches ≡ some two_batch
        → request (create none 40 req encoders) d ≡ (ok (known_read d two_batch), d))

aggregate_statuses-described_example :
    aggregate_statuses (VariantStatus.ready_for_script ∷ VariantStatus.cancelled ∷ [])
    ≡ described false false false false true true
aggregate_statuses-described_example =
    aggregate_statuses-described (VariantStatus.ready_for_script ∷ VariantStatus.cancelled ∷ [])

-- The first variant, with a duration that it was not planned for.
abbrev changed_variant : BatchVideoVariant
changed_variant = record (two_variant 1) { duration_seconds = 99 }

abbrev shop_changed : BatchDb
shop_changed = record shop_two { variants = changed_variant ∷ two_variant 2 ∷ [] }

prepare_same :
    request
      (prepare encoders 20
        (record { variant_id = 1; source_digest = (two_variant 1).source_digest }))
      shop_two
    ≡ (
      ok (prepared_result (two_variant 1)),
      record shop_two { variants = prepared 20 (two_variant 1) ∷ two_variant 2 ∷ [] },
    )
unfolding prepare text_eq stable_digest variant_source_payload new_variant plan_of encoders numbers
    item_numbers field_numbers
prepare_same = refl
