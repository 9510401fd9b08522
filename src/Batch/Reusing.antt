-- ===== src/Batch/Reusing.antt =====
-- `create` of a batch under a known key.
use social_pilot_ai.Base.{true, map}
use social_pilot_ai.Batch.Types.{BatchVideoJob, BatchDb}
use social_pilot_ai.Batch.Status.{aggregate_batch_status}
use social_pilot_ai.Batch.Repository.{variants_of, listed_variants}
use social_pilot_ai.Batch.Service.{CreateRead, variant_read}

-- The answer about a batch that is there.
abbrev pub known_read : BatchDb → BatchVideoJob → CreateRead
known_read d b = record {
  batch = record b { status = aggregate_batch_status d.queue.jobs (variants_of b.id d.variants) };
  variants = map (variant_read d.queue.jobs) (listed_variants b.id d.variants);
  reused = true;
}
