-- ===== src/Batch/Controls.antt =====
-- `_control` of backend/app/services/batch_video_job_service.py: `pause`, `resume`, `cancel`.
use social_pilot_ai.Base.{ℕ, Bool, ◌||◌, some, List, [], ◌∷◌, if◌then◌else◌}
use social_pilot_ai.Action.{app, pure, query, commit, modify, or_raise, ◌>>=◌, ◌>>◌}
use social_pilot_ai.Queue.Types.{JobStatus, ExecutionJob, is_queued, is_paused}
use social_pilot_ai.Queue.Repository.{put_job}
use social_pilot_ai.Batch.Types.{VariantStatus, BatchVideoJob, BatchVideoVariant, BatchDb, Step}
use social_pilot_ai.Batch.Status.{job_by_key}
use social_pilot_ai.Batch.Repository.{variants_of, put_variant}
use social_pilot_ai.Batch.Service.{required_batch, get_batch}

pub data Control : Type 0 where
  pause resume cancel : Control

-- The branch of the loop body that is taken: whether it changes the job and its variant.
abbrev pub applies : Control → JobStatus → Bool
applies Control.pause s = is_queued s
applies Control.resume s = is_paused s
applies Control.cancel s = is_queued s || is_paused s

abbrev pub control_job : Control → ℕ → ExecutionJob → ExecutionJob
control_job Control.pause now j = record j { status = JobStatus.paused }
control_job Control.resume now j = record j { status = JobStatus.queued }
control_job Control.cancel now j = record j {
  status = JobStatus.cancelled;
  completed_at = some now;
}

-- `updated_at` is set by `onupdate`.
abbrev pub control_row : Control → ℕ → BatchVideoVariant → BatchVideoVariant
control_row Control.pause now v = record v { status = VariantStatus.paused; updated_at = now }
control_row Control.resume now v = record v { status = VariantStatus.waiting; updated_at = now }
control_row Control.cancel now v = record v {
  status = VariantStatus.cancelled;
  completed_at = some now;
  updated_at = now;
}

-- Both rows are written, or neither.
unfoldable pub write_both : Control → ℕ → BatchVideoVariant → ExecutionJob → BatchDb → BatchDb
write_both control now v j d =
    if applies control j.status
    then record d {
      queue = record d.queue { jobs = put_job (control_job control now j) d.queue.jobs };
      variants = put_variant (control_row control now v) d.variants;
    }
    else d

unfoldable pub control_variant : Control → ℕ → BatchVideoVariant → Step (Unit {0})
unfolding write_both
control_variant control now v = do
  found ← query (λ d. job_by_key v.execution_job_id d.queue.jobs)
  j ← or_raise found (app "Batch video queue record is incomplete" 409)
  modify (write_both control now v j)

unfoldable pub control_variants : Control → ℕ → List BatchVideoVariant → Step (Unit {0})
unfolding control_variant
control_variants control now [] = pure tt
control_variants control now (v ∷ vs) = do
  control_variant control now v
  control_variants control now vs

unfoldable pub control_batch : Control → ℕ → ℕ → Step BatchVideoJob
unfolding control_variants required_batch get_batch
control_batch control now id = do
  required_batch id
  vs ← query (λ d. variants_of id d.variants)
  control_variants control now vs
  commit
  get_batch id
