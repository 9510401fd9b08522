-- ===== src/Batch/Status.antt =====
-- `_variant_status` and `aggregate_batch_status` of
-- backend/app/services/batch_video_job_service.py.
use social_pilot_ai.Base.{
  ℕ, Bool, true, false, ◌||◌, Option, none, some, List, [], ◌∷◌, map, if◌then◌else◌, all_of, any_of,
}
use social_pilot_ai.Queue.Types.{JobStatus, ExecutionJob}
use social_pilot_ai.Queue.Repository.{get_job}
use social_pilot_ai.Batch.Types.{VariantStatus, BatchStatus, BatchVideoVariant}

-- The status that a variant shows while its job has this one.
abbrev pub shown_status : JobStatus → VariantStatus
shown_status JobStatus.queued = VariantStatus.waiting
shown_status JobStatus.paused = VariantStatus.paused
shown_status JobStatus.running = VariantStatus.running
shown_status JobStatus.succeeded = VariantStatus.ready_for_script
shown_status JobStatus.failed = VariantStatus.failed
shown_status JobStatus.submit_unknown = VariantStatus.failed
shown_status JobStatus.cancelled = VariantStatus.cancelled

-- `variant.execution_job`
abbrev pub job_by_key : Option ℕ → List ExecutionJob → Option ExecutionJob
job_by_key none js = none
job_by_key (some id) js = get_job id js

abbrev pub status_with : VariantStatus → Option ExecutionJob → VariantStatus
status_with own none = own
status_with own (some j) = shown_status j.status

unfoldable pub variant_status : List ExecutionJob → BatchVideoVariant → VariantStatus
variant_status js v = status_with v.status (job_by_key v.execution_job_id js)

abbrev pub is_waiting : VariantStatus → Bool
is_waiting VariantStatus.waiting = true
is_waiting _ = false

abbrev pub is_ready : VariantStatus → Bool
is_ready VariantStatus.ready_for_script = true
is_ready _ = false

abbrev pub is_failed_variant : VariantStatus → Bool
is_failed_variant VariantStatus.failed = true
is_failed_variant _ = false

abbrev pub is_cancelled_variant : VariantStatus → Bool
is_cancelled_variant VariantStatus.cancelled = true
is_cancelled_variant _ = false

abbrev pub is_running_variant : VariantStatus → Bool
is_running_variant VariantStatus.running = true
is_running_variant _ = false

abbrev pub is_paused_variant : VariantStatus → Bool
is_paused_variant VariantStatus.paused = true
is_paused_variant _ = false

-- `{"READY_FOR_SCRIPT", "FAILED", "CANCELLED"}`
abbrev pub is_ended : VariantStatus → Bool
is_ended s = is_ready s || is_failed_variant s || is_cancelled_variant s

unfoldable pub aggregate_statuses : List VariantStatus → BatchStatus
aggregate_statuses [] = BatchStatus.waiting
aggregate_statuses (s ∷ ss) =
    if all_of is_waiting (s ∷ ss)
    then BatchStatus.waiting
    else if all_of is_ready (s ∷ ss)
    then BatchStatus.ready_for_script
    else if all_of is_failed_variant (s ∷ ss)
    then BatchStatus.failed
    else if all_of is_cancelled_variant (s ∷ ss)
    then BatchStatus.cancelled
    else if any_of is_running_variant (s ∷ ss)
    then BatchStatus.running
    else if any_of is_failed_variant (s ∷ ss)
    then BatchStatus.partial_failed
    else if all_of is_ended (s ∷ ss)
    then BatchStatus.mixed_terminal
    else if any_of is_paused_variant (s ∷ ss)
    then BatchStatus.paused
    else BatchStatus.running

unfoldable pub aggregate_batch_status : List ExecutionJob → List BatchVideoVariant → BatchStatus
unfolding variant_status aggregate_statuses
aggregate_batch_status js vs = aggregate_statuses (map (variant_status js) vs)
