-- ===== src/Render/Types.antt =====
-- The rows of backend/app/models/video_render.py, their status, and what the provider and the
-- artifact storage answer (backend/app/providers/visual_base.py, base.py).
use social_pilot_ai.Base.{String, ℕ, Bool, true, false, ◌||◌, Option, List, Text}

pub data RenderStatus : Type 0 where
  created submitting submitted pending running refreshing submit_unknown : RenderStatus
  artifact_persist_failed succeeded failed canceled : RenderStatus

pub record VideoRenderTask : Type 0 where
  pub id : ℕ
  pub video_project_id : ℕ
  pub scene_sequence : ℕ
  pub status : RenderStatus
  pub provider_name : Option Text
  pub provider_task_id : Option Text
  pub render_prompt : Text
  pub duration_seconds : ℕ
  pub aspect_ratio : Text
  pub resolution : Text
  pub idempotency_key : Text
  pub error_code : Option Text
  pub error_message : Option Text

pub record VideoRenderArtifact : Type 0 where
  pub video_render_task_id : ℕ
  pub storage_path : Text
  pub content_type : Text
  pub size_bytes : ℕ
  pub sha256 : Text

-- The two tables, the next key of the tasks, and, apart from the database, the tasks for which the
-- provider's `submit` has been called.
pub record RenderDb : Type 0 where
  pub tasks : List VideoRenderTask
  pub artifacts : List VideoRenderArtifact
  pub next_id : ℕ
  pub sent : List ℕ

-- The subclasses of `ProviderError` that are told apart, and any other.
pub data ProviderError : Type 0 where
  authentication quota timeout connection configuration model other : ProviderError

-- `VisualTaskStatus`
pub data VisualTaskStatus : Type 0 where
  pending running succeeded failed canceled unknown : VisualTaskStatus

pub record VisualTaskSubmission : Type 0 where
  pub provider_task_id : Text
  pub status : VisualTaskStatus

pub record VisualTaskSnapshot : Type 0 where
  pub provider_task_id : Text
  pub status : VisualTaskStatus
  pub provider_output_url : Option Text

-- What a call of the provider returns or raises.
pub data Reply (A : Type 0) : Type 0 where
  answers : A → Reply A
  fails : ProviderError → Reply A

-- How the download, the storage and the final commit of a video end: with the stored artifact, with
-- a `VideoArtifactError`, with another exception; or the two collaborators are not there.
pub data Persisted : Type 0 where
  stored : VideoRenderArtifact → Persisted
  artifact_error : Text → String → Persisted
  broken not_configured : Persisted

abbrev pub is_created : RenderStatus → Bool
is_created RenderStatus.created = true
is_created _ = false

abbrev pub is_succeeded : RenderStatus → Bool
is_succeeded RenderStatus.succeeded = true
is_succeeded _ = false

-- `REFRESHABLE_STATUSES`
abbrev pub is_refreshable : RenderStatus → Bool
is_refreshable RenderStatus.submitted = true
is_refreshable RenderStatus.pending = true
is_refreshable RenderStatus.running = true
is_refreshable _ = false

-- `NO_REFRESH_TERMINAL_STATUSES`
abbrev pub is_terminal : RenderStatus → Bool
is_terminal RenderStatus.succeeded = true
is_terminal RenderStatus.failed = true
is_terminal RenderStatus.canceled = true
is_terminal _ = false

abbrev pub same_status : RenderStatus → RenderStatus → Bool
same_status RenderStatus.created RenderStatus.created = true
same_status RenderStatus.submitting RenderStatus.submitting = true
same_status RenderStatus.submitted RenderStatus.submitted = true
same_status RenderStatus.pending RenderStatus.pending = true
same_status RenderStatus.running RenderStatus.running = true
same_status RenderStatus.refreshing RenderStatus.refreshing = true
same_status RenderStatus.submit_unknown RenderStatus.submit_unknown = true
same_status RenderStatus.artifact_persist_failed RenderStatus.artifact_persist_failed = true
same_status RenderStatus.succeeded RenderStatus.succeeded = true
same_status RenderStatus.failed RenderStatus.failed = true
same_status RenderStatus.canceled RenderStatus.canceled = true
same_status _ _ = false

-- `RENDER_TASK_TRANSITIONS` of backend/app/services/video_render_service.py
unfoldable pub allowed : RenderStatus → RenderStatus → Bool
allowed RenderStatus.created t =
    same_status RenderStatus.submitting t
    || same_status RenderStatus.submitted t
    || same_status RenderStatus.canceled t
allowed RenderStatus.submitting t =
    same_status RenderStatus.submitted t
    || same_status RenderStatus.pending t
    || same_status RenderStatus.running t
    || same_status RenderStatus.failed t
    || same_status RenderStatus.submit_unknown t
allowed RenderStatus.submitted t =
    same_status RenderStatus.refreshing t
    || same_status RenderStatus.pending t
    || same_status RenderStatus.running t
    || is_terminal t
    || same_status RenderStatus.artifact_persist_failed t
allowed RenderStatus.pending t =
    same_status RenderStatus.refreshing t
    || same_status RenderStatus.running t
    || is_terminal t
    || same_status RenderStatus.artifact_persist_failed t
allowed RenderStatus.running t =
    same_status RenderStatus.refreshing t
    || is_terminal t
    || same_status RenderStatus.artifact_persist_failed t
allowed RenderStatus.refreshing t =
    is_refreshable t
    || same_status RenderStatus.succeeded t
    || same_status RenderStatus.failed t
    || same_status RenderStatus.artifact_persist_failed t
allowed _ t = false
