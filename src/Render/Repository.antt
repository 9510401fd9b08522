-- ===== src/Render/Repository.antt =====
-- backend/app/repositories/video_render.py, and what the services use of
-- backend/app/repositories/video_render_artifact_repository.py. Every write commits.
use social_pilot_ai.Base.{
  ℕ, ◌+◌, Bool, false, not, ◌&&◌, ◌==◌, Option, none, some, is_some, List, [], ◌∷◌, ◌++◌, Text,
  if◌then◌else◌,
}
use social_pilot_ai.Action.{Action}
use social_pilot_ai.Render.Types.{
  RenderStatus, VideoRenderTask, VideoRenderArtifact, RenderDb, is_created, same_status,
}

abbrev pub Run : Type 0 → Type 0
Run A = Action RenderDb A

abbrev pub get_task : ℕ → List VideoRenderTask → Option VideoRenderTask
get_task id [] = none
get_task id (t ∷ ts) = if t.id == id then some t else get_task id ts

-- The columns that a write sets, in the row with the key.
abbrev pub put_columns :
    ℕ → (VideoRenderTask → VideoRenderTask) → List VideoRenderTask → List VideoRenderTask
put_columns id f [] = []
put_columns id f (t ∷ ts) = (if t.id == id then f t else t) ∷ put_columns id f ts

abbrev pub set_columns : ℕ → (VideoRenderTask → VideoRenderTask) → RenderDb → RenderDb
set_columns id f d = record d { tasks = put_columns id f d.tasks }

abbrev pub get_artifact : ℕ → List VideoRenderArtifact → Option VideoRenderArtifact
get_artifact id [] = none
get_artifact id (a ∷ as') = if a.video_render_task_id == id then some a else get_artifact id as'

abbrev pub put_artifact : VideoRenderArtifact → List VideoRenderArtifact → List VideoRenderArtifact
put_artifact b [] = b ∷ []
put_artifact b (a ∷ as') =
    if a.video_render_task_id == b.video_render_task_id then b ∷ as' else a ∷ put_artifact b as'

abbrev pub with_status :
    RenderStatus → Option Text → Option Text → VideoRenderTask → VideoRenderTask
with_status status code message t = record t {
  status = status;
  error_code = code;
  error_message = message;
}

-- The WHERE clauses of the two claims.
abbrev pub submittable : VideoRenderTask → Bool
submittable t = is_created t.status && not (is_some t.provider_task_id)

abbrev pub refreshable_from : RenderStatus → VideoRenderTask → Bool
refreshable_from expected t = same_status t.status expected && is_some t.provider_task_id

abbrev pub holds_of : (VideoRenderTask → Bool) → Option VideoRenderTask → Bool
holds_of p none = false
holds_of p (some t) = p t

-- An UPDATE of one row under a condition: whether it has changed a row.
unfoldable pub claim_where :
    (VideoRenderTask → Bool) → RenderStatus → ℕ → RenderDb → Bool × RenderDb
claim_where p status id d =
    let hit = holds_of p (get_task id d.tasks) in
    (hit, if hit then set_columns id (with_status status none none) d else d)

unfoldable pub claim_for_submission : ℕ → RenderDb → Bool × RenderDb
unfolding claim_where
claim_for_submission = claim_where submittable RenderStatus.submitting

unfoldable pub claim_for_refresh : ℕ → RenderStatus → RenderDb → Bool × RenderDb
unfolding claim_where
claim_for_refresh id expected = claim_where (refreshable_from expected) RenderStatus.refreshing id

unfoldable pub update_status : RenderStatus → Option Text → Option Text → ℕ → RenderDb → RenderDb
update_status status code message id = set_columns id (with_status status code message)

unfoldable pub record_submission :
    Text → Text → RenderStatus → Option Text → Option Text → ℕ → RenderDb → RenderDb
record_submission name provider_task status code message id = set_columns id (λ t.
    record (with_status status code message t) {
      provider_name = some name;
      provider_task_id = some provider_task;
    })

-- `VideoRenderArtifactRepository.finalize_succeeded`
unfoldable pub finalize_succeeded : VideoRenderArtifact → ℕ → RenderDb → RenderDb
finalize_succeeded a id d = record d {
  tasks = put_columns id (with_status RenderStatus.succeeded none none) d.tasks;
  artifacts = put_artifact (record a { video_render_task_id = id }) d.artifacts;
}

-- `create`; the service has checked the scene and looked for the idempotency key.
unfoldable pub create : VideoRenderTask → RenderDb → RenderDb
create t d = record d {
  tasks =
      d.tasks
      ++ record t {
        id = d.next_id;
        status = RenderStatus.created;
        provider_name = none;
        provider_task_id = none;
        error_code = none;
        error_message = none;
      }
        ∷ [];
  next_id = d.next_id + 1;
}
