-- ===== src/Render/Tests.antt =====
-- The render theorems at one task.
use social_pilot_ai.Base.{
  subst, ◌≡◌, ◌≢◌, refl, true, false, not, ◌&&◌, none, ℕ, Option, some, strip, text_eq, [], ◌∷◌,
  Pairwise, codes,
}
use mathlib.Core.Option.{some-injective}
use social_pilot_ai.Json.{Json, number, boolean, string, Fields, field, end}
use social_pilot_ai.Action.{request, ok}
use social_pilot_ai.Render.Scenes.{VideoProject, VideoRenderTaskCreate, model_validate, scene_of}
use social_pilot_ai.Render.Creation.{
  task_by_idempotency_key, new_task, insert_task, create_render_task_with_reuse,
}
use social_pilot_ai.Render.Reuse.{create_render_task_with_reuse_twice}
use social_pilot_ai.Render.Types.{
  RenderStatus, VideoRenderTask, RenderDb, is_created, is_refreshable, Reply, answers,
  VisualTaskStatus, VisualTaskSubmission, VisualTaskSnapshot, not_configured,
}
use social_pilot_ai.Render.Repository.{create}
use social_pilot_ai.Render.Execution.{Settings, start_submit, submit, refresh}
use social_pilot_ai.Render.Recovery.{
  ArtifactState, has_provider_task, build_recovery_decision, build_recovery_decision_lem,
}
use social_pilot_ai.Render.Making.{render_calls-RenderReach}
use social_pilot_ai.Render.Once.{RenderReach, here, creates, starts_submit, sent_once}

abbrev no_tasks : RenderDb
no_tasks = record { tasks = []; artifacts = []; next_id = 1; sent = [] }

abbrev task : VideoRenderTask
task = record {
  id = 1;
  video_project_id = 3;
  scene_sequence = 1;
  status = RenderStatus.created;
  provider_name = none;
  provider_task_id = none;
  render_prompt = codes "A scene";
  duration_seconds = 5;
  aspect_ratio = codes "9:16";
  resolution = codes "720P";
  idempotency_key = codes "render-1";
  error_code = none;
  error_message = none;
}

abbrev enabled : Settings
enabled = record {
  enable_video_render_execution = true;
  enable_live_wanx_demo = false;
  allow_live_demo = false;
  provider_name = codes "wanx";
}

abbrev once : RenderDb
once = (request (start_submit enabled 1) (create task no_tasks)).1

abbrev twice : RenderDb
twice = (request (start_submit enabled 1) once).1

was_sent : once.sent ≡ 1 ∷ []
unfolding start_submit create
was_sent = refl

sent_once_example : Pairwise (λ i n. i ≢ n) twice.sent
sent_once_example =
    sent_once no_tasks twice refl
      (starts_submit (starts_submit (creates here task) enabled 1) enabled 1)

build_recovery_decision_lem_example :
    let r = build_recovery_decision task ArtifactState.not_applicable in
    let known = has_provider_task none in
    (r.resubmit_forbidden ≡ not (is_created RenderStatus.created && not known))
    × (r.continue_original_submit_allowed ≡ (is_created RenderStatus.created && not known))
    × (r.explicit_refresh_allowed ≡ (is_refreshable RenderStatus.created && known))
    × (r.automatic_action_allowed ≡ false)
build_recovery_decision_lem_example = build_recovery_decision_lem task ArtifactState.not_applicable

abbrev accepted : Reply VisualTaskSubmission
accepted = answers (record { provider_task_id = codes "wanx-7"; status = VisualTaskStatus.pending })

abbrev pending : RenderDb
pending = (request (submit enabled (λ d. d) accepted 1) (create task no_tasks)).1

abbrev still_running : Reply VisualTaskSnapshot
still_running = answers (record {
  provider_task_id = codes "wanx-7";
  status = VisualTaskStatus.running;
  provider_output_url = none;
})

-- Integers of pydantic, but for the texts that it reads.
abbrev int_of : Json → Option ℕ
int_of (number n) = some n
int_of (boolean true) = some 1
int_of (boolean false) = some 0
int_of _ = none

abbrev scene : Fields
scene = field (codes "sequence") (number 2) (
    field (codes "duration_seconds") (number 5) (
      field (codes "shot_type") (string (codes " close-up ")) (
        field (codes "visual_description") (string (codes "A cup")) (
          field (codes "action") (string (codes "Pours"))
            (field (codes "narration") (string (codes "Morning")) end)))))

abbrev project : VideoProject
project = record { id = 3; aspect_ratio = codes "9:16"; scenes = scene ∷ [] }

abbrev wanted : VideoRenderTaskCreate
wanted = record {
  scene_sequence = 2;
  resolution = codes "720P";
  idempotency_key = codes "render-2";
}

abbrev made_task : VideoRenderTask
made_task = new_task 1 wanted project (record {
  sequence = 2;
  duration_seconds = 5;
  shot_type = codes "close-up";
  visual_description = codes "A cup";
  action = codes "Pours";
  narration = codes "Morning";
})

made_anew :
    request (create_render_task_with_reuse int_of none (project ∷ []) 3 wanted) no_tasks
    ≡ (ok (made_task, false), create made_task no_tasks)
unfolding create_render_task_with_reuse scene_of model_validate insert_task create strip text_eq
made_anew = refl

create_render_task_with_reuse_twice_example :
    let d = create made_task no_tasks in
    (task_by_idempotency_key (codes "render-2") d.tasks ≡ some made_task)
    × (made_task.video_project_id ≡ 3)
    × (made_task.scene_sequence ≡ 2)
    × (made_task.resolution ≡ codes "720P")
    × (request (create_render_task_with_reuse int_of none (project ∷ []) 3 wanted) d
        ≡ (ok (made_task, true), d))
create_render_task_with_reuse_twice_example =
    create_render_task_with_reuse_twice int_of
      (record { numbers = λ n. refl; truth = refl; falsity = refl }) (project ∷ []) 3 wanted none
      none no_tasks (create made_task no_tasks) made_task false made_anew

render_calls-RenderReach_example :
    RenderReach pending (request (submit enabled (λ d. d) accepted 1) pending).1
    × RenderReach pending
        (request (refresh enabled (λ d. d) not_configured still_running 1) pending).1
    × RenderReach pending
        (request
          (create_render_task_with_reuse int_of (some pending) (project ∷ []) 3 wanted)
          pending).1
render_calls-RenderReach_example =
    render_calls-RenderReach int_of (project ∷ []) pending enabled 1 (λ d. d) not_configured
      accepted still_running (some pending) 3 wanted (λ e. here)
      (λ w same. subst (RenderReach pending) (some-injective pending w same) here)
