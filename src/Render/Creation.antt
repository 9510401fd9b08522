-- ===== src/Render/Creation.antt =====
-- `create_render_task_with_reuse` and `create_render_task` of
-- backend/app/services/video_render_service.py, and `get_by_idempotency_key` of
-- backend/app/repositories/video_render.py.
use social_pilot_ai.Base.{
  ℕ, Bool, true, false, not, ◌==◌, ◌||◌, Option, none, some, is_some, List, [], ◌∷◌, Text, text_eq,
  if◌then◌else◌,
}
use social_pilot_ai.Json.{Json}
use social_pilot_ai.Action.{
  Result, ok, err, app, integrity, pure, raise, query, modify, commit, rollback, raise_if, ◌>>=◌,
  ◌>>◌, try_or,
}
use social_pilot_ai.Render.Types.{RenderStatus, VideoRenderTask, RenderDb}
use social_pilot_ai.Render.Repository.{Run, create}
use social_pilot_ai.Render.Scenes.{
  VideoProject, VideoScene, VideoRenderTaskCreate, scene_of, build_render_prompt,
}

abbrev pub task_by_idempotency_key : Text → List VideoRenderTask → Option VideoRenderTask
task_by_idempotency_key key [] = none
task_by_idempotency_key key (t ∷ ts) =
    if text_eq t.idempotency_key key then some t else task_by_idempotency_key key ts

unfoldable pub new_task : ℕ → VideoRenderTaskCreate → VideoProject → VideoScene → VideoRenderTask
unfolding build_render_prompt
new_task id req p s = record {
  id = id;
  video_project_id = p.id;
  scene_sequence = s.sequence;
  status = RenderStatus.created;
  provider_name = none;
  provider_task_id = none;
  render_prompt = build_render_prompt s p.aspect_ratio;
  duration_seconds = s.duration_seconds;
  aspect_ratio = p.aspect_ratio;
  resolution = req.resolution;
  idempotency_key = req.idempotency_key;
  error_code = none;
  error_message = none;
}

-- Whether a row was made for another request.
abbrev pub other_request : ℕ → VideoRenderTaskCreate → VideoRenderTask → Bool
other_request id req t =
    not (t.video_project_id == id)
    || not (t.scene_sequence == req.scene_sequence)
    || not (text_eq t.resolution req.resolution)

-- What other sessions have committed since the key was looked up, if anything.
abbrev pub arrive : Option RenderDb → Run (Unit {0})
arrive none s = (ok tt, s)
arrive (some d) s = (ok tt, record { committed = d; working = d })

module _ (others : Option RenderDb) (id : ℕ) (req : VideoRenderTaskCreate) where
  abbrev pub reuse_task : Option VideoRenderTask → Run (VideoRenderTask × Bool)
  reuse_task none = raise integrity
  reuse_task (some t) = do
    raise_if (other_request id req t)
        (app "Idempotency key is already used for another render request" 409)
    pure (t, true)

  -- The INSERT, which the unique index on the key may refuse, and its commit.
  unfoldable pub insert_task : VideoProject → VideoScene → Run (VideoRenderTask × Bool)
  unfolding create new_task
  insert_task p s = do
    arrive others
    taken ← query (λ d. task_by_idempotency_key req.idempotency_key d.tasks)
    raise_if (is_some taken) integrity
    key ← query (λ d. d.next_id)
    modify (create (new_task key req p s))
    commit
    pure (new_task key req p s, false)

  -- The handler of a conflict.
  unfoldable pub concurrent_task : Run (VideoRenderTask × Bool)
  concurrent_task = do
    rollback
    found ← query (λ d. task_by_idempotency_key req.idempotency_key d.tasks)
    reuse_task found

  abbrev pub reuse_or_insert :
      VideoProject → VideoScene → Option VideoRenderTask → Run (VideoRenderTask × Bool)
  reuse_or_insert p s none = try_or (insert_task p s) concurrent_task
  reuse_or_insert p s (some t) = reuse_task (some t)

  abbrev pub with_scene : Result (VideoProject × VideoScene) → Run (VideoRenderTask × Bool)
  with_scene (err e) = raise e
  with_scene (ok (p, s)) = do
    existing ← query (λ d. task_by_idempotency_key req.idempotency_key d.tasks)
    reuse_or_insert p s existing

module _ (int_of : Json → Option ℕ) (others : Option RenderDb) (projects : List VideoProject) where
  unfoldable pub create_render_task_with_reuse :
      ℕ → VideoRenderTaskCreate → Run (VideoRenderTask × Bool)
  unfolding insert_task concurrent_task scene_of
  create_render_task_with_reuse id req =
      with_scene others id req (scene_of int_of projects id req.scene_sequence)

  unfoldable pub create_render_task : ℕ → VideoRenderTaskCreate → Run VideoRenderTask
  unfolding create_render_task_with_reuse
  create_render_task id req = do made ← create_render_task_with_reuse id req; pure made.0
