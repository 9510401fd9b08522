-- ===== src/Render/Making.antt =====
-- `create_render_task_with_reuse` of backend/app/services/video_render_service.py as a step beside
-- the submissions and refreshes of other sessions.
use social_pilot_ai.Base.{
  ℕ, ◌≡◌, refl, sym, subst, Bool, List, inl, inr, Option, none, some, Option-cases, Bool-cases,
}
use social_pilot_ai.Json.{Json}
use social_pilot_ai.Action.{
  Session, Result, ok, err, app, validation, integrity, runtime, handled, request,
}
use social_pilot_ai.Render.Types.{
  VideoRenderTask, VisualTaskSubmission, VisualTaskSnapshot, Persisted, Reply, RenderDb,
}
use social_pilot_ai.Render.Execution.{Settings, submit, refresh}
use social_pilot_ai.Render.Once.{RenderReach, here, creates}
use social_pilot_ai.Render.Steps.{provider_calls-RenderReach}
use social_pilot_ai.Render.Scenes.{VideoProject, VideoScene, VideoRenderTaskCreate, scene_of}
use social_pilot_ai.Render.Creation.{
  task_by_idempotency_key, new_task, other_request, reuse_task, insert_task, concurrent_task,
  reuse_or_insert, with_scene, create_render_task_with_reuse,
}
use social_pilot_ai.Render.Reuse.{insert_new, insert_taken}

module _ (id : ℕ) (req : VideoRenderTaskCreate) (d : RenderDb) where
  insert_alone-RenderReach :
      (p : VideoProject) (c : VideoScene) (s : Session RenderDb)
      → RenderReach d s.committed
      → RenderReach d s.working
      → RenderReach d (insert_task none id req p c s).1.committed
  insert_alone-RenderReach p c s r q =
      elim (Option-cases (task_by_idempotency_key req.idempotency_key s.working.tasks)) [
        | inl e ↦ rw (insert_new id req p c s e) (creates q (new_task s.working.next_id req p c))
        | inr (u, e) ↦ rw (insert_taken id req p c s u e) r
      ]

  insert_task-RenderReach :
      (others : Option RenderDb) (p : VideoProject) (c : VideoScene)
      → ((w : RenderDb) → others ≡ some w → RenderReach d w)
      → RenderReach d
          (insert_task others id req p c (record { committed = d; working = d })).1.committed
  unfolding insert_task
  insert_task-RenderReach none p c fair =
      insert_alone-RenderReach p c (record { committed = d; working = d }) here here
  insert_task-RenderReach (some w) p c fair =
      insert_alone-RenderReach p c (record { committed = w; working = w }) (fair w refl)
        (fair w refl)

  reuse_task-kept :
      (others : Option RenderDb) (o : Option VideoRenderTask) (s : Session RenderDb)
      → (reuse_task others id req o s).1 ≡ s
  reuse_task-kept others none s = refl
  reuse_task-kept others (some t) s = elim (Bool-cases (other_request id req t)) [
    | inl e ↦ rw e refl
    | inr e ↦ rw e refl
  ]

  concurrent_task-RenderReach :
      (others : Option RenderDb) (s : Session RenderDb)
      → RenderReach d s.committed
      → RenderReach d (concurrent_task others id req s).1.committed
  unfolding concurrent_task
  concurrent_task-RenderReach others s r =
      let back : Session RenderDb = record { committed = s.committed; working = s.committed } in
      subst (λ (x : Session RenderDb). RenderReach d x.committed)
        (sym (
          reuse_task-kept others (task_by_idempotency_key req.idempotency_key s.committed.tasks)
            back))
        r

  handled-RenderReach :
      (others : Option RenderDb) (r : Result (VideoRenderTask × Bool)) (s : Session RenderDb)
      → RenderReach d s.committed
      → RenderReach d (handled (concurrent_task others id req) r s).1.committed
  handled-RenderReach others (ok a) s q = q
  handled-RenderReach others (err integrity) s q = concurrent_task-RenderReach others s q
  handled-RenderReach others (err (app m c)) s q = q
  handled-RenderReach others (err validation) s q = q
  handled-RenderReach others (err runtime) s q = q

  with_scene-RenderReach :
      (others : Option RenderDb) (ps : Result (VideoProject × VideoScene))
      → ((w : RenderDb) → others ≡ some w → RenderReach d w)
      → RenderReach d (request (with_scene others id req ps) d).1
  with_scene-RenderReach others (err e) fair = here
  with_scene-RenderReach others (ok (p, c)) fair =
      elim (Option-cases (task_by_idempotency_key req.idempotency_key d.tasks)) [
        | inl e ↦
            let made = insert_task others id req p c (record { committed = d; working = d }) in
            rw (e, request, reuse_or_insert)
              (handled-RenderReach others made.0 made.1 (insert_task-RenderReach others p c fair))
        | inr (u, e) ↦
            rw (e, request, reuse_or_insert)
              (subst (λ (x : Session RenderDb). RenderReach d x.committed)
                (sym (reuse_task-kept others (some u) (record { committed = d; working = d })))
                here)
      ]

module _ (int_of : Json → Option ℕ) (projects : List VideoProject) (d : RenderDb) where
  creation-RenderReach :
      (met : Option RenderDb) (project : ℕ) (req : VideoRenderTaskCreate)
      → ((w : RenderDb) → met ≡ some w → RenderReach d w)
      → RenderReach d (request (create_render_task_with_reuse int_of met projects project req) d).1
  unfolding create_render_task_with_reuse
  creation-RenderReach met project req fair =
      with_scene-RenderReach project req d met (scene_of int_of projects project req.scene_sequence)
        fair

  -- If what other sessions do while `submit` and `refresh` wait for the provider, and before the
  -- row of a new task is inserted, is made of steps of `create`, `submit`, `refresh` and
  -- `transition_status`, then so is what `submit`, `refresh` and `create_render_task_with_reuse`
  -- each leave as a whole, on every branch and for every answer of the provider and of the storage.
  pub render_calls-RenderReach :
      (c : Settings) (id : ℕ) (others : RenderDb → RenderDb) (saved : Persisted)
      (sent : Reply VisualTaskSubmission) (seen : Reply VisualTaskSnapshot) (met : Option RenderDb)
      (project : ℕ) (req : VideoRenderTaskCreate)
      → ((e : RenderDb) → RenderReach e (others e))
      → ((w : RenderDb) → met ≡ some w → RenderReach d w)
      → RenderReach d (request (submit c others sent id) d).1
        × RenderReach d (request (refresh c others saved seen id) d).1
        × RenderReach d
            (request (create_render_task_with_reuse int_of met projects project req) d).1
  render_calls-RenderReach c id others saved sent seen met project req fair first =
      let (a, b) = provider_calls-RenderReach c id d others saved sent seen fair in
      (a, b, creation-RenderReach met project req first)
