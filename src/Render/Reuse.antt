-- ===== src/Render/Reuse.antt =====
-- Creating the task of a render request a second time.
use social_pilot_ai.Base.{
  ℕ, ◌≡◌, refl, sym, ap, ◌∙◌, inl, inr, Bool, true, false, Option, none, some, List, [], ◌∷◌, ◌++◌,
  text_eq_refl, text_eq_iff, Option-cases, arith, subst,
}
use social_pilot_ai.Json.{Json}
use social_pilot_ai.Action.{Session, Result, ok, err, integrity, request, try_or-ok, request-ok}
use social_pilot_ai.Render.Types.{VideoRenderTask, RenderDb}
use social_pilot_ai.Render.Repository.{create}
use social_pilot_ai.Render.Scenes.{VideoProject, VideoScene, VideoRenderTaskCreate, scene_of}
use social_pilot_ai.Render.Numbered.{TakesIntegers, scene_of-Numbered}
use social_pilot_ai.Render.Creation.{
  task_by_idempotency_key, new_task, other_request, reuse_task, insert_task, concurrent_task,
  reuse_or_insert, with_scene, create_render_task_with_reuse,
}

-- The row that the key of a request leads to, made for that request.
abbrev pub Keyed : ℕ → VideoRenderTaskCreate → VideoRenderTask → RenderDb → Type 0
Keyed id req t d =
    (task_by_idempotency_key req.idempotency_key d.tasks ≡ some t)
    × (other_request id req t ≡ false)

module _ (id : ℕ) (req : VideoRenderTaskCreate) where
  find_added :
      (k : VideoRenderTask) (ts : List VideoRenderTask)
      → k.idempotency_key ≡ req.idempotency_key
      → task_by_idempotency_key req.idempotency_key ts ≡ none
      → task_by_idempotency_key req.idempotency_key (ts ++ k ∷ []) ≡ some k
  find_added k [] same h = rw (same, text_eq_refl) refl
  find_added k (t ∷ ts) same h = ground (arith, find_added k ts same)

  reuse_task-Keyed :
      (others : Option RenderDb) (o : Option VideoRenderTask) (t : VideoRenderTask) (r : Bool)
      (s s' : Session RenderDb)
      → reuse_task others id req o s ≡ (ok (t, r), s')
      → (o ≡ some t) × (other_request id req t ≡ false) × (s ≡ s')
  reuse_task-Keyed others none t r s s' h = absurd (cc)
  reuse_task-Keyed others (some u) t r s s' h = ground (arith, h)

  -- An insertion that meets no other row of its key.
  pub insert_new :
      (p : VideoProject) (c : VideoScene) (s : Session RenderDb)
      → task_by_idempotency_key req.idempotency_key s.working.tasks ≡ none
      → let k = new_task s.working.next_id req p c in
        insert_task none id req p c s
        ≡ (ok (k, false), record { committed = create k s.working; working = create k s.working })
  unfolding insert_task
  insert_new p c s e = rw e refl

  pub insert_taken :
      (p : VideoProject) (c : VideoScene) (s : Session RenderDb) (u : VideoRenderTask)
      → task_by_idempotency_key req.idempotency_key s.working.tasks ≡ some u
      → insert_task none id req p c s ≡ (err integrity, s)
  unfolding insert_task
  insert_taken p c s u e = rw e refl

  new_task-Keyed :
      (p : VideoProject) (c : VideoScene) (d : RenderDb)
      → p.id ≡ id
      → c.sequence ≡ req.scene_sequence
      → task_by_idempotency_key req.idempotency_key d.tasks ≡ none
      → let k = new_task d.next_id req p c in Keyed id req k (create k d)
  unfolding create new_task
  new_task-Keyed p c d own same e = (
    find_added (new_task d.next_id req p c) d.tasks refl e,
    ground (arith, own, same, text_eq_refl req.resolution),
  )

  insert_alone-Keyed :
      (p : VideoProject) (c : VideoScene) (t : VideoRenderTask) (r : Bool) (s s' : Session RenderDb)
      → p.id ≡ id
      → c.sequence ≡ req.scene_sequence
      → insert_task none id req p c s ≡ (ok (t, r), s')
      → Keyed id req t s'.committed
  insert_alone-Keyed p c t r s s' own same h =
      elim (Option-cases (task_by_idempotency_key req.idempotency_key s.working.tasks)) [
        | inl e ↦
            let k = new_task s.working.next_id req p c in
            let made : (
              ok (k, false),
              record { committed = create k s.working; working = create k s.working },
            )
                ≡ (ok (t, r), s') =
              sym (insert_new p c s e) ∙ h in
            let row : k ≡ t = ground (arith, made) in
            let left : create k s.working ≡ s'.committed =
              ap (λ (x : Result (VideoRenderTask × Bool) × Session RenderDb). x.1.committed) made in
            subst (λ x. Keyed id req x s'.committed) row
              (subst (λ x. Keyed id req k x) left (new_task-Keyed p c s.working own same e))
        | inr (u, e) ↦ absurd (cc (insert_taken p c s u e, h))
      ]

  insert_task-Keyed :
      (others : Option RenderDb) (p : VideoProject) (c : VideoScene) (t : VideoRenderTask)
      (r : Bool) (s s' : Session RenderDb)
      → p.id ≡ id
      → c.sequence ≡ req.scene_sequence
      → insert_task others id req p c s ≡ (ok (t, r), s')
      → Keyed id req t s'.committed
  unfolding insert_task
  insert_task-Keyed none p c t r s s' own same h = insert_alone-Keyed p c t r s s' own same h
  insert_task-Keyed (some w) p c t r s s' own same h =
      insert_alone-Keyed p c t r (record { committed = w; working = w }) s' own same h

  concurrent_task-Keyed :
      (others : Option RenderDb) (t : VideoRenderTask) (r : Bool) (s s' : Session RenderDb)
      → concurrent_task others id req s ≡ (ok (t, r), s')
      → Keyed id req t s'.committed
  unfolding concurrent_task
  concurrent_task-Keyed others t r s s' h =
      let (found, fits, left) =
        reuse_task-Keyed others (task_by_idempotency_key req.idempotency_key s.committed.tasks) t r
          (record { committed = s.committed; working = s.committed }) s' h in
      (rw (← left) found, fits)

  reuse_or_insert-Keyed :
      (others : Option RenderDb) (p : VideoProject) (c : VideoScene) (t : VideoRenderTask)
      (r : Bool) (d : RenderDb) (s' : Session RenderDb)
      → p.id ≡ id
      → c.sequence ≡ req.scene_sequence
      → (o : Option VideoRenderTask) → task_by_idempotency_key req.idempotency_key d.tasks ≡ o
      → reuse_or_insert others id req p c o (record { committed = d; working = d })
        ≡ (ok (t, r), s')
      → Keyed id req t s'.committed
  reuse_or_insert-Keyed others p c t r d s' own same none e h =
      elim (try_or-ok (insert_task others id req p c) (concurrent_task others id req) (t, r) _ s'
        h) [
          | inl made ↦ insert_task-Keyed others p c t r _ s' own same made
          | inr (u, lost, found) ↦ concurrent_task-Keyed others t r u s' found
        ]
  reuse_or_insert-Keyed others p c t r d s' own same (some u) e h =
      let (found, fits, left) = reuse_task-Keyed others (some u) t r _ s' h in
      (rw (← left) (e ∙ found), fits)

  with_scene-Keyed :
      (others : Option RenderDb) (ps : Result (VideoProject × VideoScene)) (t : VideoRenderTask)
      (r : Bool) (d : RenderDb) (s' : Session RenderDb)
      → ((p : VideoProject) (c : VideoScene)
          → ps ≡ ok (p, c)
          → (p.id ≡ id) × (c.sequence ≡ req.scene_sequence))
      → with_scene others id req ps (record { committed = d; working = d }) ≡ (ok (t, r), s')
      → ((p : VideoProject) × (c : VideoScene) × (ps ≡ ok (p, c))) × Keyed id req t s'.committed
  with_scene-Keyed others (err e) t r d s' own h = absurd (cc)
  with_scene-Keyed others (ok (p, c)) t r d s' own h =
      let (a, b) = own p c refl in
      (
        (p, c, refl),
        reuse_or_insert-Keyed others p c t r d s' a b
            (task_by_idempotency_key req.idempotency_key d.tasks) refl h,
      )

  same_request :
      (t : VideoRenderTask)
      → other_request id req t ≡ false
      → (t.video_project_id ≡ id)
        × (t.scene_sequence ≡ req.scene_sequence)
        × (t.resolution ≡ req.resolution)
  same_request t h = ground (arith, h, text_eq_iff t.resolution req.resolution)

  -- A request whose key leads to its own row.
  again :
      (others : Option RenderDb) (p : VideoProject) (c : VideoScene) (t : VideoRenderTask)
      (d : RenderDb)
      → Keyed id req t d
      → request (with_scene others id req (ok (p, c))) d ≡ (ok (t, true), d)
  again others p c t d (found, fits) = rw (found, reuse_or_insert) (rw fits refl)

module _ (int_of : Json → Option ℕ) (takes : TakesIntegers int_of) (projects : List VideoProject)
    (id : ℕ) (req : VideoRenderTaskCreate) where
  -- Where pydantic takes integers as they are: if `create_render_task_with_reuse` answers a row,
  -- new or known, whatever another session has committed in the meantime, then the row is the one
  -- of the key and was made for the project, the scene and the resolution asked for, and the same
  -- request again answers the same row as reused and commits nothing.
  pub create_render_task_with_reuse_twice :
      (others later : Option RenderDb) (d d' : RenderDb) (t : VideoRenderTask) (r : Bool)
      → request (create_render_task_with_reuse int_of others projects id req) d ≡ (ok (t, r), d')
      → (task_by_idempotency_key req.idempotency_key d'.tasks ≡ some t)
        × (t.video_project_id ≡ id)
        × (t.scene_sequence ≡ req.scene_sequence)
        × (t.resolution ≡ req.resolution)
        × (request (create_render_task_with_reuse int_of later projects id req) d'
            ≡ (ok (t, true), d'))
  unfolding create_render_task_with_reuse
  create_render_task_with_reuse_twice others later d d' t r h =
      let (s', e, left) =
        request-ok (with_scene others id req (scene_of int_of projects id req.scene_sequence))
          (t, r) d d' h in
      let ((p, c, named), keyed) =
        with_scene-Keyed id req others (scene_of int_of projects id req.scene_sequence) t r d s'
          (λ p c. scene_of-Numbered int_of takes projects id req.scene_sequence p c) e in
      let held : Keyed id req t d' = subst (Keyed id req t) left keyed in
      let (own, scene, size) = same_request id req t held.1 in
      (held.0, own, scene, size, rw named (again id req later p c t d' held))
