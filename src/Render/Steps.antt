-- ===== src/Render/Steps.antt =====
-- `submit` of backend/app/services/video_render_execution_service.py as a whole, beside its steps.
use social_pilot_ai.Base.{
  ℕ, ◌≡◌, refl, subst, inl, inr, true, Option, some, none, Bool-cases, Option-cases, ◌∷◌, Text,
  arith,
}
use social_pilot_ai.Action.{request, or_raise}
use social_pilot_ai.Render.Types.{
  RenderStatus, VideoRenderTask, VisualTaskSubmission, VisualTaskSnapshot, Persisted, Reply,
  RenderDb, is_terminal, is_refreshable,
}
use social_pilot_ai.Render.Repository.{
  get_task, set_columns, submittable, holds_of, with_status, claim_for_submission,
  claim_for_refresh, claim_where,
}
use social_pilot_ai.Render.Execution.{
  Settings, is_enabled, claimed_or, start_submit, submit, refresh, refresh_claimed,
}
use social_pilot_ai.Render.Once.{
  RenderReach, here, creates, starts_submit, finishes_submit, claims_refresh, finishes_refresh,
  transitions,
}

RenderReach-trans : {d e f : RenderDb} → RenderReach d e → RenderReach e f → RenderReach d f
RenderReach-trans r here = r
RenderReach-trans r (creates q t) = creates (RenderReach-trans r q) t
RenderReach-trans r (starts_submit q c id) = starts_submit (RenderReach-trans r q) c id
RenderReach-trans r (finishes_submit q c id reply) =
    finishes_submit (RenderReach-trans r q) c id reply
RenderReach-trans r (claims_refresh q id expected) =
    claims_refresh (RenderReach-trans r q) id expected
RenderReach-trans r (finishes_refresh q previous task p id reply h) =
    finishes_refresh (RenderReach-trans r q) previous task p id reply h
RenderReach-trans r (transitions q id new code message) =
    transitions (RenderReach-trans r q) id new code message

module _ (c : Settings) (id : ℕ) (d : RenderDb) where
  -- The database at the call of the provider.
  abbrev called : RenderDb
  called =
      let e = set_columns id (with_status RenderStatus.submitting none none) d in
      record e { sent = id ∷ e.sent }

  started :
      (t : VideoRenderTask)
      → is_enabled c ≡ true
      → get_task id d.tasks ≡ some t
      → submittable t ≡ true
      → (request (start_submit c id) d).1 ≡ called
  unfolding start_submit claim_for_submission claim_where
  started t on row can =
      let hit : holds_of submittable (get_task id d.tasks) ≡ true = ground (arith, row, can) in
      rw on (rw (row, request, or_raise) (rw can (rw (hit, claimed_or) refl)))

  -- If what other sessions do while `submit` waits for the provider is made of steps of `create`,
  -- `submit`, `refresh` and `transition_status`, then so is what `submit` leaves as a whole, on
  -- every branch and for every answer of the provider.
  pub submit-RenderReach :
      (others : RenderDb → RenderDb) (reply : Reply VisualTaskSubmission)
      → ((e : RenderDb) → RenderReach e (others e))
      → RenderReach d (request (submit c others reply id) d).1
  unfolding submit start_submit claim_for_submission claim_where
  submit-RenderReach others reply fair = elim (Bool-cases (is_enabled c)) [
    | inr e ↦ rw e here
    | inl e ↦ rw e (elim (Option-cases (get_task id d.tasks)) [
      | inl g ↦ rw (g, request, or_raise) here
      | inr (t, g) ↦
          rw (g, request, or_raise)
            (elim (Bool-cases (submittable t)) [
              | inr f ↦ rw f here
              | inl f ↦
                  let hit : holds_of submittable (get_task id d.tasks) ≡ true =
                    ground (arith, g, f) in
                  rw f (
                    rw (hit, claimed_or)
                      (finishes_submit
                        (RenderReach-trans
                          (subst (RenderReach d) (started t e g f) (starts_submit here c id))
                          (fair called))
                        c id reply))
            ])
    ])
  ]

  refresh_claimed-RenderReach :
      (others : RenderDb → RenderDb) (saved : Persisted) (reply : Reply VisualTaskSnapshot)
      → ((e : RenderDb) → RenderReach e (others e))
      → (previous : RenderStatus) (task : Option Text) → is_refreshable previous ≡ true
      → RenderReach d (request (refresh_claimed previous task others saved reply id) d).1
  refresh_claimed-RenderReach others saved reply fair previous none k = here
  refresh_claimed-RenderReach others saved reply fair previous (some task) k =
      elim (Bool-cases (claim_for_refresh id previous d).0) [
        | inr m ↦ rw (m, request, claimed_or) here
        | inl m ↦
            rw (m, request, claimed_or)
              (finishes_refresh
                (RenderReach-trans (claims_refresh here id previous)
                  (fair (claim_for_refresh id previous d).1))
                previous task saved id reply k)
      ]

  -- If what other sessions do while `refresh` waits for the provider is made of steps of `create`,
  -- `submit`, `refresh` and `transition_status`, then so is what `refresh` leaves as a whole, on
  -- every branch and for every answer of the provider and of the storage.
  pub refresh-RenderReach :
      (others : RenderDb → RenderDb) (saved : Persisted) (reply : Reply VisualTaskSnapshot)
      → ((e : RenderDb) → RenderReach e (others e))
      → RenderReach d (request (refresh c others saved reply id) d).1
  unfolding refresh
  refresh-RenderReach others saved reply fair = elim (Bool-cases (is_enabled c)) [
    | inr e ↦ rw e here
    | inl e ↦ rw e (elim (Option-cases (get_task id d.tasks)) [
      | inl g ↦ rw (g, request, or_raise) here
      | inr (t, g) ↦
          rw (g, request, or_raise)
            (elim (Bool-cases (is_terminal t.status)) [
              | inl f ↦ rw f here
              | inr f ↦ rw f (elim (Bool-cases (is_refreshable t.status)) [
                | inr k ↦ rw k here
                | inl k ↦ rw k (
                    refresh_claimed-RenderReach others saved reply fair t.status t.provider_task_id
                      k)
              ])
            ])
    ])
  ]

  -- If what other sessions do while `submit` and `refresh` wait for the provider is made of steps
  -- of `create`, `submit`, `refresh` and `transition_status`, then so is what each of them leaves
  -- as a whole, on every branch and for every answer of the provider and of the storage.
  pub provider_calls-RenderReach :
      (others : RenderDb → RenderDb) (saved : Persisted) (sent : Reply VisualTaskSubmission)
      (seen : Reply VisualTaskSnapshot)
      → ((e : RenderDb) → RenderReach e (others e))
      → RenderReach d (request (submit c others sent id) d).1
        × RenderReach d (request (refresh c others saved seen id) d).1
  provider_calls-RenderReach others saved sent seen fair =
      (submit-RenderReach others sent fair, refresh-RenderReach others saved seen fair)
