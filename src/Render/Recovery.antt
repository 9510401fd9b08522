-- ===== src/Render/Recovery.antt =====
-- What the user may do with a render task, `build_recovery_decision` of
-- backend/app/services/video_render_operation_service.py. The message for the user is left out.
use social_pilot_ai.Base.{◌≡◌, refl, Bool, true, false, not, ◌&&◌, Option, some, none, Text}
use social_pilot_ai.Render.Types.{RenderStatus, VideoRenderTask, is_created, is_refreshable}
use social_pilot_ai.Render.Execution.{is_blank}

pub data Category : Type 0 where
  created submit_uncertain active refresh_uncertain terminal_failure : Category
  artifact_persist_failed succeeded succeeded_artifact_unavailable : Category

pub data ArtifactState : Type 0 where
  not_applicable available missing invalid : ArtifactState

pub record RecoveryDecision : Type 0 where
  pub category : Category
  pub artifact_state : ArtifactState
  pub read_only_retry_allowed : Bool
  pub continue_original_submit_allowed : Bool
  pub explicit_refresh_allowed : Bool
  pub resubmit_forbidden : Bool
  pub presentation_fallback_available : Bool
  pub automatic_action_allowed : Bool

-- A category with what it allows: to continue the original submission, to refresh.
abbrev pub decision : Category → ArtifactState → Bool → Bool → RecoveryDecision
decision category state submit refresh = record {
  category = category;
  artifact_state = state;
  read_only_retry_allowed = true;
  continue_original_submit_allowed = submit;
  explicit_refresh_allowed = refresh;
  resubmit_forbidden = not submit;
  presentation_fallback_available = true;
  automatic_action_allowed = false;
}

-- `provider_task_id_available`
abbrev pub has_provider_task : Option Text → Bool
has_provider_task none = false
has_provider_task (some t) = not (is_blank t)

abbrev pub finished_category : ArtifactState → Category
finished_category ArtifactState.available = Category.succeeded
finished_category _ = Category.succeeded_artifact_unavailable

abbrev pub active_decision : Bool → ArtifactState → RecoveryDecision
active_decision true state = decision Category.active state false true
active_decision false state = decision Category.refresh_uncertain state false false

abbrev pub created_decision : Bool → ArtifactState → RecoveryDecision
created_decision true state = decision Category.submit_uncertain state false false
created_decision false state = decision Category.created state true false

unfoldable pub decide : RenderStatus → Bool → ArtifactState → RecoveryDecision
decide RenderStatus.created known state = created_decision known state
decide RenderStatus.submitting known state = decision Category.submit_uncertain state false false
decide RenderStatus.submit_unknown known state =
    decision Category.submit_uncertain state false false
decide RenderStatus.submitted known state = active_decision known state
decide RenderStatus.pending known state = active_decision known state
decide RenderStatus.running known state = active_decision known state
decide RenderStatus.refreshing known state = decision Category.refresh_uncertain state false false
decide RenderStatus.failed known state = decision Category.terminal_failure state false false
decide RenderStatus.canceled known state = decision Category.terminal_failure state false false
decide RenderStatus.artifact_persist_failed known state =
    decision Category.artifact_persist_failed state false false
decide RenderStatus.succeeded known state = decision (finished_category state) state false false

unfoldable pub build_recovery_decision : VideoRenderTask → ArtifactState → RecoveryDecision
unfolding decide
build_recovery_decision t state = decide t.status (has_provider_task t.provider_task_id) state

decide_lem :
    (s : RenderStatus) (known : Bool) (state : ArtifactState)
    → ((decide s known state).resubmit_forbidden ≡ not (is_created s && not known))
      × ((decide s known state).continue_original_submit_allowed ≡ (is_created s && not known))
      × ((decide s known state).explicit_refresh_allowed ≡ (is_refreshable s && known))
      × ((decide s known state).automatic_action_allowed ≡ false)
unfolding decide
decide_lem RenderStatus.created true state = (refl, refl, refl, refl)
decide_lem RenderStatus.created false state = (refl, refl, refl, refl)
decide_lem RenderStatus.submitting known state = (refl, refl, refl, refl)
decide_lem RenderStatus.submit_unknown known state = (refl, refl, refl, refl)
decide_lem RenderStatus.submitted true state = (refl, refl, refl, refl)
decide_lem RenderStatus.submitted false state = (refl, refl, refl, refl)
decide_lem RenderStatus.pending true state = (refl, refl, refl, refl)
decide_lem RenderStatus.pending false state = (refl, refl, refl, refl)
decide_lem RenderStatus.running true state = (refl, refl, refl, refl)
decide_lem RenderStatus.running false state = (refl, refl, refl, refl)
decide_lem RenderStatus.refreshing known state = (refl, refl, refl, refl)
decide_lem RenderStatus.failed known state = (refl, refl, refl, refl)
decide_lem RenderStatus.canceled known state = (refl, refl, refl, refl)
decide_lem RenderStatus.artifact_persist_failed known state = (refl, refl, refl, refl)
decide_lem RenderStatus.succeeded known state = (refl, refl, refl, refl)

-- A recovery decision allows continuing the original submission, and does not forbid a submission,
-- exactly for a created task without an identity at the provider; it allows a refresh exactly for a
-- submitted, pending or running task with one; it never allows an automatic action.
pub build_recovery_decision_lem :
    (t : VideoRenderTask) (state : ArtifactState)
    → let r = build_recovery_decision t state in
      let known = has_provider_task t.provider_task_id in
      (r.resubmit_forbidden ≡ not (is_created t.status && not known))
      × (r.continue_original_submit_allowed ≡ (is_created t.status && not known))
      × (r.explicit_refresh_allowed ≡ (is_refreshable t.status && known))
      × (r.automatic_action_allowed ≡ false)
unfolding build_recovery_decision
build_recovery_decision_lem t state =
    decide_lem t.status (has_provider_task t.provider_task_id) state
