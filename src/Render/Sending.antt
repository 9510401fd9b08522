-- ===== src/Render/Sending.antt =====
-- Each step of a submission, a refresh and a transition, beside the tasks that have been sent.
use social_pilot_ai.Base.{
  ℕ, ◌≡◌, ◌≢◌, refl, sym, subst, inl, inr, Bool, true, false, ◌&&◌, Option, some, none, String,
  List, [], ◌∷◌, Text, All-imp, Bool-cases, Option-cases, if◌then◌else◌, arith,
}
use social_pilot_ai.Action.{Error, request, or_raise, pure, ◌>>=◌}
use social_pilot_ai.Render.Types.{
  RenderStatus, VideoRenderTask, VideoRenderArtifact, RenderDb, same_status, ProviderError,
  VisualTaskStatus, VisualTaskSubmission, VisualTaskSnapshot, Reply, answers, fails, Persisted,
  stored, artifact_error, broken, not_configured, is_created, is_refreshable, allowed,
}
use social_pilot_ai.Render.Repository.{
  get_task, put_columns, set_columns, submittable, refreshable_from, claim_where,
  claim_for_submission, claim_for_refresh, record_submission, finalize_succeeded, with_status,
  holds_of,
}
use social_pilot_ai.Render.Execution.{
  Settings, is_enabled, claimed_or, get_render_task, start_submit, finish_submit, finish_refresh,
  transition_status, submit_failure, submission_status, submission_error, is_blank, apply_snapshot,
  persist_video, refresh_error, apply_error, no_code, refreshed, take_snapshot,
}
use social_pilot_ai.Render.Spent.{
  Spent, SentOk, set_columns-SentOk, with_status-Spends, update_status-SentOk,
}

-- Two rows found under different keys, of which one is spent and one is not.
not_sent :
    (id : ℕ) (ts : List VideoRenderTask) (t : VideoRenderTask)
    → get_task id ts ≡ some t
    → is_created t.status ≡ true
    → (i : ℕ) → Spent ts i
    → id ≢ i
not_sent id ts t row fresh i (u, row', away) e =
    let same : some t ≡ some u = ground (arith, row, row', e) in ground arith

claimed_put :
    (id : ℕ) (f : VideoRenderTask → VideoRenderTask) (ts : List VideoRenderTask)
    (t : VideoRenderTask)
    → ((u : VideoRenderTask) → (f u).id ≡ u.id)
    → get_task id ts ≡ some t
    → get_task id (put_columns id f ts) ≡ some (f t)
claimed_put id f [] t same e = absurd (cc)
claimed_put id f (u ∷ ts) t same e = ground (arith, same u, claimed_put id f ts t same)

-- The claim for a submission and the call of the provider.
started :
    (id : ℕ) (d : RenderDb) (t : VideoRenderTask)
    → get_task id d.tasks ≡ some t
    → submittable t ≡ true
    → SentOk d
    → let e = set_columns id (with_status RenderStatus.submitting none none) d in
      SentOk (record e { sent = id ∷ e.sent })
started id d t row can h =
    let f = with_status RenderStatus.submitting none none in
    let e =
      set_columns-SentOk id f d (with_status-Spends RenderStatus.submitting none none refl) h in
    record {
      spent = ((f t, claimed_put id f d.tasks t (λ u. refl) row, refl), e.spent);
      once = (
        All-imp (Spent d.tasks) _ d.sent (not_sent id d.tasks t row (ground arith)) h.spent,
        e.once,
      );
    }

pub start_submit-SentOk :
    (c : Settings) (id : ℕ) (d : RenderDb) → SentOk d → SentOk (request (start_submit c id) d).1
unfolding start_submit claim_for_submission claim_where
start_submit-SentOk c id d h = elim (Bool-cases (is_enabled c)) [
  | inr e ↦ rw e h
  | inl e ↦ rw e (elim (Option-cases (get_task id d.tasks)) [
    | inl none_there ↦ rw (none_there, or_raise) h
    | inr (t, row) ↦
        rw (row, or_raise)
          (elim (Bool-cases (submittable t)) [
            | inr f ↦ rw f h
            | inl f ↦
                let hit : holds_of submittable (get_task id d.tasks) ≡ true =
                  ground (arith, row, f) in
                rw f (rw (hit, claimed_or) (started id d t row f h))
          ])
  ])
]

submission_status-away : (s : VisualTaskStatus) → is_created (submission_status s) ≡ false
submission_status-away VisualTaskStatus.pending = refl
submission_status-away VisualTaskStatus.running = refl
submission_status-away VisualTaskStatus.succeeded = refl
submission_status-away VisualTaskStatus.failed = refl
submission_status-away VisualTaskStatus.canceled = refl
submission_status-away VisualTaskStatus.unknown = refl

submit_failure-away : (b : Bool) (e : ProviderError) → is_created (submit_failure b e).0.0 ≡ false
unfolding submit_failure
submit_failure-away true ProviderError.timeout = refl
submit_failure-away false ProviderError.timeout = refl
submit_failure-away true ProviderError.connection = refl
submit_failure-away false ProviderError.connection = refl
submit_failure-away true ProviderError.authentication = refl
submit_failure-away true ProviderError.quota = refl
submit_failure-away true ProviderError.configuration = refl
submit_failure-away true ProviderError.model = refl
submit_failure-away true ProviderError.other = refl
submit_failure-away false ProviderError.authentication = refl
submit_failure-away false ProviderError.quota = refl
submit_failure-away false ProviderError.configuration = refl
submit_failure-away false ProviderError.model = refl
submit_failure-away false ProviderError.other = refl

record_submission-SentOk :
    (name task : Text) (status : RenderStatus) (code message : Option Text) (id : ℕ) (d : RenderDb)
    → is_created status ≡ false
    → SentOk d
    → SentOk (record_submission name task status code message id d)
unfolding record_submission
record_submission-SentOk name task status code message id d e h =
    set_columns-SentOk id _ d (record { same_id = λ t. refl; no_return = λ t q. e }) h

-- Reading a row back and answering leaves what is committed.
reread_leaves :
    {A : Type 0} (id : ℕ) (d : RenderDb) (f : VideoRenderTask → A)
    → (request (get_render_task id >>= λ t. pure (f t)) d).1 ≡ d
reread_leaves id d f = elim (Option-cases (get_task id d.tasks)) [
  | inl e ↦ rw (e, request, or_raise) refl
  | inr (t, e) ↦ rw (e, request, or_raise) refl
]

pub finish_submit-SentOk :
    (c : Settings) (id : ℕ) (reply : Reply VisualTaskSubmission) (d : RenderDb)
    → SentOk d
    → SentOk (request (finish_submit c id reply) d).1
unfolding finish_submit
finish_submit-SentOk c id (fails e) d h =
    update_status-SentOk _ _ _ id _ (submit_failure-away c.allow_live_demo e) (
      set_columns-SentOk id (λ t. record t { provider_name = some c.provider_name }) d
        (record { same_id = λ t. refl; no_return = λ t q. q }) h)
finish_submit-SentOk c id (answers a) d h = elim (Bool-cases (is_blank a.provider_task_id)) [
  | inl e ↦ rw e (update_status-SentOk RenderStatus.failed _ _ id d refl h)
  | inr e ↦
      let (code, message) = submission_error a.status in
      let written =
        record_submission c.provider_name a.provider_task_id (submission_status a.status) code
          message id d in
      rw e (
        subst SentOk (sym (reread_leaves id written _)) (
          record_submission-SentOk c.provider_name a.provider_task_id (submission_status a.status)
            code message id d (submission_status-away a.status) h))
]

pub claim_for_refresh-SentOk :
    (id : ℕ) (expected : RenderStatus) (d : RenderDb)
    → SentOk d
    → SentOk (claim_for_refresh id expected d).1
unfolding claim_for_refresh claim_where
claim_for_refresh-SentOk id expected d h =
    elim (Bool-cases (holds_of (refreshable_from expected) (get_task id d.tasks))) [
      | inl e ↦ rw e (
          set_columns-SentOk id (with_status RenderStatus.refreshing none none) d
            (with_status-Spends RenderStatus.refreshing none none refl) h)
      | inr e ↦ rw e h
    ]

finalize_succeeded-SentOk :
    (a : VideoRenderArtifact) (id : ℕ) (d : RenderDb)
    → SentOk d
    → SentOk (finalize_succeeded a id d)
unfolding finalize_succeeded
finalize_succeeded-SentOk a id d h =
    let e =
      set_columns-SentOk id (with_status RenderStatus.succeeded none none) d
        (with_status-Spends RenderStatus.succeeded none none refl) h in
    record { spent = e.spent; once = e.once }

persist_video-SentOk :
    (p : Persisted) (id : ℕ) (d : RenderDb) → SentOk d → SentOk (persist_video p id d)
unfolding persist_video
persist_video-SentOk (stored a) id d h = finalize_succeeded-SentOk a id d h
persist_video-SentOk (artifact_error category message) id d h =
    update_status-SentOk _ _ _ id d refl h
persist_video-SentOk broken id d h = update_status-SentOk _ _ _ id d refl h
persist_video-SentOk not_configured id d h = update_status-SentOk _ _ _ id d refl h

apply_snapshot-SentOk :
    (status : VisualTaskStatus) (p : Persisted) (id : ℕ) (d : RenderDb)
    → SentOk d
    → SentOk (apply_snapshot status p id d)
unfolding apply_snapshot
apply_snapshot-SentOk VisualTaskStatus.succeeded p id d h = persist_video-SentOk p id d h
apply_snapshot-SentOk VisualTaskStatus.failed p id d h = update_status-SentOk _ _ _ id d refl h
apply_snapshot-SentOk VisualTaskStatus.pending p id d h = update_status-SentOk _ _ _ id d refl h
apply_snapshot-SentOk VisualTaskStatus.running p id d h = update_status-SentOk _ _ _ id d refl h
apply_snapshot-SentOk VisualTaskStatus.canceled p id d h = update_status-SentOk _ _ _ id d refl h
apply_snapshot-SentOk VisualTaskStatus.unknown p id d h = update_status-SentOk _ _ _ id d refl h

refreshable-away : (s : RenderStatus) → is_refreshable s ≡ true → is_created s ≡ false
refreshable-away s e = ground arith

get_leaves : (id : ℕ) (d : RenderDb) → (request (get_render_task id) d).1 ≡ d
get_leaves id d = elim (Option-cases (get_task id d.tasks)) [
  | inl e ↦ rw (e, request, or_raise) refl
  | inr (t, e) ↦ rw (e, request, or_raise) refl
]

refreshed-leaves : (e : Option Error) (id : ℕ) (d : RenderDb) → (request (refreshed e id) d).1 ≡ d
unfolding refreshed
refreshed-leaves (some e) id d = refl
refreshed-leaves none id d = elim (Option-cases (get_task id d.tasks)) [
  | inl g ↦ rw (g, request, or_raise) refl
  | inr (t, g) ↦ rw (g, request, or_raise) refl
]

take_snapshot-SentOk :
    (previous : RenderStatus) (p : Persisted) (id : ℕ) (a : VisualTaskSnapshot) (o : Option String)
    (d : RenderDb)
    → is_refreshable previous ≡ true
    → SentOk d
    → SentOk (request (take_snapshot previous p id a o) d).1
unfolding take_snapshot
take_snapshot-SentOk previous p id a (some message) d r h =
    update_status-SentOk previous _ _ id d (refreshable-away previous r) h
take_snapshot-SentOk previous p id a none d r h =
    subst SentOk
      (sym (refreshed-leaves (apply_error a.status p) id (apply_snapshot a.status p id d)))
      (apply_snapshot-SentOk a.status p id d h)

pub finish_refresh-SentOk :
    (previous : RenderStatus) (task : Text) (p : Persisted) (id : ℕ)
    (reply : Reply VisualTaskSnapshot) (d : RenderDb)
    → is_refreshable previous ≡ true
    → SentOk d
    → SentOk (request (finish_refresh previous task p id reply) d).1
unfolding finish_refresh
finish_refresh-SentOk previous task p id (fails e) d r h =
    update_status-SentOk previous _ _ id d (refreshable-away previous r) h
finish_refresh-SentOk previous task p id (answers a) d r h =
    take_snapshot-SentOk previous p id a (refresh_error task a) d r h

allowed-away : (s t : RenderStatus) → allowed s t ≡ true → is_created t ≡ false
unfolding allowed
allowed-away s t e = ground arith

pub transition_status-SentOk :
    (id : ℕ) (new : RenderStatus) (code message : Option Text) (d : RenderDb)
    → SentOk d
    → SentOk (request (transition_status id new code message) d).1
unfolding transition_status
transition_status-SentOk id new code message d h = elim (Option-cases (get_task id d.tasks)) [
  | inl e ↦ rw (e, request, or_raise) h
  | inr (t, e) ↦
      rw (e, request, or_raise)
        (elim (Bool-cases (allowed t.status new)) [
          | inr f ↦ rw f h
          | inl f ↦
              let failed_new = same_status new RenderStatus.failed in
              rw f (elim (Bool-cases (failed_new && no_code code)) [
                | inl g ↦ rw g h
                | inr g ↦ rw g (
                    subst SentOk (sym (get_leaves id _)) (
                      update_status-SentOk new (if failed_new then code else none)
                        (if failed_new then message else none) id d (allowed-away t.status new f)
                        h))
              ])
        ])
]
