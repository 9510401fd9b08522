-- ===== src/Render/Once.antt =====
-- The steps of any sessions that create, submit, refresh and transition render tasks, in any order,
-- with every wait for the provider open to all of them.
use social_pilot_ai.Base.{ℕ, ◌≡◌, ◌≢◌, sym, subst, true, Option, [], Text, All, Pairwise}
use social_pilot_ai.Action.{request}
use social_pilot_ai.Render.Types.{
  RenderStatus, VideoRenderTask, RenderDb, VisualTaskSubmission, VisualTaskSnapshot, Reply,
  Persisted, is_refreshable,
}
use social_pilot_ai.Render.Repository.{claim_for_refresh, create}
use social_pilot_ai.Render.Execution.{
  Settings, start_submit, finish_submit, finish_refresh, transition_status,
}
use social_pilot_ai.Render.Spent.{Spent, SentOk, create-SentOk}
use social_pilot_ai.Render.Sending.{
  start_submit-SentOk, finish_submit-SentOk, claim_for_refresh-SentOk, finish_refresh-SentOk,
  transition_status-SentOk,
}

-- One step of one session; between the two parts of a submission or a refresh any others may come.
pub data RenderReach (start : RenderDb) : RenderDb → Type 0 where
  here : RenderReach start start
  creates :
      {d : RenderDb} → RenderReach start d → (t : VideoRenderTask) → RenderReach start (create t d)
  starts_submit :
      {d : RenderDb}
      → RenderReach start d
      → (c : Settings) (id : ℕ) → RenderReach start (request (start_submit c id) d).1
  finishes_submit :
      {d : RenderDb}
      → RenderReach start d
      → (c : Settings) (id : ℕ) (reply : Reply VisualTaskSubmission)
      → RenderReach start (request (finish_submit c id reply) d).1
  claims_refresh :
      {d : RenderDb}
      → RenderReach start d
      → (id : ℕ) (expected : RenderStatus) → RenderReach start (claim_for_refresh id expected d).1
  finishes_refresh :
      {d : RenderDb}
      → RenderReach start d
      → (previous : RenderStatus) (task : Text) (p : Persisted) (id : ℕ)
        (reply : Reply VisualTaskSnapshot)
      → is_refreshable previous ≡ true
      → RenderReach start (request (finish_refresh previous task p id reply) d).1
  transitions :
      {d : RenderDb}
      → RenderReach start d
      → (id : ℕ) (new : RenderStatus) (code message : Option Text)
      → RenderReach start (request (transition_status id new code message) d).1

RenderReach-SentOk : (start d : RenderDb) → SentOk start → RenderReach start d → SentOk d
RenderReach-SentOk start d h here = h
RenderReach-SentOk start d h (creates {d = e} r t) =
    create-SentOk t e (RenderReach-SentOk start e h r)
RenderReach-SentOk start d h (starts_submit {d = e} r c id) =
    start_submit-SentOk c id e (RenderReach-SentOk start e h r)
RenderReach-SentOk start d h (finishes_submit {d = e} r c id reply) =
    finish_submit-SentOk c id reply e (RenderReach-SentOk start e h r)
RenderReach-SentOk start d h (claims_refresh {d = e} r id expected) =
    claim_for_refresh-SentOk id expected e (RenderReach-SentOk start e h r)
RenderReach-SentOk start d h (finishes_refresh {d = e} r previous task p id reply q) =
    finish_refresh-SentOk previous task p id reply e q (RenderReach-SentOk start e h r)
RenderReach-SentOk start d h (transitions {d = e} r id new code message) =
    transition_status-SentOk id new code message e (RenderReach-SentOk start e h r)

-- From a database in whose history no task has been sent, however any sessions create, submit,
-- refresh and transition tasks, with anything in between while one of them waits for the provider,
-- no task is sent to the provider twice.
pub sent_once :
    (start d : RenderDb) → start.sent ≡ [] → RenderReach start d → Pairwise (λ i n. i ≢ n) d.sent
sent_once start d e r =
    (RenderReach-SentOk start d
      (record {
        spent = subst (All (Spent start.tasks)) (sym e) tt;
        once = subst (Pairwise (λ i n. i ≢ n)) (sym e) tt;
      })
      r).once
