-- ===== src/Queue/System.antt =====
-- The service as its clients see it, backend/app/api/v1/routes/execution_jobs.py: every call is
-- validated and runs in a session of its own, and only what it commits is left. Calls of any
-- number of workers and users follow one another in any order.
use social_pilot_ai.Base.{
  ℕ, ◌≡◌, refl, Bool, true, false, not, List, [], ◌∷◌, Text, codes, text_eq, any_of, map,
}
use social_pilot_ai.Action.{
  Session, Result, ok, err, app, validation, pure, raise_if, request, continue, ◌>>◌,
}
use social_pilot_ai.Queue.Types.{Db}
use social_pilot_ai.Queue.Requests.{
  CreateRequest, ClaimRequest, HeartbeatRequest, CompleteRequest, FailRequest, UnknownRequest,
  valid_create, valid_lease, valid_claim, valid_complete, valid_fail, valid_unknown,
}
use social_pilot_ai.Queue.Service.{Run, pause, resume, cancel, retry}
use social_pilot_ai.Queue.Leases.{heartbeat, complete, fail, mark_submit_unknown, recover}
use social_pilot_ai.Queue.Claim.{Flush, Created, create, claim}
use social_pilot_ai.Queue.Lifecycle.{Evolves-trans}
use social_pilot_ai.Queue.Invariant.{DbOk}
use social_pilot_ai.Queue.Sound.{Sound, Sound-refl, Good, Good-both}
use social_pilot_ai.Queue.Calls.{
  raise_if-bind, pause-Good, resume-Good, cancel-Good, retry-Good, recover-Good,
}
use social_pilot_ai.Queue.Granted.{
  heartbeat-Good, complete-Good, fail-Good, mark_submit_unknown-Good,
}
use social_pilot_ai.Queue.Claiming.{FlushOk, create-Good, claim-Good}

-- The job types that the route refuses: their jobs are created by endpoints of their own.
abbrev business_job_types : List Text
business_job_types = map codes (
    "qwen.strategy.generate.v1" ∷ "qwen.copy_matrix.generate.v1" ∷ "youtube.publish.submit.v1"
    ∷ "youtube.publish.refresh.v1" ∷ "qwen.video_project.generate.v1"
    ∷ "qwen.video_script.generate.v1" ∷ "wanx.video_render.submit.v1"
    ∷ "wanx.video_render.refresh.v1" ∷ "instagram.publish.submit.v1"
    ∷ "instagram.publish.refresh.v1" ∷ "instagram.publish.finalize.v1"
    ∷ "tiktok.publish.creator_info.v1" ∷ "tiktok.publish.submit.v1" ∷ "tiktok.publish.refresh.v1"
    ∷ "video.composition.render.v1" ∷ "video.composition.enhance.v1" ∷ [])

-- `create_execution_job`
unfoldable create_execution_job : Flush → ℕ → CreateRequest → Run Created
create_execution_job flush now req = do
  raise_if (any_of (λ t. text_eq t req.job_type) business_job_types)
      (app "Provider jobs must use their confirmed business enqueue endpoint" 409)
  create flush now req

-- A call of the API, with the clock and what the flush meets where that matters; `create_job` is
-- a call of `create` by an endpoint that enqueues jobs, `post_job` one by the route for all types.
pub data Call : Type 0 where
  create_job post_job : Flush → ℕ → CreateRequest → Call
  pause_job resume_job retry_job : ℕ → Call
  cancel_job : ℕ → ℕ → Call
  claim_job : (ℕ → ℕ) → (ℕ → Flush) → ClaimRequest → Call
  heartbeat_job : ℕ → ℕ → HeartbeatRequest → Call
  complete_job : ℕ → ℕ → CompleteRequest → Call
  fail_job : ℕ → ℕ → FailRequest → Call
  unknown_job_call : ℕ → ℕ → UnknownRequest → Call
  recover_leases : ℕ → Call

-- Validation, the call, and its answer left out.
abbrev pub checked : {A : Type 0} → Bool → Run A → Run (Unit {0})
checked valid m = do raise_if (not valid) validation; m; pure tt

unfoldable pub handle : (Text → Text) → Call → Run (Unit {0})
unfolding create_execution_job
handle sha256 (create_job flush now req) = checked (valid_create req) (create flush now req)
handle sha256 (post_job flush now req) =
    checked (valid_create req) (create_execution_job flush now req)
handle sha256 (pause_job id) = checked true (pause id)
handle sha256 (resume_job id) = checked true (resume id)
handle sha256 (retry_job id) = checked true (retry id)
handle sha256 (cancel_job now id) = checked true (cancel now id)
handle sha256 (claim_job clock flush req) = checked (valid_claim req) (claim sha256 clock flush req)
handle sha256 (heartbeat_job now id req) =
    checked (valid_lease req.lease) (heartbeat sha256 now id req)
handle sha256 (complete_job now id req) = checked (valid_complete req) (complete sha256 now id req)
handle sha256 (fail_job now id req) = checked (valid_fail req) (fail sha256 now id req)
handle sha256 (unknown_job_call now id req) =
    checked (valid_unknown req) (mark_submit_unknown sha256 now id req)
handle sha256 (recover_leases now) = checked true (recover now)

-- The table that a call leaves.
unfoldable pub serve : (Text → Text) → Call → Db → Db
unfolding handle
serve sha256 call d = (request (handle sha256 call) d).1

-- What other sessions commit during a call follows from the table at its start.
abbrev pub Fair : Db → Call → Type 0
Fair d (create_job flush now req) = FlushOk d flush
Fair d (post_job flush now req) = FlushOk d flush
Fair d (claim_job clock flush req) = (k : ℕ) → FlushOk d (flush k)
Fair d _ = Unit

-- The tables that any calls lead to.
pub data Reach (sha256 : Text → Text) (start : Db) : Db → Type 0 where
  here : Reach sha256 start start
  next :
      {d : Db}
      → Reach sha256 start d
      → (call : Call) → Fair d call
      → Reach sha256 start (serve sha256 call d)

-- Leaving the answer out changes no session.
discard-Good :
    {A : Type 0} (start : Db) (r : Result A × Session Db)
    → Good start r.1
    → Good start (continue r.0 (λ a. pure tt) r.1).1
discard-Good start (ok a, t) g = g
discard-Good start (err e, t) g = g

checked-Good :
    {A : Type 0} (start : Db) (s : Session Db) (valid : Bool) (m : Run A)
    → Good start s
    → (valid ≡ true → Good start (m s).1)
    → Good start (checked valid m s).1
checked-Good start s true m h k = discard-Good start (m s) (k refl)
checked-Good start s false m h k = h

handle-Good :
    (sha256 : Text → Text) (start : Db) (call : Call) (s : Session Db)
    → Good start s
    → Fair start call
    → Good start (handle sha256 call s).1
unfolding handle
handle-Good sha256 start (create_job flush now req) s h f =
    checked-Good start s (valid_create req) _ h (λ v. create-Good start now req v flush s h f)
handle-Good sha256 start (post_job flush now req) s h f =
    checked-Good start s (valid_create req) (create_execution_job flush now req) h (λ v.
      raise_if-bind start s (any_of (λ t. text_eq t req.job_type) business_job_types) _ _ h
        λ r. create-Good start now req v flush s h f)
handle-Good sha256 start (pause_job id) s h f =
    checked-Good start s true (pause id) h (λ v. pause-Good start id s h)
handle-Good sha256 start (resume_job id) s h f =
    checked-Good start s true (resume id) h (λ v. resume-Good start id s h)
handle-Good sha256 start (retry_job id) s h f =
    checked-Good start s true (retry id) h (λ v. retry-Good start id s h)
handle-Good sha256 start (cancel_job now id) s h f =
    checked-Good start s true (cancel now id) h (λ v. cancel-Good start id s h now)
handle-Good sha256 start (claim_job clock flush req) s h f =
    checked-Good start s (valid_claim req) (claim sha256 clock flush req) h
      (λ v. claim-Good sha256 start req clock flush f s h)
handle-Good sha256 start (heartbeat_job now id req) s h f =
    checked-Good start s (valid_lease req.lease) _ h
      (λ v. heartbeat-Good sha256 start s h now id req)
handle-Good sha256 start (complete_job now id req) s h f =
    checked-Good start s (valid_complete req) _ h (λ v. complete-Good sha256 start s h now id req v)
handle-Good sha256 start (fail_job now id req) s h f =
    checked-Good start s (valid_fail req) _ h (λ v. fail-Good sha256 start s h now id req)
handle-Good sha256 start (unknown_job_call now id req) s h f =
    checked-Good start s (valid_unknown req) _ h
      (λ v. mark_submit_unknown-Good sha256 start s h now id req)
handle-Good sha256 start (recover_leases now) s h f =
    checked-Good start s true (recover now) h (λ v. recover-Good start now s h)

pub serve-Sound :
    (sha256 : Text → Text) (call : Call) (d : Db)
    → DbOk d
    → Fair d call
    → Sound d (serve sha256 call d)
unfolding serve
serve-Sound sha256 call d h f =
    (handle-Good sha256 d call _ (Good-both (Sound-refl d h)) f).committed_sound

-- Any calls of any clients, from a table that meets the constraints: they are met again, and each
-- row is where the diagram allows.
pub Reach-Sound :
    (sha256 : Text → Text) (start d : Db) → DbOk start → Reach sha256 start d → Sound start d
Reach-Sound sha256 start d h here = Sound-refl start h
Reach-Sound sha256 start d h (next {d = m} r call f) =
    let before = Reach-Sound sha256 start m h r in
    let step = serve-Sound sha256 call m before.ok_db f in
    record {
      ok_db = step.ok_db;
      evolves = Evolves-trans start.jobs m.jobs _ before.evolves step.evolves;
    }
