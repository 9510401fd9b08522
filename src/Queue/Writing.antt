-- ===== src/Queue/Writing.antt =====
-- The rows that the four calls of the worker that holds a lease write.
use social_pilot_ai.Base.{
  ℕ, ◌≡◌, ◌∙◌, refl, ap, sym, inl, inr, true, false, Bool-cases, Option, some, none, List, [], ◌∷◌,
  Text, arith, ◌==◌, if◌then◌else◌, ltb,
}
use social_pilot_ai.Json.{Json, Fields, field}
use social_pilot_ai.Queue.Types.{ExecutionAttempt, ExecutionJob}
use social_pilot_ai.Queue.Repository.{put_attempt, latest_attempt}
use social_pilot_ai.Queue.Requests.{HeartbeatRequest, CompleteRequest, FailRequest, UnknownRequest}
use social_pilot_ai.Queue.Service.{or_none, or_else}
use social_pilot_ai.Queue.Leases.{beat, completed, failed_job, unknown_job}
use social_pilot_ai.Queue.Written.{SameRow, SubmittedFrom, Renewed, Succeeded, FailedWith, Doubtful}

abbrev mapped : {A : Type 0} → (A → A) → Option A → Option A
mapped f none = none
mapped f (some x) = some (f x)

module _ (b : ExecutionAttempt) where
  abbrev overwritten : ExecutionAttempt → ExecutionAttempt
  overwritten a = if a.attempt_number == b.attempt_number then b else a

  same_place : (a : ExecutionAttempt) → (overwritten a).attempt_number ≡ a.attempt_number
  same_place a = elim (Bool-cases (a.attempt_number == b.attempt_number)) [
    | inl e ↦ ground (arith, e)
    | inr e ↦ rw e refl
  ]

  -- The later of an attempt and of the latest of those behind it.
  abbrev later : ExecutionAttempt → Option ExecutionAttempt → Option ExecutionAttempt
  later a o = elim o [
    | none ↦ some a
    | some c ↦ if ltb c.attempt_number a.attempt_number then some a else some c
  ]

  -- Writing an attempt keeps the order of the numbers.
  later-overwritten :
      (a : ExecutionAttempt) (o : Option ExecutionAttempt)
      → later (overwritten a) (mapped overwritten o) ≡ mapped overwritten (later a o)
  later-overwritten a none = refl
  later-overwritten a (some c) = elim (Bool-cases (ltb c.attempt_number a.attempt_number)) [
    | inl e ↦
        let f : ltb (overwritten c).attempt_number (overwritten a).attempt_number ≡ true =
          ground (arith, e, same_place c, same_place a) in
        rw f (rw e refl)
    | inr e ↦
        let f : ltb (overwritten c).attempt_number (overwritten a).attempt_number ≡ false =
          ground (arith, e, same_place c, same_place a) in
        rw f (rw e refl)
  ]

  latest-put :
      (as' : List ExecutionAttempt)
      → latest_attempt (put_attempt b as') ≡ mapped overwritten (latest_attempt as')
  latest-put [] = refl
  latest-put (a ∷ as') =
      ap (later (overwritten a)) (latest-put as') ∙ later-overwritten a (latest_attempt as')

  latest-written :
      (as' : List ExecutionAttempt) (a : ExecutionAttempt)
      → latest_attempt as' ≡ some a
      → b.attempt_number ≡ a.attempt_number
      → latest_attempt (put_attempt b as') ≡ some b
  latest-written as' a e n =
      let here : (a.attempt_number == b.attempt_number) ≡ true = ground (arith, n) in
      latest-put as' ∙ ap (mapped overwritten) e ∙ rw here refl

module _ (now : ℕ) (j : ExecutionJob) (a : ExecutionAttempt)
    (latest : latest_attempt j.attempts ≡ some a) where
  written :
      (k : ExecutionJob) (b : ExecutionAttempt)
      → k.id ≡ j.id
      → k.spec ≡ j.spec
      → k.attempt_count ≡ j.attempt_count
      → k.attempts ≡ put_attempt b j.attempts
      → b.attempt_number ≡ a.attempt_number
      → b.started_at ≡ a.started_at
      → SameRow j a k b
  written k b i s n e m t = record {
    same_id = i;
    same_spec = s;
    same_count = n;
    latest = ap latest_attempt e ∙ latest-written b j.attempts a latest m;
    same_number = m;
    same_start = t;
  }

  submitted_from :
      (k : ExecutionJob) → k.submitted_at ≡ or_else j.submitted_at now → SubmittedFrom now j k
  submitted_from k e = record { stays = λ t h. e ∙ rw h refl; begins = λ h. e ∙ rw h refl }

  pub beat-Renewed :
      (req : HeartbeatRequest) → (b : ExecutionAttempt) × Renewed now req j a (beat now req j a) b
  unfolding beat
  beat-Renewed req = (
    _,
    record {
      row = written _ _ refl refl refl refl refl refl;
      status = refl;
      owner = refl;
      until = refl;
      attempt_status = refl;
      uncounted = λ h. rw h refl;
      counted = λ n h. rw h refl;
      submission =
          λ h. (submitted_from (beat now req j a) (unfold beat in rw h refl), rw h refl, rw h refl);
      no_submission = λ h. (rw h refl, rw h refl, rw h refl);
    },
  )

  pub completed-Succeeded :
      (req : CompleteRequest)
      → (b : ExecutionAttempt) × Succeeded now req j a (completed now req j a) b
  unfolding completed
  completed-Succeeded req = (
    _,
    record {
      row = written _ _ refl refl refl refl refl refl;
      released = record { no_owner = refl; no_expiry = refl; done = refl; attempt_done = refl };
      status = refl;
      certain = refl;
      provider = refl;
      operation = refl;
      result_type = refl;
      result_id = refl;
      submission = λ o h. submitted_from (completed now req j a) (unfold completed in rw h refl);
      no_submission = λ h. rw h refl;
      attempt_status = refl;
      counted = refl;
      response = λ h. ground (arith, h);
      no_call = λ h n. rw h (rw n refl);
    },
  )

  some_details :
      (d : Fields) (f : Text) (v : Json) (fs : Fields) → d ≡ field f v fs → or_none d ≡ some d
  some_details d f v fs e = ap or_none e ∙ ap some (sym e)

  pub failed_job-FailedWith :
      (req : FailRequest)
      → (b : ExecutionAttempt) × FailedWith now req j a (failed_job now req j a) b
  unfolding failed_job
  failed_job-FailedWith req = (
    _,
    record {
      row = written _ _ refl refl refl refl refl refl;
      released = record { no_owner = refl; no_expiry = refl; done = refl; attempt_done = refl };
      status = refl;
      certain = refl;
      code = refl;
      no_details = λ h. rw h refl;
      details = some_details req.safe_error_details;
      same_submission = refl;
      attempt_status = refl;
      counted = refl;
      state = refl;
      attempt_code = refl;
      attempt_details = refl;
    },
  )

  pub unknown_job-Doubtful :
      (req : UnknownRequest)
      → (b : ExecutionAttempt) × Doubtful now req j a (unknown_job now req j a) b
  unfolding unknown_job
  unknown_job-Doubtful req = (
    _,
    record {
      row = written _ _ refl refl refl refl refl refl;
      released = record { no_owner = refl; no_expiry = refl; done = refl; attempt_done = refl };
      status = refl;
      doubt = refl;
      code = refl;
      no_details = λ h. rw h refl;
      details = some_details req.safe_error_details;
      provider = refl;
      operation = refl;
      submission = submitted_from (unknown_job now req j a) (unfold unknown_job in refl);
      attempt_status = refl;
      counted = refl;
      external = refl;
      state = refl;
      attempt_code = refl;
      attempt_details = refl;
    },
  )
