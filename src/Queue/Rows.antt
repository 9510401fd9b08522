-- ===== src/Queue/Rows.antt =====
-- Each write to one row keeps the row's constraints, follows the diagram, and starts no run.
use social_pilot_ai.Base.{
  ℕ, ◌≤◌, ◌≡◌, refl, sym, subst, ap, [], inl, inr, Bool, true, false, Option, none, some,
  Bool-cases, is_some, All, ◌⊎◌, ◌∙◌, arith,
}
use social_pilot_ai.Queue.Types.{JobStatus, ExecutionAttempt, ExecutionJob, is_running}
use social_pilot_ai.Queue.Repository.{latest_attempt, put_attempt, has_expired_lease}
use social_pilot_ai.Queue.Requests.{
  HeartbeatRequest, CompleteRequest, FailRequest, UnknownRequest, valid_complete,
}
use social_pilot_ai.Queue.Leases.{
  lost_attempt, lose_latest, recovered_job, recover_job, recover_if_expired, beat, completed,
  failed_job, unknown_job,
}
use social_pilot_ai.Queue.Attempts.{
  Numbered, AttemptOk, is_running_attempt, latest-number, latest-none, Numbered-put, AttemptOk-put,
}
use social_pilot_ai.Queue.Lifecycle.{◌⟶◌, ◌⟶*◌, here, then_, is_final, Advances, Advances-refl}
use social_pilot_ai.Queue.Lifecycle
use social_pilot_ai.Queue.Invariant.{JobOk}

pub record Change (j k : ExecutionJob) : Type 0 where
  pub ok : JobOk k
  pub advances : Advances j k
  pub no_new_run : is_running k.status ≡ true → is_running j.status ≡ true

pub Change-refl : (j : ExecutionJob) → JobOk j → Change j j
Change-refl j h = record { ok = h; advances = Advances-refl j; no_new_run = λ r. r }

edge : {s t u : JobStatus} → s ≡ t → t ⟶ u → s ⟶* u
edge {u = u} e p = subst (λ x. x ⟶* u) (sym e) (then_ p here)

-- A row that leaves a status which is not final, along an edge, and keeps what is fixed.
along :
    (j k : ExecutionJob) (s t : JobStatus)
    → j.status ≡ s
    → k.status ≡ t
    → s ⟶ t
    → is_final s ≡ false
    → k.id ≡ j.id
    → k.spec ≡ j.spec
    → j.attempt_count ≤ k.attempt_count
    → (is_some j.submitted_at ≡ true → k.submitted_at ≡ j.submitted_at)
    → Advances j k
along j k s t e f p open' i sp c sub = record {
  same_id = i;
  same_spec = sp;
  path = subst (λ x. j.status ⟶* x) (sym f) (edge e p);
  counted = c;
  submission_kept = sub;
  frozen = ground arith;
}

module _ (j : ExecutionJob) (h : JobOk j) where
  pub paused-Change :
      j.status ≡ JobStatus.queued → Change j (record j { status = JobStatus.paused })
  paused-Change e = record {
    ok = ground (arith, h);
    advances = along j _ _ _ e refl Lifecycle.pause refl refl refl (omega arith) (λ s. refl);
    no_new_run = ground arith;
  }

  pub resumed-Change :
      j.status ≡ JobStatus.paused → Change j (record j { status = JobStatus.queued })
  resumed-Change e = record {
    ok = ground (arith, h);
    advances = along j _ _ _ e refl Lifecycle.resume refl refl refl (omega arith) (λ s. refl);
    no_new_run = ground arith;
  }

  pub cancelled-Change :
      (now : ℕ)
      → (j.status ≡ JobStatus.queued) ⊎ (j.status ≡ JobStatus.paused)
      → Change j (record j { status = JobStatus.cancelled; completed_at = some now })
  cancelled-Change now (inl e) = record {
    ok = ground (arith, h);
    advances =
        along j _ _ _ e refl Lifecycle.cancel_queued refl refl refl (omega arith) (λ s. refl);
    no_new_run = ground arith;
  }
  cancelled-Change now (inr e) = record {
    ok = ground (arith, h);
    advances =
        along j _ _ _ e refl Lifecycle.cancel_paused refl refl refl (omega arith) (λ s. refl);
    no_new_run = ground arith;
  }

  pub retried-Change :
      j.status ≡ JobStatus.failed
      → Change j (record j {
        status = JobStatus.queued;
        safe_error_code = none;
        safe_error_details = none;
        completed_at = none;
      })
  retried-Change e = record {
    ok = ground (arith, h);
    advances = along j _ _ _ e refl Lifecycle.retry refl refl refl (omega arith) (λ s. refl);
    no_new_run = ground arith;
  }

-- The latest attempt of a running job is the one that runs.
module _ (j : ExecutionJob) (h : JobOk j) (a : ExecutionAttempt) where
  pub latest_is_current : latest_attempt j.attempts ≡ some a → a.attempt_number ≡ j.attempt_count
  latest_is_current e = latest-number 0 j.attempts j.attempt_count a h.numbered e

  module _ (e : j.status ≡ JobStatus.running) (l : latest_attempt j.attempts ≡ some a) where
    -- A job that ends, with its attempt rewritten.
    ended :
        (b : ExecutionAttempt)
        → b.attempt_number ≡ a.attempt_number
        → is_running_attempt b.status ≡ false
        → All (AttemptOk false j.attempt_count) (put_attempt b j.attempts)
    ended b n r =
        let live : All (AttemptOk true j.attempt_count) j.attempts =
          subst (λ s. All (AttemptOk (is_running s) j.attempt_count) j.attempts) e h.live_attempt in
        AttemptOk-put true j.attempt_count false b j.attempts (n ∙ latest_is_current l)
          (ground arith) live

    -- A job that goes on, with its attempt rewritten.
    still_running :
        (b : ExecutionAttempt)
        → b.attempt_number ≡ a.attempt_number
        → is_running_attempt b.status ≡ true
        → All (AttemptOk (is_running j.status) j.attempt_count) (put_attempt b j.attempts)
    still_running b n r =
        AttemptOk-put (is_running j.status) j.attempt_count (is_running j.status) b j.attempts
          (n ∙ latest_is_current l) (ground (arith, e, latest_is_current l)) h.live_attempt

    pub beat-Change :
        (now : ℕ) (req : HeartbeatRequest)
        → is_running_attempt a.status ≡ true
        → Change j (beat now req j a)
    unfolding beat
    beat-Change now req r = record {
      ok = record {
        capped = h.capped;
        some_attempts = h.some_attempts;
        uncertain_status = h.uncertain_status;
        owner_while_running = h.owner_while_running;
        expiry_while_running = ground (arith, e);
        result_paired = h.result_paired;
        result_positive = h.result_positive;
        result_of_success = h.result_of_success;
        numbered = Numbered-put _ 0 j.attempts j.attempt_count h.numbered;
        live_attempt = still_running _ refl r;
        claimed = h.claimed;
      };
      advances = record {
        same_id = refl;
        same_spec = refl;
        path = here;
        counted = omega arith;
        submission_kept = ground arith;
        frozen = ground (arith, e);
      };
      no_new_run = λ x. x;
    }

    pub completed-Change :
        (now : ℕ) (req : CompleteRequest)
        → valid_complete req ≡ true
        → Change j (completed now req j a)
    unfolding completed valid_complete
    completed-Change now req v = record {
      ok = record {
        capped = h.capped;
        some_attempts = h.some_attempts;
        uncertain_status = refl;
        owner_while_running = refl;
        expiry_while_running = refl;
        result_paired = ground arith;
        result_positive = ground arith;
        result_of_success = λ x. refl;
        numbered = Numbered-put _ 0 j.attempts j.attempt_count h.numbered;
        live_attempt = ended _ refl refl;
        claimed = ground arith;
      };
      advances =
          along j _ _ _ e refl Lifecycle.complete refl refl refl (omega arith) (ground arith);
      no_new_run = ground arith;
    }

    pub failed_job-Change : (now : ℕ) (req : FailRequest) → Change j (failed_job now req j a)
    unfolding failed_job
    failed_job-Change now req = record {
      ok = record {
        capped = h.capped;
        some_attempts = h.some_attempts;
        uncertain_status = refl;
        owner_while_running = refl;
        expiry_while_running = refl;
        result_paired = h.result_paired;
        result_positive = h.result_positive;
        result_of_success = ground (arith, h);
        numbered = Numbered-put _ 0 j.attempts j.attempt_count h.numbered;
        live_attempt = ended _ refl refl;
        claimed = ground arith;
      };
      advances = along j _ _ _ e refl Lifecycle.fail refl refl refl (omega arith) (ground arith);
      no_new_run = ground arith;
    }

    pub unknown_job-Change : (now : ℕ) (req : UnknownRequest) → Change j (unknown_job now req j a)
    unfolding unknown_job
    unknown_job-Change now req = record {
      ok = record {
        capped = h.capped;
        some_attempts = h.some_attempts;
        uncertain_status = refl;
        owner_while_running = refl;
        expiry_while_running = refl;
        result_paired = h.result_paired;
        result_positive = h.result_positive;
        result_of_success = ground (arith, h);
        numbered = Numbered-put _ 0 j.attempts j.attempt_count h.numbered;
        live_attempt = ended _ refl refl;
        claimed = ground arith;
      };
      advances = along j _ _ _ e refl Lifecycle.lose refl refl refl (omega arith) (ground arith);
      no_new_run = ground arith;
    }

-- Recovery of a running row. The three outcomes differ in the status and in `uncertain`.
module _ (j : ExecutionJob) (h : JobOk j) (e : j.status ≡ JobStatus.running) where
  lost_attempts :
      (now : ℕ) (external : Bool) (o : Option ExecutionAttempt)
      → latest_attempt j.attempts ≡ o
      → Numbered 0 (lose_latest now external o j.attempts) j.attempt_count
        × All (AttemptOk false j.attempt_count) (lose_latest now external o j.attempts)
  unfolding lost_attempt
  lost_attempts now external none l =
      let empty : Numbered 0 [] j.attempt_count =
        subst (λ x. Numbered 0 x j.attempt_count) (latest-none j.attempts l) h.numbered in
      absurd (omega (arith, h.claimed (ap is_running e)))
  lost_attempts now true (some a) l =
      (Numbered-put _ 0 j.attempts j.attempt_count h.numbered, ended j h a e l _ refl refl)
  lost_attempts now false (some a) l =
      (Numbered-put _ 0 j.attempts j.attempt_count h.numbered, ended j h a e l _ refl refl)

  recovered_job-Change :
      (now : ℕ) (external again : Bool) → Change j (recovered_job now external again j)
  unfolding recovered_job
  recovered_job-Change now true again =
      let (n, l) = lost_attempts now true (latest_attempt j.attempts) refl in
      record {
        ok = record {
          capped = h.capped;
          some_attempts = h.some_attempts;
          uncertain_status = refl;
          owner_while_running = refl;
          expiry_while_running = refl;
          result_paired = h.result_paired;
          result_positive = h.result_positive;
          result_of_success = ground (arith, h);
          numbered = n;
          live_attempt = l;
          claimed = ground arith;
        };
        advances = along j _ _ _ e refl Lifecycle.lose refl refl refl (omega arith) (λ s. refl);
        no_new_run = ground arith;
      }
  recovered_job-Change now false true =
      let (n, l) = lost_attempts now false (latest_attempt j.attempts) refl in
      record {
        ok = record {
          capped = h.capped;
          some_attempts = h.some_attempts;
          uncertain_status = refl;
          owner_while_running = refl;
          expiry_while_running = refl;
          result_paired = h.result_paired;
          result_positive = h.result_positive;
          result_of_success = ground (arith, h);
          numbered = n;
          live_attempt = l;
          claimed = ground arith;
        };
        advances = along j _ _ _ e refl Lifecycle.requeue refl refl refl (omega arith) (λ s. refl);
        no_new_run = ground arith;
      }
  recovered_job-Change now false false =
      let (n, l) = lost_attempts now false (latest_attempt j.attempts) refl in
      record {
        ok = record {
          capped = h.capped;
          some_attempts = h.some_attempts;
          uncertain_status = refl;
          owner_while_running = refl;
          expiry_while_running = refl;
          result_paired = h.result_paired;
          result_positive = h.result_positive;
          result_of_success = ground (arith, h);
          numbered = n;
          live_attempt = l;
          claimed = ground arith;
        };
        advances = along j _ _ _ e refl Lifecycle.fail refl refl refl (omega arith) (λ s. refl);
        no_new_run = ground arith;
      }

  pub recover_job-Change : (now : ℕ) → Change j (recover_job now j)
  unfolding recover_job
  recover_job-Change now = recovered_job-Change now _ _

pub recover_if_expired-Change :
    (now : ℕ) (j : ExecutionJob) → JobOk j → Change j (recover_if_expired now j)
unfolding recover_if_expired
recover_if_expired-Change now j h = elim (Bool-cases (has_expired_lease now j)) [
  | inl e ↦ rw e (recover_job-Change j h (unfold has_expired_lease in ground arith) now)
  | inr e ↦ rw e (Change-refl j h)
]
