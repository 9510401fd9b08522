-- ===== src/Queue/Calls.antt =====
-- Every call of the service keeps a session good, whether it answers or raises: the controls,
-- and the calls of the worker that holds a lease.
use social_pilot_ai.Base.{
  ℕ, ◌≡◌, refl, sym, subst, inl, inr, Bool, true, false, not, ◌||◌, some, if◌then◌else◌,
  Option-cases, leb, arith,
}
use social_pilot_ai.Action.{Session, Error, Result, ok, err, raise_if, or_raise, ◌>>=◌, Ends}
use social_pilot_ai.Queue.Types.{ExecutionJob, Db, is_queued, is_paused, is_failed, is_cancelled}
use social_pilot_ai.Queue.Repository.{get_job}
use social_pilot_ai.Queue.Service.{Run, get, pause, resume, cancel, retry}
use social_pilot_ai.Queue.Leases.{recover, recover_expired_leases}
use social_pilot_ai.Queue.Invariant.{DbOk, JobOk, get_job-id, All-get_job}
use social_pilot_ai.Queue.Rows.{paused-Change, resumed-Change, cancelled-Change, retried-Change}
use social_pilot_ai.Queue.Sound.{Good, Good-both, save-Good, recover_expired_leases-Good}

-- A row that a call has read.
pub record Found (s : Session Db) (j : ExecutionJob) : Type 0 where
  pub row : get_job j.id s.working.jobs ≡ some j
  pub row_ok : JobOk j

pub found :
    (s : Session Db) (id : ℕ) (j : ExecutionJob)
    → DbOk s.working
    → get_job id s.working.jobs ≡ some j
    → Found s j
found s id j h e = record {
  row = subst (λ n. get_job n s.working.jobs ≡ some j) (sym (get_job-id id s.working.jobs j e)) e;
  row_ok = All-get_job JobOk id s.working.jobs j h.rows e;
}

module _ (start : Db) (s : Session Db) where
  module _ {A : Type 0} where
    pub get-bind :
        (id : ℕ) (f : ExecutionJob → Run A)
        → Good start s
        → ((j : ExecutionJob) → Found s j → Good start (f j s).1)
        → Good start ((get id >>= f) s).1
    unfolding get
    get-bind id f h k = elim (Option-cases (get_job id s.working.jobs)) [
      | inl e ↦ rw (e, or_raise) h
      | inr (j, e) ↦ rw (e, or_raise) (k j (found s id j h.working_sound.ok_db e))
    ]

    pub raise_if-bind :
        (b : Bool) (e : Error) (f : Unit {0} → Run A)
        → Good start s
        → (b ≡ false → Good start (f tt s).1)
        → Good start ((raise_if b e >>= f) s).1
    raise_if-bind true e f h k = h
    raise_if-bind false e f h k = k refl

    pub if-either :
        (b : Bool) (m n : Run A)
        → Good start (m s).1
        → (b ≡ false → Good start (n s).1)
        → Good start ((if b then m else n) s).1
    if-either true m n h k = h
    if-either false m n h k = k refl

module _ {A B : Type 0} (s : Session Db) where
  -- A call of which the outcomes are known, and what follows it.
  pub bind-Ends :
      (m : Run A) (f : A → Run B) (Q : A → Session Db → Type 0) (R : B → Session Db → Type 0)
      (E : Session Db → Type 0)
      → Ends Q E (m s)
      → ((a : A) (s' : Session Db) → Q a s' → Ends R E (f a s'))
      → Ends R E ((m >>= f) s)
  bind-Ends m f Q R E e k = go (m s) e
    where
      go : (r : Result A × Session Db) → Ends Q E r → Ends R E (◌>>=◌ (λ _. r) f s)
      go (ok a, s') q = k a s' q
      go (err x, s') g = g

module _ (start : Db) (id : ℕ) (s : Session Db) (h : Good start s) where
  pub pause-Good : Good start (pause id s).1
  unfolding pause
  pause-Good = get-bind start s id _ h λ j f. if-either start s (is_paused j.status) _ _ h λ p.
      raise_if-bind start s (not (is_queued j.status)) _ _ h
        λ q. save-Good start s j _ h f.row (paused-Change j f.row_ok (ground arith))

  pub resume-Good : Good start (resume id s).1
  unfolding resume
  resume-Good = get-bind start s id _ h λ j f. if-either start s (is_queued j.status) _ _ h λ p.
      raise_if-bind start s (not (is_paused j.status)) _ _ h
        λ q. save-Good start s j _ h f.row (resumed-Change j f.row_ok (ground arith))

  pub cancel-Good : (now : ℕ) → Good start (cancel now id s).1
  unfolding cancel
  cancel-Good now = get-bind start s id _ h λ j f.
      if-either start s (is_cancelled j.status) _ _ h λ p.
        raise_if-bind start s (not (is_queued j.status || is_paused j.status)) _ _ h
          λ q. save-Good start s j _ h f.row (cancelled-Change j f.row_ok now (ground arith))

  pub retry-Good : Good start (retry id s).1
  unfolding retry
  retry-Good = get-bind start s id _ h λ j f.
      raise_if-bind start s (not (is_failed j.status) || j.uncertain) _ _ h λ p.
        raise_if-bind start s (leb j.max_attempts j.attempt_count) _ _ h
          λ q. save-Good start s j _ h f.row (retried-Change j f.row_ok (ground arith))

pub recover-Good :
    (start : Db) (now : ℕ) (s : Session Db) → Good start s → Good start (recover now s).1
unfolding recover recover_expired_leases
recover-Good start now s h = Good-both (recover_expired_leases-Good start now s h).working_sound
