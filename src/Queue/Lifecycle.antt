-- ===== src/Queue/Lifecycle.antt =====
-- The life of a job, apart from the code: the diagram of its status, what a change of its row may
-- do, and how one state of the table follows from another.
use social_pilot_ai.Base.{
  ◌≤◌, ◌≡◌, refl, ◌∙◌, Bool, true, false, is_some, List, [], ◌∷◌, All, arith,
}
use social_pilot_ai.Queue.Types.{JobStatus, ExecutionJob}

-- One edge for each call that moves a job; `requeue`, `lose` and `give_up` are the recovery of an
-- expired lease.
infix 40 ◌⟶◌ ◌⟶*◌
pub data ◌⟶◌ : JobStatus → JobStatus → Type 0 where
  pause : JobStatus.queued ⟶ JobStatus.paused
  resume : JobStatus.paused ⟶ JobStatus.queued
  cancel_queued : JobStatus.queued ⟶ JobStatus.cancelled
  cancel_paused : JobStatus.paused ⟶ JobStatus.cancelled
  claim : JobStatus.queued ⟶ JobStatus.running
  complete : JobStatus.running ⟶ JobStatus.succeeded
  fail : JobStatus.running ⟶ JobStatus.failed
  lose : JobStatus.running ⟶ JobStatus.submit_unknown
  requeue : JobStatus.running ⟶ JobStatus.queued
  retry : JobStatus.failed ⟶ JobStatus.queued

pub data ◌⟶*◌ : JobStatus → JobStatus → Type 0 where
  here : {s : JobStatus} → s ⟶* s
  then_ : {s t u : JobStatus} → s ⟶ t → t ⟶* u → s ⟶* u

pub ⟶*-trans : {s t u : JobStatus} → s ⟶* t → t ⟶* u → s ⟶* u
⟶*-trans here q = q
⟶*-trans (then_ e p) q = then_ e (⟶*-trans p q)

-- No edge leaves these.
abbrev pub is_final : JobStatus → Bool
is_final JobStatus.succeeded = true
is_final JobStatus.submit_unknown = true
is_final JobStatus.cancelled = true
is_final _ = false

-- What any number of calls may do to one row.
pub record Advances (j k : ExecutionJob) : Type 0 where
  pub same_id : k.id ≡ j.id
  pub same_spec : k.spec ≡ j.spec
  pub path : j.status ⟶* k.status
  pub counted : j.attempt_count ≤ k.attempt_count
  pub submission_kept : is_some j.submitted_at ≡ true → k.submitted_at ≡ j.submitted_at
  pub frozen : is_final j.status ≡ true → k ≡ j

pub Advances-refl : (j : ExecutionJob) → Advances j j
Advances-refl j = record {
  same_id = refl;
  same_spec = refl;
  path = here;
  counted = omega arith;
  submission_kept = λ h. refl;
  frozen = λ h. refl;
}

pub Advances-trans : (j k l : ExecutionJob) → Advances j k → Advances k l → Advances j l
Advances-trans j k l a b = record {
  same_id = b.same_id ∙ a.same_id;
  same_spec = b.same_spec ∙ a.same_spec;
  path = ⟶*-trans a.path b.path;
  counted = omega arith;
  submission_kept = λ h. ground (arith, a.submission_kept h, b.submission_kept);
  frozen = λ h. ground (arith, a.frozen h, b.frozen);
}

-- Rows stay where they are and advance; rows are added at the end, and begin as queued.
abbrev pub Evolves : List ExecutionJob → List ExecutionJob → Type 0
Evolves [] ks = All (λ k. JobStatus.queued ⟶* k.status) ks
Evolves (j ∷ js) [] = ⊥
Evolves (j ∷ js) (k ∷ ks) = Advances j k × Evolves js ks

pub Evolves-refl : (js : List ExecutionJob) → Evolves js js
Evolves-refl [] = tt
Evolves-refl (j ∷ js) = (Advances-refl j, Evolves-refl js)

added_advance :
    (ks ls : List ExecutionJob)
    → All (λ k. JobStatus.queued ⟶* k.status) ks
    → Evolves ks ls
    → All (λ k. JobStatus.queued ⟶* k.status) ls
added_advance [] ls h e = e
added_advance (k ∷ ks) [] h e = absurd e
added_advance (k ∷ ks) (l ∷ ls) h e = (⟶*-trans h.0 e.0.path, added_advance ks ls h.1 e.1)

pub Evolves-trans : (js ks ls : List ExecutionJob) → Evolves js ks → Evolves ks ls → Evolves js ls
Evolves-trans [] ks ls a b = added_advance ks ls a b
Evolves-trans (j ∷ js) [] ls a b = absurd a
Evolves-trans (j ∷ js) (k ∷ ks) [] a b = absurd b
Evolves-trans (j ∷ js) (k ∷ ks) (l ∷ ls) a b =
    (Advances-trans j k l a.0 b.0, Evolves-trans js ks ls a.1 b.1)
