-- ===== src/Batch/Controlling.antt =====
-- What `pause`, `resume` and `cancel` of a batch do to its jobs.
use social_pilot_ai.Base.{
  ℕ, ◌≡◌, ◌∙◌, refl, sym, subst, ap, Bool, true, false, not, Option, none, some, List, [], ◌∷◌,
  ◌==◌, if◌then◌else◌, is_some, inl, inr, Bool-cases, arith,
}
use social_pilot_ai.Queue.Types.{JobStatus, ExecutionJob, Db}
use social_pilot_ai.Queue.Repository.{get_job, put_job}
use social_pilot_ai.Queue.Invariant.{JobOk, get_job-id, All-get_job}
use social_pilot_ai.Queue.Rows.{Change, paused-Change, resumed-Change, cancelled-Change}
use social_pilot_ai.Queue.Sound.{Sound, Sound-put_job}
use social_pilot_ai.Batch.Types.{BatchVideoVariant, BatchDb}
use social_pilot_ai.Batch.Status.{job_by_key}
use social_pilot_ai.Batch.Controls.{Control, applies, control_job, write_both}

abbrev pub lacks_job : List ExecutionJob → BatchVideoVariant → Bool
lacks_job js v = not (is_some (job_by_key v.execution_job_id js))

-- What a control is for: pausing leaves nothing queued, resuming nothing paused, cancelling neither.
abbrev pub movable : Control → JobStatus → Bool
movable Control.pause JobStatus.queued = true
movable Control.resume JobStatus.paused = true
movable Control.cancel JobStatus.queued = true
movable Control.cancel JobStatus.paused = true
movable _ _ = false

applies-movable : (control : Control) (s : JobStatus) → applies control s ≡ movable control s
applies-movable Control.pause s = ground arith
applies-movable Control.resume s = ground arith
applies-movable Control.cancel s = ground arith

-- The variant has a job, and the control has nothing left to do to it.
abbrev pub Settled : Control → List ExecutionJob → BatchVideoVariant → Type 0
Settled control js v =
    (j : ExecutionJob) × (job_by_key v.execution_job_id js ≡ some j)
    × (movable control j.status ≡ false)

control-Change :
    (control : Control) (now : ℕ) (j : ExecutionJob)
    → JobOk j
    → applies control j.status ≡ true
    → Change j (control_job control now j)
control-Change Control.pause now j h e = paused-Change j h (ground arith)
control-Change Control.resume now j h e = resumed-Change j h (ground arith)
control-Change Control.cancel now j h e = cancelled-Change j h now (ground arith)

control_job-settled :
    (control : Control) (now : ℕ) (j : ExecutionJob)
    → movable control (control_job control now j).status ≡ false
control_job-settled Control.pause now j = refl
control_job-settled Control.resume now j = refl
control_job-settled Control.cancel now j = refl

control_job-id :
    (control : Control) (now : ℕ) (j : ExecutionJob) → (control_job control now j).id ≡ j.id
control_job-id Control.pause now j = refl
control_job-id Control.resume now j = refl
control_job-id Control.cancel now j = refl

get_job-put_job :
    (n : ℕ) (k j : ExecutionJob) (js : List ExecutionJob)
    → get_job n js ≡ some j
    → get_job n (put_job k js) ≡ some (if j.id == k.id then k else j)
get_job-put_job n k j [] e = cc
get_job-put_job n k j (x ∷ js) e = ground (arith, get_job-put_job n k j js)

key-put_job :
    (n : Option ℕ) (k j : ExecutionJob) (js : List ExecutionJob)
    → job_by_key n js ≡ some j
    → job_by_key n (put_job k js) ≡ some (if j.id == k.id then k else j)
key-put_job none k j js e = cc
key-put_job (some n) k j js e = get_job-put_job n k j js e

by_key-own :
    (n : Option ℕ) (j : ExecutionJob) (js : List ExecutionJob)
    → job_by_key n js ≡ some j
    → get_job j.id js ≡ some j
by_key-own none j js e = absurd (cc)
by_key-own (some n) j js e = subst (λ m. get_job m js ≡ some j) (sym (get_job-id n js j e)) e

Settled-put_job :
    (control : Control) (now : ℕ) (j : ExecutionJob) (js : List ExecutionJob)
    (v : BatchVideoVariant)
    → Settled control js v
    → Settled control (put_job (control_job control now j) js) v
Settled-put_job control now j js v (i, found, done) =
    let k = control_job control now j in
    let there = key-put_job v.execution_job_id k i js found in
    elim (Bool-cases (i.id == k.id)) [
      | inl e ↦ (
        k,
        subst (λ b. job_by_key v.execution_job_id (put_job k js) ≡ some (if b then k else i)) e
            there,
        control_job-settled control now j,
      )
      | inr e ↦ (
        i,
        subst (λ b. job_by_key v.execution_job_id (put_job k js) ≡ some (if b then k else i)) e
            there,
        done,
      )
    ]

is_some-get_job-put_job :
    (n : ℕ) (k : ExecutionJob) (js : List ExecutionJob)
    → is_some (get_job n (put_job k js)) ≡ is_some (get_job n js)
is_some-get_job-put_job n k [] = refl
is_some-get_job-put_job n k (x ∷ js) = ground (arith, is_some-get_job-put_job n k js)

is_some-key-put_job :
    (n : Option ℕ) (k : ExecutionJob) (js : List ExecutionJob)
    → is_some (job_by_key n (put_job k js)) ≡ is_some (job_by_key n js)
is_some-key-put_job none k js = refl
is_some-key-put_job (some n) k js = is_some-get_job-put_job n k js

-- One turn of the loop.
pub write_both-Sound :
    (start : Db) (control : Control) (now : ℕ) (v : BatchVideoVariant) (j : ExecutionJob)
    (d : BatchDb)
    → Sound start d.queue
    → job_by_key v.execution_job_id d.queue.jobs ≡ some j
    → Sound start (write_both control now v j d).queue
unfolding write_both
write_both-Sound start control now v j d h e = elim (Bool-cases (applies control j.status)) [
  | inl a ↦
      let own = by_key-own v.execution_job_id j d.queue.jobs e in
      let good = All-get_job JobOk j.id d.queue.jobs j h.ok_db.rows own in
      rw a (
        Sound-put_job start d.queue j (control_job control now j) h own
          (control-Change control now j good a))
  | inr a ↦ rw a h
]

pub write_both-Settled :
    (control : Control) (now : ℕ) (v w : BatchVideoVariant) (j : ExecutionJob) (d : BatchDb)
    → Settled control d.queue.jobs w
    → Settled control (write_both control now v j d).queue.jobs w
unfolding write_both
write_both-Settled control now v w j d h = elim (Bool-cases (applies control j.status)) [
  | inl a ↦ rw a (Settled-put_job control now j d.queue.jobs w h)
  | inr a ↦ rw a h
]

pub write_both-own :
    (control : Control) (now : ℕ) (v : BatchVideoVariant) (j : ExecutionJob) (d : BatchDb)
    → job_by_key v.execution_job_id d.queue.jobs ≡ some j
    → Settled control (write_both control now v j d).queue.jobs v
unfolding write_both
write_both-own control now v j d e = elim (Bool-cases (applies control j.status)) [
  | inl a ↦
      let k = control_job control now j in
      let there : job_by_key v.execution_job_id (put_job k d.queue.jobs) ≡ some k =
        ground (
          arith,
          key-put_job v.execution_job_id k j d.queue.jobs e,
          control_job-id control now j,
        ) in
      rw a (k, there, control_job-settled control now j)
  | inr a ↦ rw a (j, e, sym (applies-movable control j.status) ∙ a)
]

pub write_both-lacks :
    (control : Control) (now : ℕ) (v w : BatchVideoVariant) (j : ExecutionJob) (d : BatchDb)
    → lacks_job (write_both control now v j d).queue.jobs w ≡ lacks_job d.queue.jobs w
unfolding write_both
write_both-lacks control now v w j d = elim (Bool-cases (applies control j.status)) [
  | inl a ↦
      rw a
        (ap not (is_some-key-put_job w.execution_job_id (control_job control now j) d.queue.jobs))
  | inr a ↦ rw a refl
]

pub write_both-batches :
    (control : Control) (now : ℕ) (v : BatchVideoVariant) (j : ExecutionJob) (d : BatchDb)
    → (write_both control now v j d).batches ≡ d.batches
unfolding write_both
write_both-batches control now v j d = ground arith
