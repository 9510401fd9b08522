-- ===== src/Batch/Controlled.antt =====
-- The loop of `pause`, `resume` and `cancel`, and the calls as a whole.
use social_pilot_ai.Base.{ℕ, ◌≡◌, List, All}
use social_pilot_ai.Action.{Session, Result, ok, err, app}
use social_pilot_ai.Queue.Types.{Db}
use social_pilot_ai.Queue.Invariant.{DbOk}
use social_pilot_ai.Queue.Lifecycle.{Evolves}
use social_pilot_ai.Queue.Sound.{Sound}
use social_pilot_ai.Batch.Types.{BatchVideoJob, BatchVideoVariant, BatchDb}
use social_pilot_ai.Batch.Status.{aggregate_batch_status}
use social_pilot_ai.Batch.Repository.{variants_of}
use social_pilot_ai.Batch.Controls.{Control, control_variants}
use social_pilot_ai.Batch.Controlling.{Settled}

-- The error of a variant without a job.
abbrev incomplete : {A : Type 0} → Result A
incomplete = err (app "Batch video queue record is incomplete" 409)

module _ (control : Control) (now : ℕ) where
  -- What the loop does where every variant has its job.
  record Looped (start : Db) (vs : List BatchVideoVariant) (s : Session BatchDb) : Type 0 where
    left : BatchDb
    answer : control_variants control now vs s ≡ (ok tt, record s { working = left })
    sound : Sound start left.queue
    batches : left.batches ≡ s.working.batches
    settled : All (Settled control left.queue.jobs) vs
    kept :
        (w : BatchVideoVariant)
        → Settled control s.working.queue.jobs w
        → Settled control left.queue.jobs w

module _ (control : Control) (now id : ℕ) (d : BatchDb) (b : BatchVideoJob) where
  -- What a control of this batch answers and commits, where it goes through.
  abbrev pub Through : Result BatchVideoJob × BatchDb → Type 0
  Through (r, d') =
      (r
        ≡ ok (record b {
          status = aggregate_batch_status d'.queue.jobs (variants_of id d'.variants);
        }))
      × DbOk d'.queue
      × Evolves d.queue.jobs d'.queue.jobs
      × All (Settled control d'.queue.jobs) (variants_of id d.variants)
