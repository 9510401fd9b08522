-- ===== src/Queue/Sound.antt =====
-- What a session keeps: the table that it works on and the one that it has committed both meet
-- the invariant and follow from the table at the start.
use social_pilot_ai.Base.{
  ℕ, ◌<◌, ◌≡◌, sym, subst, some, List, [], ◌∷◌, map, All, All-map, All-imp, All-both, Pairwise,
  Pairwise-map-on, arith,
}
use social_pilot_ai.Action.{Session, ok}
use social_pilot_ai.Queue.Types.{ExecutionJob, Db}
use social_pilot_ai.Queue.Repository.{get_job, put_job}
use social_pilot_ai.Queue.Service.{get, save}
use social_pilot_ai.Queue.Leases.{recover_if_expired, recover_expired_leases}
use social_pilot_ai.Queue.Lifecycle.{Advances, Evolves, Evolves-refl, Evolves-trans}
use social_pilot_ai.Queue.Invariant.{
  JobOk, Apart, DbOk, All-get_job, All-put_job, get-put_job, Pairwise-put_job, Evolves-put_job,
  Apart-after, Apart-before,
}
use social_pilot_ai.Queue.Rows.{Change, recover_if_expired-Change}

pub record Sound (start d : Db) : Type 0 where
  pub ok_db : DbOk d
  pub evolves : Evolves start.jobs d.jobs

pub record Good (start : Db) (s : Session Db) : Type 0 where
  pub committed_sound : Sound start s.committed
  pub working_sound : Sound start s.working

pub Sound-refl : (d : Db) → DbOk d → Sound d d
Sound-refl d h = record { ok_db = h; evolves = Evolves-refl d.jobs }

-- A session that has just committed or rolled back to a sound table.
pub Good-both : {start d : Db} → Sound start d → Good start (record { committed = d; working = d })
Good-both sound = record { committed_sound = sound; working_sound = sound }

-- A table whose rows are changed, one by one.
pub Sound-jobs :
    (start d : Db) (js : List ExecutionJob)
    → Sound start d
    → All JobOk js
    → Pairwise Apart js
    → All (λ j. j.id < d.next_id) js
    → Evolves d.jobs js
    → Sound start (record d { jobs = js })
Sound-jobs start d js h rows apart fresh e = record {
  ok_db = record { rows = rows; apart = apart; fresh = fresh };
  evolves = Evolves-trans start.jobs d.jobs js h.evolves e;
}

-- The flush of one changed row.
pub Sound-put_job :
    (start d : Db) (j k : ExecutionJob)
    → Sound start d
    → get_job j.id d.jobs ≡ some j
    → Change j k
    → Sound start (record d { jobs = put_job k d.jobs })
Sound-put_job start d j k h found c =
    let at_k : get_job k.id d.jobs ≡ some j = rw c.advances.same_id found in
    Sound-jobs start d (put_job k d.jobs) h (All-put_job JobOk k d.jobs c.ok h.ok_db.rows)
      (Pairwise-put_job k d.jobs j at_k
        (All-imp JobOk _ d.jobs (λ x _. Apart-after j k x c.advances c.no_new_run) h.ok_db.rows)
        (All-imp JobOk _ d.jobs (λ x _. Apart-before j k x c.advances c.no_new_run) h.ok_db.rows)
        h.ok_db.apart)
      (All-put_job (λ x. x.id < d.next_id) k d.jobs
        (rw c.advances.same_id
          (All-get_job (λ x. x.id < d.next_id) j.id d.jobs j h.ok_db.fresh found))
        h.ok_db.fresh)
      (Evolves-put_job k d.jobs j at_k c.advances h.ok_db.apart)

pub get-state : (id : ℕ) (s : Session Db) → (get id s).1 ≡ s
unfolding get
get-state id s = ground arith

pub save-Good :
    (start : Db) (s : Session Db) (j k : ExecutionJob)
    → Good start s
    → get_job j.id s.working.jobs ≡ some j
    → Change j k
    → Good start (save k s).1
unfolding save
save-Good start s j k h found c =
    let sound = Sound-put_job start s.working j k h.working_sound found c in
    subst (Good start) (sym (get-state k.id _)) (Good-both sound)

-- What `save` answers, and what it leaves committed.
pub save_lem :
    (s : Session Db) (j k : ExecutionJob)
    → get_job k.id s.working.jobs ≡ some j
    → let d = record s.working { jobs = put_job k s.working.jobs } in
      save k s ≡ (ok k, record { committed = d; working = d })
unfolding save get
save_lem s j k found = rw (get-put_job k s.working.jobs j found)

-- A recovery of all rows at once.
Evolves-map :
    (g : ExecutionJob → ExecutionJob) (js : List ExecutionJob)
    → All (λ j. Advances j (g j)) js
    → Evolves js (map g js)
Evolves-map g [] h = tt
Evolves-map g (j ∷ js) h = (h.0, Evolves-map g js h.1)

recover_pair :
    (now : ℕ) (j k : ExecutionJob)
    → JobOk j
    → JobOk k
    → Apart j k
    → Apart (recover_if_expired now j) (recover_if_expired now k)
recover_pair now j k oj ok' a =
    let cj = recover_if_expired-Change now j oj in
    let ck = recover_if_expired-Change now k ok' in
    Apart-before k _ _ ck.advances ck.no_new_run (Apart-after j _ k cj.advances cj.no_new_run a)

pub recover_expired_leases-Sound :
    (start : Db) (now : ℕ) (d : Db)
    → Sound start d
    → Sound start (record d { jobs = map (recover_if_expired now) d.jobs })
recover_expired_leases-Sound start now d h =
    let change = recover_if_expired-Change now in
    Sound-jobs start d (map (recover_if_expired now) d.jobs) h
      (All-map JobOk JobOk _ d.jobs (λ j o. (change j o).ok) h.ok_db.rows)
      (Pairwise-map-on JobOk Apart _ d.jobs (recover_pair now) h.ok_db.rows h.ok_db.apart)
      (All-map (λ j. JobOk j × (j.id < d.next_id)) (λ j. j.id < d.next_id) _ d.jobs
        (λ j o. rw (change j o.0).advances.same_id o.1)
        (All-both JobOk (λ j. j.id < d.next_id) d.jobs h.ok_db.rows h.ok_db.fresh))
      (Evolves-map _ d.jobs (All-imp JobOk _ d.jobs (λ j o. (change j o).advances) h.ok_db.rows))

pub recover_expired_leases-Good :
    (start : Db) (now : ℕ) (s : Session Db)
    → Good start s
    → Good start (recover_expired_leases now s).1
unfolding recover_expired_leases
recover_expired_leases-Good start now s h = record {
  committed_sound = h.committed_sound;
  working_sound = recover_expired_leases-Sound start now s.working h.working_sound;
}
