-- ===== src/Queue/Creation.antt =====
-- `create` under its idempotency key.
use social_pilot_ai.Base.{
  ℕ, ◌≤◌, ◌<◌, ◌≡◌, ◌≢◌, refl, sym, subst, ap, ◌∙◌, true, false, some, none, List, [], ◌∷◌, ◌++◌,
  All, text_eq, text_eq_refl, text_eq_iff, casefold, strip, length, ltb, arith,
}
use social_pilot_ai.Json.{accepts_fields}
use social_pilot_ai.Action.{Result, ok, err, app, request, or_raise}
use social_pilot_ai.Queue.Types.{ExecutionJob, Db}
use social_pilot_ai.Queue.Repository.{get_job, get_by_idempotency_key}
use social_pilot_ai.Queue.Requests.{CreateRequest}
use social_pilot_ai.Queue.Service.{get}
use social_pilot_ai.Queue.Claim.{
  Flush, calm, beaten, new_job, insert_job, Created, idempotent_result, concurrent_result, add_job,
  reuse_or_add, create,
}
use social_pilot_ai.Queue.Invariant.{DbOk}

-- What `create` asks of a request before it looks for its key.
pub record Accepted (req : CreateRequest) : Type 0 where
  pub payload_safe : accepts_fields req.input_payload ≡ true
  pub key_long : 8 ≤ length (strip req.idempotency_key)

pub get_new :
    (k : ExecutionJob) (js : List ExecutionJob)
    → All (λ j. j.id < k.id) js
    → get_job k.id (js ++ k ∷ []) ≡ some k
get_new k [] h = ground arith
get_new k (j ∷ js) h = ground (arith, h.0, get_new k js h.1)

find_new :
    (k : ExecutionJob) (js : List ExecutionJob)
    → get_by_idempotency_key k.idempotency_key js ≡ none
    → get_by_idempotency_key k.idempotency_key (js ++ k ∷ []) ≡ some k
find_new k [] h = rw text_eq_refl
find_new k (j ∷ js) h = ground (arith, find_new k js)

module _ (now : ℕ) (req : CreateRequest) (d : Db) (a : Accepted req) where
  -- The two early refusals do not fire.
  past_checks :
      (flush : Flush)
      → request (create flush now req) d
        ≡ request
            (reuse_or_add
              (get_by_idempotency_key (strip req.idempotency_key) d.jobs)
              flush
              now
              (strip req.idempotency_key)
              (casefold req.input_digest)
              req)
            d
  unfolding create
  past_checks flush =
      let long : ltb (length (strip req.idempotency_key)) 8 ≡ false = ground (arith, a.key_long) in
      rw a.payload_safe (rw long refl)

  -- On a table that meets the constraints, an acceptable and undisturbed `create` under a new key
  -- answers and commits the queued row under the next primary key.
  pub create_new :
      DbOk d
      → get_by_idempotency_key (strip req.idempotency_key) d.jobs ≡ none
      → request (create calm now req) d
        ≡ (ok (record { job = new_job now d.next_id req; reused = false }), insert_job now req d)
  create_new h e =
      let k = new_job now d.next_id req in
      let row : get_job d.next_id (d.jobs ++ k ∷ []) ≡ some k =
        unfold new_job in get_new k d.jobs h.fresh in
      past_checks calm
      ∙ rw (e, reuse_or_add) (unfold add_job get insert_job in rw (row, or_raise) refl)

  -- An acceptable `create` under a known key answers the row of that key if its digest is the same,
  -- and is refused with status 409 if it is not; nothing is committed either way.
  pub create_known :
      (flush : Flush) (j : ExecutionJob)
      → get_by_idempotency_key (strip req.idempotency_key) d.jobs ≡ some j
      → (j.input_digest ≡ casefold req.input_digest
          → request (create flush now req) d ≡ (ok (record { job = j; reused = true }), d))
        × (j.input_digest ≢ casefold req.input_digest
            → request (create flush now req) d
              ≡ (err (app "Idempotency key was used for different input" 409), d))
  create_known flush j e = (
    λ same.
        past_checks flush
        ∙ rw (e, reuse_or_add)
            (unfold idempotent_result in
              rw ((text_eq_iff j.input_digest (casefold req.input_digest)).1 same) refl),
    λ other.
        let differs : text_eq j.input_digest (casefold req.input_digest) ≡ false =
          ground (arith, text_eq_iff j.input_digest (casefold req.input_digest)) in
        past_checks flush ∙ rw (e, reuse_or_add) (unfold idempotent_result in rw differs refl),
  )

  -- An acceptable `create` under a new key whose insert is beaten by another session with the same
  -- key and digest answers the row of that session, and leaves what that session has committed.
  pub create_beaten :
      (w : Db) (j : ExecutionJob)
      → get_by_idempotency_key (strip req.idempotency_key) d.jobs ≡ none
      → get_by_idempotency_key (strip req.idempotency_key) w.jobs ≡ some j
      → j.input_digest ≡ casefold req.input_digest
      → request (create (beaten w) now req) d ≡ (ok (record { job = j; reused = true }), w)
  create_beaten w j e f same =
      past_checks (beaten w)
      ∙ rw (e, reuse_or_add)
          (unfold add_job in
            rw (f, concurrent_result)
              (unfold idempotent_result in
                rw ((text_eq_iff j.input_digest (casefold req.input_digest)).1 same) refl))

-- On a table that meets the constraints, after an undisturbed `create` under a new key, a second
-- `create` at any time with the same key and digest, whatever its flush would meet, answers the row
-- of the first and leaves the table as it is; both requests being acceptable.
pub create_twice :
    (now later : ℕ) (req again : CreateRequest) (flush : Flush) (d : Db)
    → Accepted req
    → Accepted again
    → DbOk d
    → get_by_idempotency_key (strip req.idempotency_key) d.jobs ≡ none
    → strip again.idempotency_key ≡ strip req.idempotency_key
    → casefold again.input_digest ≡ casefold req.input_digest
    → let (first, d') = request (create calm now req) d in
      (first ≡ ok (record { job = new_job now d.next_id req; reused = false }))
      × (request (create flush later again) d'
          ≡ (ok (record { job = new_job now d.next_id req; reused = true }), d'))
create_twice now later req again flush d a b h e key digest =
    let k = new_job now d.next_id req in
    let new = create_new now req d a h e in
    let there : get_by_idempotency_key (strip again.idempotency_key) (insert_job now req d).jobs
        ≡ some k =
      rw key (unfold insert_job new_job in find_new k d.jobs e) in
    let second =
      (create_known later again (insert_job now req d) b flush k there).0
        (unfold new_job in sym digest) in
    (
      ap (λ (r : Result Created × Db). r.0) new,
      subst
          (λ (x : Db).
            request (create flush later again) x ≡ (ok (record { job = k; reused = true }), x))
          (sym (ap (λ (r : Result Created × Db). r.1) new)) second,
    )
