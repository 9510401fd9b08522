-- ===== src/Queue/Unflushed.antt =====
-- A claim picks its job before the recovery of expired leases reaches the database: the row is still
-- there, as it was, and may still be claimed in the recovered table.
use social_pilot_ai.Base.{
  ℕ, ◌≡◌, refl, inl, inr, Bool, true, false, some, List, [], ◌∷◌, map, Pairwise, any_of, Text,
  Bool-cases, arith, ap, ◌∙◌, ◌==◌,
}
use social_pilot_ai.Queue.Types.{ExecutionJob}
use social_pilot_ai.Queue.Repository.{
  get_job, holds_key, active_same_key, claimable, claim_candidate, has_expired_lease,
}
use social_pilot_ai.Queue.Leases.{recovered_job, recover_job, recover_if_expired}
use social_pilot_ai.Queue.Invariant.{Apart}
use social_pilot_ai.Queue.Candidate.{first_of_kept}

module _ (now : ℕ) where
  same_id : (j : ExecutionJob) → (recover_if_expired now j).id ≡ j.id
  unfolding recover_if_expired recover_job recovered_job
  same_id j = elim (Bool-cases (has_expired_lease now j)) [ inl e ↦ rw e refl | inr e ↦ rw e refl ]

  get-recovered :
      (id : ℕ) (js : List ExecutionJob) (c : ExecutionJob)
      → get_job id js ≡ some c
      → get_job id (map (recover_if_expired now) js) ≡ some (recover_if_expired now c)
  unfolding recover_if_expired
  get-recovered id [] c h = absurd (cc)
  get-recovered id (j ∷ js) c h = elim (Bool-cases (j.id == id)) [
    | inl e ↦
        let q : j ≡ c = ground (arith, h, e) in
        rw (same_id j) (rw e (ap (λ x. some (recover_if_expired now x)) q))
    | inr e ↦ rw (same_id j) (rw e (get-recovered id js c (rw e at h)))
  ]

  not_running :
      (external again : Bool) (c j : ExecutionJob)
      → holds_key c (recovered_job now external again j) ≡ false
  unfolding recovered_job
  not_running true again c j = refl
  not_running false true c j = refl
  not_running false false c j = refl

  holds-recovered :
      (c j : ExecutionJob) → holds_key c j ≡ false → holds_key c (recover_if_expired now j) ≡ false
  unfolding recover_if_expired recover_job
  holds-recovered c j h = elim (Bool-cases (has_expired_lease now j)) [
    | inl e ↦ rw e (not_running _ _ c j)
    | inr e ↦ rw e h
  ]

  key_stays_free :
      (c : ExecutionJob) (js : List ExecutionJob)
      → any_of (holds_key c) js ≡ false
      → any_of (holds_key c) (map (recover_if_expired now) js) ≡ false
  key_stays_free c [] h = refl
  key_stays_free c (j ∷ js) h = elim (Bool-cases (holds_key c j)) [
    | inl e ↦ absurd (ground (arith, h, e))
    | inr e ↦ rw (holds-recovered c j e) (key_stays_free c js (rw e at h))
  ]

  waiting_kept :
      (types : List Text) (js : List ExecutionJob) (c : ExecutionJob)
      → claimable types js c ≡ true
      → recover_if_expired now c ≡ c
  unfolding recover_if_expired has_expired_lease claimable
  waiting_kept types js c h = ground (arith, h)

  claimable-recovered :
      (types : List Text) (js : List ExecutionJob) (c : ExecutionJob)
      → claimable types js c ≡ true
      → claimable types (map (recover_if_expired now) js) c ≡ true
  unfolding claimable active_same_key
  claimable-recovered types js c h = ground (arith, h, key_stays_free c js)

  pub claim_candidate-recovered :
      (types : List Text) (js : List ExecutionJob) (c : ExecutionJob)
      → Pairwise Apart js
      → claim_candidate types js ≡ some c
      → (get_job c.id (map (recover_if_expired now) js) ≡ some c)
        × (claimable types (map (recover_if_expired now) js) c ≡ true)
  unfolding claim_candidate
  claim_candidate-recovered types js c apart e =
      let (row, can) = first_of_kept (claimable types js) js c apart e in
      (
        get-recovered c.id js c row ∙ ap some (waiting_kept types js c can),
        claimable-recovered types js c can,
      )
