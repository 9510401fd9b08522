-- ===== src/Queue/Candidate.antt =====
-- What `claim_next` selects, and the row that it writes.
use social_pilot_ai.Base.{
  ℕ, ◌+◌, ◌<◌, ◌≡◌, ◌≢◌, ◌⊎◌, refl, sym, subst, inl, inr, Bool, true, false, Option, none, some,
  List, [], ◌∷◌, All, All-imp, All-intro, ◌∙◌, Pairwise, is_some, keep, any_of-eq-false, Bool-cases,
  Option-cases, Text, text_eq_iff, arith,
}
use social_pilot_ai.Queue.Types.{JobStatus, ExecutionJob, is_running}
use social_pilot_ai.Queue.Repository.{
  get_job, same_key, holds_key, active_same_key, claimable, first_in_order, precedes, claimed_job,
}
use social_pilot_ai.Queue.Claim.{first_beat, add_attempt}
use social_pilot_ai.Queue.Attempts.{Numbered-append, AttemptOk-append, AttemptOk}
use social_pilot_ai.Queue.Lifecycle.{here, then_, ◌⟶*◌, Advances}
use social_pilot_ai.Queue.Lifecycle
use social_pilot_ai.Queue.Invariant.{JobOk, Apart, All-get_job}

first-cons :
    (j : ExecutionJob) (js : List ExecutionJob) (c : ExecutionJob)
    → first_in_order (j ∷ js) ≡ some c
    → (c ≡ j) ⊎ (first_in_order js ≡ some c)
unfolding first_in_order
first-cons j js c e = elim (Option-cases (first_in_order js)) [
  | inl n ↦ inl (ground arith)
  | inr (k, n) ↦ ground (arith, n)
]

later_row :
    (j : ExecutionJob) (js : List ExecutionJob) (c : ExecutionJob)
    → All (Apart j) js
    → get_job c.id js ≡ some c
    → get_job c.id (j ∷ js) ≡ some c
later_row j js c a e = let h = All-get_job (Apart j) c.id js c a e in ground (arith, h.ids)

first_row : (j : ExecutionJob) (js : List ExecutionJob) → get_job j.id (j ∷ js) ≡ some j
first_row j js = ground arith

-- The order of the query: what is not before `b` and so on down the list.
precedes_asym : (a b : ExecutionJob) → precedes a b ≡ true → precedes b a ≡ false
precedes_asym a b h = ground arith

precedes_trans :
    (a b c : ExecutionJob) → precedes a b ≡ false → precedes b c ≡ false → precedes a c ≡ false
precedes_trans a b c h k = ground arith

module _ (p : ExecutionJob → Bool) where
  -- The first of the rows that pass a test is one of the rows, and passes.
  pub first_of_kept :
      (js : List ExecutionJob) (c : ExecutionJob)
      → Pairwise Apart js
      → first_in_order (keep p js) ≡ some c
      → (get_job c.id js ≡ some c) × (p c ≡ true)
  first_of_kept [] c a e = unfold first_in_order in cc
  first_of_kept (j ∷ js) c a e = elim (Bool-cases (p j)) [
    | inl y ↦ elim (first-cons j (keep p js) c (rw y at e)) [
      | inl q ↦ (subst (λ x. get_job x.id (j ∷ js) ≡ some x) (sym q) (first_row j js), rw q y)
      | inr q ↦ let ih = first_of_kept js c a.1 q in (later_row j js c a.0 ih.0, ih.1)
    ]
    | inr n ↦ let ih = first_of_kept js c a.1 (rw n at e) in (later_row j js c a.0 ih.0, ih.1)
  ]

pub first-none : (js : List ExecutionJob) → first_in_order js ≡ none → js ≡ []
unfolding first_in_order
first-none [] e = refl
first-none (j ∷ js) e = ground arith

precedes_irrefl : (a : ExecutionJob) → precedes a a ≡ false
precedes_irrefl a = ground arith

first-some :
    (j : ExecutionJob) (js : List ExecutionJob) (k c : ExecutionJob)
    → first_in_order js ≡ some k
    → first_in_order (j ∷ js) ≡ some c
    → ((precedes k j ≡ true) × (c ≡ k)) ⊎ ((precedes k j ≡ false) × (c ≡ j))
first-some j js k c e h = elim (Bool-cases (precedes k j)) [
  | inl p ↦ inl (p, unfold first_in_order in ground (arith, e, p, h))
  | inr p ↦ inr (p, unfold first_in_order in ground (arith, e, p, h))
]

-- No row comes before the first.
pub first_is_first :
    (js : List ExecutionJob) (c : ExecutionJob)
    → first_in_order js ≡ some c
    → All (λ x. precedes x c ≡ false) js
first_is_first [] c e = tt
first_is_first (j ∷ js) c e = elim (Option-cases (first_in_order js)) [
  | inl n ↦
      let q : c ≡ j = unfold first_in_order in ground (arith, n, e) in
      (
        subst (λ x. precedes j x ≡ false) (sym q) (precedes_irrefl j),
        subst (All (λ x. precedes x c ≡ false)) (sym (first-none js n)) tt,
      )
  | inr (k, n) ↦ elim (first-some j js k c n e) [
    | inl q ↦
        subst (λ x. All (λ y. precedes y x ≡ false) (j ∷ js)) (sym q.1)
          (precedes_asym k j q.0, first_is_first js k n)
    | inr q ↦
        subst (λ x. All (λ y. precedes y x ≡ false) (j ∷ js)) (sym q.1)
          (
            precedes_irrefl j,
            All-imp (λ y. precedes y k ≡ false) _ js (λ y r. precedes_trans y k j r q.0)
                (first_is_first js k n),
          )
  ]
]

-- A row of SQL's NULL-aware key equality read from the other side.
pub same_key_comm : (a b : Option Text) → same_key a b ≡ same_key b a
same_key_comm none none = refl
same_key_comm none (some b) = refl
same_key_comm (some a) none = refl
same_key_comm (some a) (some b) = ground (arith, text_eq_iff a b, text_eq_iff b a)

abbrev pub opened_job : Text → ℕ → ℕ → ExecutionJob → ExecutionJob
opened_job owner expires now c =
    add_attempt (first_beat now (c.attempt_count + 1)) (claimed_job owner expires c)

module _ (owner : Text) (expires now : ℕ) (types : List Text) (js : List ExecutionJob)
    (c : ExecutionJob) (ok' : JobOk c) (can : claimable types js c ≡ true) where
  was_queued : c.status ≡ JobStatus.queued
  was_queued = unfold claimable in ground arith

  has_room : c.attempt_count < c.max_attempts
  has_room = unfold claimable in ground arith

  no_active : (is_some c.concurrency_key ≡ false) ⊎ (active_same_key js c ≡ false)
  no_active = unfold claimable in ground arith

  pub opened_job-JobOk : JobOk (opened_job owner expires now c)
  unfolding claimed_job
  opened_job-JobOk = record {
    capped = omega (arith, has_room);
    some_attempts = ok'.some_attempts;
    uncertain_status = refl;
    owner_while_running = refl;
    expiry_while_running = refl;
    result_paired = ok'.result_paired;
    result_positive = ok'.result_positive;
    result_of_success = ground (arith, was_queued, ok'.result_of_success);
    numbered = Numbered-append _ 0 c.attempts c.attempt_count ok'.numbered refl;
    live_attempt = AttemptOk-append c.attempt_count 0 _ c.attempts ok'.numbered refl refl (
        subst (λ s. All (AttemptOk (is_running s) c.attempt_count) c.attempts) was_queued
          ok'.live_attempt);
    claimed = λ r. omega arith;
  }

  pub opened_job-Advances : Advances c (opened_job owner expires now c)
  unfolding claimed_job
  opened_job-Advances = record {
    same_id = refl;
    same_spec = refl;
    path = subst (λ s. s ⟶* JobStatus.running) (sym was_queued) (then_ Lifecycle.claim here);
    counted = omega arith;
    submission_kept = λ h. refl;
    frozen = ground (arith, was_queued);
  }

  -- No running row has the key of the row that is claimed.
  free_key :
      All
        (λ x.
          is_running x.status ≡ true
          → x.id ≢ c.id
          → same_key x.concurrency_key c.concurrency_key ≡ false)
        js
  free_key = elim no_active [
    | inl n ↦ All-intro _ js (λ x r d. ground (arith, n))
    | inr n ↦
        All-imp (λ x. holds_key c x ≡ false) _ js (λ x q r d. ground (arith, q))
          (any_of-eq-false (holds_key c) js (unfold active_same_key in n))
  ]

  -- So the claimed row stays apart from every row that `c` was apart from.
  pub opened-after : All (λ x. Apart c x → Apart (opened_job owner expires now c) x) js
  unfolding claimed_job
  opened-after =
      All-imp _ _ js
        (λ x free a. record {
          ids = a.ids;
          keys = a.keys;
          exclusive = λ p q.
              same_key_comm c.concurrency_key x.concurrency_key ∙ free q (ground (arith, a.ids));
        })
        free_key

  pub opened-before : All (λ x. Apart x c → Apart x (opened_job owner expires now c)) js
  unfolding claimed_job
  opened-before =
      All-imp _ _ js
        (λ x free a. record {
          ids = a.ids;
          keys = a.keys;
          exclusive = λ p q. free p (ground (arith, a.ids));
        })
        free_key
