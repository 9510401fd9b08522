-- ===== src/Queue/Attempts.antt =====
-- The attempts of one job: numbered from 1, found and replaced by number.
use social_pilot_ai.Base.{
  ℕ, suc, ◌+◌, ◌≤◌, ◌≡◌, refl, ◌⊎◌, inl, inr, Bool, true, false, ◌&&◌, none, some, List, [], ◌∷◌,
  ◌++◌, All, ◌==◌, Option-cases, arith,
}
use social_pilot_ai.Queue.Types.{AttemptStatus, ExecutionAttempt}
use social_pilot_ai.Queue.Repository.{put_attempt, latest_attempt}

-- The numbers run from k + 1 to n.
abbrev pub Numbered : ℕ → List ExecutionAttempt → ℕ → Type 0
Numbered k [] n = k ≡ n
Numbered k (a ∷ as') n = (a.attempt_number ≡ suc k) × Numbered (suc k) as' n

abbrev pub is_running_attempt : AttemptStatus → Bool
is_running_attempt AttemptStatus.running = true
is_running_attempt _ = false

-- An attempt runs exactly when its job does and it is the latest.
abbrev pub AttemptOk : Bool → ℕ → ExecutionAttempt → Type 0
AttemptOk live n a = is_running_attempt a.status ≡ (live && a.attempt_number == n)

pub le_of_Numbered : (k : ℕ) (as' : List ExecutionAttempt) (n : ℕ) → Numbered k as' n → k ≤ n
le_of_Numbered k [] n h = omega arith
le_of_Numbered k (a ∷ as') n h = omega (arith, le_of_Numbered (suc k) as' n h.1)

pub latest-none : (as' : List ExecutionAttempt) → latest_attempt as' ≡ none → as' ≡ []
latest-none [] h = refl
latest-none (a ∷ as') h = ground arith

pub latest-number :
    (k : ℕ) (as' : List ExecutionAttempt) (n : ℕ) (a : ExecutionAttempt)
    → Numbered k as' n
    → latest_attempt as' ≡ some a
    → a.attempt_number ≡ n
latest-number k [] n a h e = cc
latest-number k (b ∷ as') n a h e = elim (Option-cases (latest_attempt as')) [
  | inl p ↦
      let q : as' ≡ [] = latest-none as' p in
      let r : Numbered (suc k) [] n = rw q at (h.1) in ground arith
  | inr (c, p) ↦
      ground (arith, latest-number (suc k) as' n c h.1 p, le_of_Numbered (suc k) as' n h.1)
]

latest-cons :
    (b : ExecutionAttempt) (as' : List ExecutionAttempt) (a : ExecutionAttempt)
    → latest_attempt (b ∷ as') ≡ some a
    → (a ≡ b) ⊎ (latest_attempt as' ≡ some a)
latest-cons b as' a e = elim (Option-cases (latest_attempt as')) [
  | inl p ↦ inl (ground arith)
  | inr (c, p) ↦ ground arith
]

module _ {κ} (P : ExecutionAttempt → Type κ) where
  pub All-latest :
      (as' : List ExecutionAttempt) (a : ExecutionAttempt)
      → All P as'
      → latest_attempt as' ≡ some a
      → P a
  All-latest [] a h e = absurd (cc)
  All-latest (b ∷ as') a h e = elim (latest-cons b as' a e) [
    | inl p ↦ rw p h.0
    | inr q ↦ All-latest as' a h.1 q
  ]

pub Numbered-put :
    (b : ExecutionAttempt) (k : ℕ) (as' : List ExecutionAttempt) (n : ℕ)
    → Numbered k as' n
    → Numbered k (put_attempt b as') n
Numbered-put b k [] n h = h
Numbered-put b k (a ∷ as') n h = ground (arith, Numbered-put b (suc k) as' n h.1)

pub Numbered-append :
    (b : ExecutionAttempt) (k : ℕ) (as' : List ExecutionAttempt) (n : ℕ)
    → Numbered k as' n
    → b.attempt_number ≡ n + 1
    → Numbered k (as' ++ b ∷ []) (n + 1)
Numbered-append b k [] n h e = omega arith
Numbered-append b k (a ∷ as') n h e = (h.0, Numbered-append b (suc k) as' n h.1 e)

module _ (live : Bool) (n : ℕ) where
  -- The latest attempt is rewritten while the others stay.
  pub AttemptOk-put :
      (live' : Bool) (b : ExecutionAttempt) (as' : List ExecutionAttempt)
      → b.attempt_number ≡ n
      → AttemptOk live' n b
      → All (AttemptOk live n) as'
      → All (AttemptOk live' n) (put_attempt b as')
  AttemptOk-put live' b [] e p h = tt
  AttemptOk-put live' b (a ∷ as') e p h = (ground (arith, h.0), AttemptOk-put live' b as' e p h.1)

-- A new attempt of a job at rest, whose others have ended.
pub AttemptOk-append :
    (n : ℕ) (k : ℕ) (b : ExecutionAttempt) (as' : List ExecutionAttempt)
    → Numbered k as' n
    → is_running_attempt b.status ≡ true
    → b.attempt_number ≡ n + 1
    → All (AttemptOk false n) as'
    → All (AttemptOk true (n + 1)) (as' ++ b ∷ [])
AttemptOk-append n k b [] m r e h = (ground arith, tt)
AttemptOk-append n k b (a ∷ as') m r e h =
    (ground (arith, le_of_Numbered (suc k) as' n m.1), AttemptOk-append n (suc k) b as' m.1 r e h.1)
