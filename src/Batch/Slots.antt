-- ===== src/Batch/Slots.antt =====
-- Jobs that share the slots of a batch: how many of them can run at once.
use social_pilot_ai.Base.{
  ℕ, zero, suc, ◌≤◌, ◌<◌, ◌≡◌, ◌≢◌, refl, ap, ◌∙◌, Bool, true, false, not, ◌&&◌, Option, none, some,
  List, [], ◌∷◌, Text, text_eq_iff, text_eq_refl, length, keep, All, All-imp, All-both, Pairwise,
  Pairwise-keep, Bool-cases, inl, inr, arith,
}
use social_pilot_ai.Queue.Types.{ExecutionJob, is_running}
use social_pilot_ai.Queue.Repository.{same_key}
use social_pilot_ai.Queue.Invariant.{Apart}

key_apart :
    (a b : Option Text) (c : Text)
    → same_key a (some c) ≡ true
    → same_key a b ≡ false
    → not (same_key b (some c)) ≡ true
key_apart none b c e x = absurd (cc)
key_apart (some a) none c e x = refl
key_apart (some a) (some b) c e x =
    ground (arith, text_eq_iff a c, text_eq_iff a b, text_eq_iff b c)

held_there :
    (j : ExecutionJob) (c : Text)
    → j.concurrency_key ≡ some c
    → not (same_key j.concurrency_key (some c)) ≡ true
    → ⊥
held_there j c held e =
    let same : same_key j.concurrency_key (some c) ≡ true = rw held (text_eq_refl c) in
    absurd (ground (arith, same, e))

module _ (key : ℕ → Text) where
  -- A job whose concurrency key is that of one of the first `m` slots.
  abbrev pub InSlot : ℕ → ExecutionJob → Type 0
  InSlot m j = (k : ℕ) × (k < m) × (j.concurrency_key ≡ some (key k))

  abbrev Exclusive : ExecutionJob → ExecutionJob → Type 0
  Exclusive j k = same_key j.concurrency_key k.concurrency_key ≡ false

  abbrev elsewhere : ℕ → ExecutionJob → Bool
  elsewhere m j = not (same_key j.concurrency_key (some (key m)))

  -- A slot is held by one of a list of exclusive jobs at most.
  others_elsewhere :
      (m : ℕ) (j : ExecutionJob) (js : List ExecutionJob)
      → elsewhere m j ≡ false
      → All (Exclusive j) js
      → length (keep (elsewhere m) js) ≡ length js
  others_elsewhere m j [] e a = refl
  others_elsewhere m j (k ∷ js) e a =
      let apart : elsewhere m k ≡ true =
        key_apart j.concurrency_key k.concurrency_key (key m) (ground (arith, e)) a.0 in
      rw apart (ap suc (others_elsewhere m j js e a.1))

  lose_one :
      (m : ℕ) (js : List ExecutionJob)
      → Pairwise Exclusive js
      → length js ≤ suc (length (keep (elsewhere m) js))
  lose_one m [] p = omega arith
  lose_one m (j ∷ js) p = elim (Bool-cases (elsewhere m j)) [
    | inl e ↦ let rest = lose_one m js p.1 in rw e (omega (arith, rest))
    | inr e ↦ let same = others_elsewhere m j js e p.0 in rw e (omega (arith, same))
  ]

  -- Without the jobs in slot `m`, the others are in the slots below it.
  below :
      (m : ℕ) (js : List ExecutionJob)
      → All (InSlot (suc m)) js
      → All (InSlot m) (keep (elsewhere m) js)
  below m [] a = tt
  below m (j ∷ js) a = elim (Bool-cases (elsewhere m j)) [
    | inl e ↦
        let (k, lt, held) = a.0 in
        let differs : k ≢ m = λ same. held_there j (key m) (held ∙ ap (λ n. some (key n)) same) e in
        rw e ((k, omega (arith, lt, differs), held), below m js a.1)
    | inr e ↦ rw e (below m js a.1)
  ]

  pub Exclusive-length :
      (m : ℕ) (js : List ExecutionJob) → All (InSlot m) js → Pairwise Exclusive js → length js ≤ m
  Exclusive-length zero [] a p = omega arith
  Exclusive-length zero (j ∷ js) a p = absurd (omega (arith, a.0.1))
  Exclusive-length (suc m) js a p =
      let rest =
        Exclusive-length m (keep (elsewhere m) js) (below m js a)
          (Pairwise-keep Exclusive (elsewhere m) js p) in
      let one = lose_one m js p in omega (arith, rest, one)

Pairwise-of {κ μ ν} :
    (P : ExecutionJob → Type κ) (R : ExecutionJob → ExecutionJob → Type μ)
    (S : ExecutionJob → ExecutionJob → Type ν) (js : List ExecutionJob)
    → ((j k : ExecutionJob) → P j → P k → R j k → S j k)
    → All P js
    → Pairwise R js
    → Pairwise S js
Pairwise-of P R S [] h a p = tt
Pairwise-of P R S (j ∷ js) h a p = (
  All-imp (λ k. P k × R j k) (S j) js (λ k r. h j k a.0 r.0 r.1) (All-both P (R j) js a.1 p.0),
  Pairwise-of P R S js h a.1 p.1,
)

All-keep-test :
    (t : ExecutionJob → Bool) (js : List ExecutionJob) → All (λ j. t j ≡ true) (keep t js)
All-keep-test t [] = tt
All-keep-test t (j ∷ js) = elim (Bool-cases (t j)) [
  | inl e ↦ rw e (e, All-keep-test t js)
  | inr e ↦ rw e (All-keep-test t js)
]

-- x
pub slots_bound :
    (key : ℕ → Text) (m : ℕ) (t : ExecutionJob → Bool) (js : List ExecutionJob)
    → Pairwise Apart js
    → All (InSlot key m) (keep (λ j. is_running j.status && t j) js)
    → length (keep (λ j. is_running j.status && t j) js) ≤ m
slots_bound key m t js p a =
    let runs = keep (λ j. is_running j.status && t j) js in
    Exclusive-length key m runs a (
      Pairwise-of (λ j. (is_running j.status && t j) ≡ true) Apart _ runs
        (λ j k r q apart. apart.exclusive (ground (arith, r)) (ground (arith, q)))
        (All-keep-test _ js) (Pairwise-keep Apart _ js p))
