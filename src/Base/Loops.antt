-- ===== src/Base/Loops.antt =====
-- How the loops over sequences carry lengths, predicates and relations.
use Prim.Native.Nat.{ℕ, zero, suc, ◌+◌, ◌*◌, ◌≤◌, ◌<◌}
use mathlib.Core.Path.{◌≡◌, refl, ap, ◌∙◌}
use mathlib.Core.Logic.{inl, inr}
use native.Mathlib.Omega.{arith}
use mathlib.Core.Bool.{Bool, false}
use mathlib.Core.List.{List, [], ◌∷◌, ◌++◌, map}
use social_pilot_ai.Base.Tests.{◌==◌, Bool-cases}
use social_pilot_ai.Base.Lists.{
  length, keep, any_of, any_of-eq-false, All, Pairwise, All-append, All-intro, All-imp,
}
use social_pilot_ai.Base.Sequences.{range_from, flat_map, insert_with, sort_with, set_by}

module _ {ℓ} {A : Type ℓ} where
  pub length-append : (xs ys : List A) → length (xs ++ ys) ≡ length xs + length ys
  length-append [] ys = omega arith
  length-append (x ∷ xs) ys = omega (arith, length-append xs ys)

  length-insert_with :
      (before : A → A → Bool) (x : A) (xs : List A)
      → length (insert_with before x xs) ≡ suc (length xs)
  length-insert_with before x [] = refl
  length-insert_with before x (y ∷ ys) = ground (arith, length-insert_with before x ys)

  pub length-sort_with :
      (before : A → A → Bool) (xs : List A) → length (sort_with before xs) ≡ length xs
  length-sort_with before [] = refl
  length-sort_with before (x ∷ xs) =
      length-insert_with before x (sort_with before xs) ∙ ap suc (length-sort_with before xs)

  set_by-le : (key : A → ℕ) (xs : List A) → length (set_by key xs) ≤ length xs
  set_by-le key [] = omega arith
  set_by-le key (x ∷ xs) = ground (arith, set_by-le key xs)

  -- A list is as long as its set only if no key occurs twice.
  pub set_by-Pairwise :
      (key : A → ℕ) (xs : List A)
      → length (set_by key xs) ≡ length xs
      → Pairwise (λ x y. (key x == key y) ≡ false) xs
  set_by-Pairwise key [] h = tt
  set_by-Pairwise key (x ∷ xs) h =
      let smaller = set_by-le key xs in
      elim (Bool-cases (any_of (λ y. key x == key y) xs)) [
        | inl e ↦ absurd (ground (arith, h, e, smaller))
        | inr e ↦ (
          any_of-eq-false (λ y. key x == key y) xs e,
          set_by-Pairwise key xs (ground (arith, h, e)),
        )
      ]

pub length-range_from : (a n : ℕ) → length (range_from a n) ≡ n
length-range_from a zero = refl
length-range_from a (suc n) = ap suc (length-range_from (suc a) n)

range_from-above : (a b n : ℕ) → a ≤ b → All (λ k. a ≤ k) (range_from b n)
range_from-above a b zero h = tt
range_from-above a b (suc n) h = (h, range_from-above a (suc b) n (omega (arith, h)))

pub range_from-Pairwise : (a n : ℕ) → Pairwise (λ i k. i < k) (range_from a n)
range_from-Pairwise a zero = tt
range_from-Pairwise a (suc n) = (
  All-imp _ _ (range_from (suc a) n) (λ k h. omega (arith, h))
      (range_from-above (suc a) (suc a) n (omega arith)),
  range_from-Pairwise (suc a) n,
)

module _ {ℓ κ} {A : Type ℓ} {B : Type κ} where
  pub length-map : (f : A → B) (xs : List A) → length (map f xs) ≡ length xs
  length-map f [] = refl
  length-map f (x ∷ xs) = ap suc (length-map f xs)

  pub length-flat_map :
      (f : A → List B) (n : ℕ) (xs : List A)
      → ((x : A) → length (f x) ≡ n)
      → length (flat_map f xs) ≡ length xs * n
  length-flat_map f n [] h = omega arith
  length-flat_map f n (x ∷ xs) h =
      length-append (f x) (flat_map f xs) ∙ rw (h x) (rw (length-flat_map f n xs h) (grind arith))

module _ {ℓ κ μ} {A : Type ℓ} {B : Type κ} where
  pub All-map-intro :
      (P : B → Type μ) (f : A → B) (xs : List A) → ((x : A) → P (f x)) → All P (map f xs)
  All-map-intro P f [] h = tt
  All-map-intro P f (x ∷ xs) h = (h x, All-map-intro P f xs h)

  pub All-flat_map :
      (P : B → Type μ) (f : A → List B) (xs : List A)
      → ((x : A) → All P (f x))
      → All P (flat_map f xs)
  All-flat_map P f [] h = tt
  All-flat_map P f (x ∷ xs) h = All-append P (f x) (flat_map f xs) (h x) (All-flat_map P f xs h)

module _ {ℓ κ} {A : Type ℓ} where
  All-insert_with :
      (P : A → Type κ) (before : A → A → Bool) (x : A) (xs : List A)
      → P x
      → All P xs
      → All P (insert_with before x xs)
  All-insert_with P before x [] p h = (p, tt)
  All-insert_with P before x (y ∷ ys) p h = elim (Bool-cases (before x y)) [
    | inl e ↦ rw e (p, h)
    | inr e ↦ rw e (h.0, All-insert_with P before x ys p h.1)
  ]

  Pairwise-insert_with :
      (R : A → A → Type κ) (before : A → A → Bool) (x : A) (xs : List A)
      → ((a b : A) → R a b → R b a)
      → All (R x) xs
      → Pairwise R xs
      → Pairwise R (insert_with before x xs)
  Pairwise-insert_with R before x [] comm a p = (tt, tt)
  Pairwise-insert_with R before x (y ∷ ys) comm a p = elim (Bool-cases (before x y)) [
    | inl e ↦ rw e (a, p)
    | inr e ↦ rw e (
      All-insert_with (R y) before x ys (comm x y a.0) p.0,
      Pairwise-insert_with R before x ys comm a.1 p.1,
    )
  ]

  pub All-sort_with :
      (P : A → Type κ) (before : A → A → Bool) (xs : List A)
      → All P xs
      → All P (sort_with before xs)
  All-sort_with P before [] h = tt
  All-sort_with P before (x ∷ xs) h =
      All-insert_with P before x (sort_with before xs) h.0 (All-sort_with P before xs h.1)

  -- Sorting keeps a relation that goes both ways.
  pub Pairwise-sort_with :
      (R : A → A → Type κ) (before : A → A → Bool) (xs : List A)
      → ((a b : A) → R a b → R b a)
      → Pairwise R xs
      → Pairwise R (sort_with before xs)
  Pairwise-sort_with R before [] comm p = tt
  Pairwise-sort_with R before (x ∷ xs) comm p =
      Pairwise-insert_with R before x (sort_with before xs) comm (All-sort_with (R x) before xs p.0)
        (Pairwise-sort_with R before xs comm p.1)

  All-kept : (P : A → Type κ) (p : A → Bool) (xs : List A) → All P xs → All P (keep p xs)
  All-kept P p [] h = tt
  All-kept P p (x ∷ xs) h = elim (Bool-cases (p x)) [
    | inl e ↦ rw e (h.0, All-kept P p xs h.1)
    | inr e ↦ rw e (All-kept P p xs h.1)
  ]

  pub Pairwise-keep :
      (R : A → A → Type κ) (p : A → Bool) (xs : List A) → Pairwise R xs → Pairwise R (keep p xs)
  Pairwise-keep R p [] h = tt
  Pairwise-keep R p (x ∷ xs) h = elim (Bool-cases (p x)) [
    | inl e ↦ rw e (All-kept (R x) p xs h.0, Pairwise-keep R p xs h.1)
    | inr e ↦ rw e (Pairwise-keep R p xs h.1)
  ]

  Pairwise-append :
      (R : A → A → Type κ) (xs ys : List A)
      → Pairwise R xs
      → Pairwise R ys
      → All (λ x. All (R x) ys) xs
      → Pairwise R (xs ++ ys)
  Pairwise-append R [] ys p q a = q
  Pairwise-append R (x ∷ xs) ys p q a =
      (All-append (R x) xs ys p.0 a.0, Pairwise-append R xs ys p.1 q a.1)

module _ {κ μ} {B : Type κ} where
  -- Every element of one list is related to every element of the other.
  abbrev pub Across : (B → B → Type μ) → List B → List B → Type μ
  Across R xs ys = All (λ x. All (R x) ys) xs

module _ {ℓ κ μ ν} {A : Type ℓ} {B : Type κ} where
  Across-flat_map :
      (R : B → B → Type μ) (S : A → A → Type ν) (f : A → List B) (x : A) (xs : List A)
      → ((a b : A) → S a b → Across R (f a) (f b))
      → All (S x) xs
      → Across R (f x) (flat_map f xs)
  Across-flat_map R S f x [] h s = All-intro _ (f x) (λ y. tt)
  Across-flat_map R S f x (y ∷ ys) h s =
      all_of_both (f x) (h x y s.0) (Across-flat_map R S f x ys h s.1)
    where
      all_of_both :
          (zs : List B)
          → Across R zs (f y)
          → Across R zs (flat_map f ys)
          → Across R zs (f y ++ flat_map f ys)
      all_of_both [] a b = tt
      all_of_both (z ∷ zs) a b =
          (All-append (R z) (f y) (flat_map f ys) a.0 b.0, all_of_both zs a.1 b.1)

  -- The results of the rounds of a loop are related if they are so within and across rounds.
  pub Pairwise-flat_map :
      (R : B → B → Type μ) (S : A → A → Type ν) (f : A → List B) (xs : List A)
      → ((x : A) → Pairwise R (f x))
      → ((a b : A) → S a b → Across R (f a) (f b))
      → Pairwise S xs
      → Pairwise R (flat_map f xs)
  Pairwise-flat_map R S f [] h across p = tt
  Pairwise-flat_map R S f (x ∷ xs) h across p =
      Pairwise-append R (f x) (flat_map f xs) (h x) (Pairwise-flat_map R S f xs h across p.1)
        (Across-flat_map R S f x xs across p.0)

  pub Pairwise-map :
      (R : B → B → Type μ) (S : A → A → Type ν) (f : A → B) (xs : List A)
      → ((a b : A) → S a b → R (f a) (f b))
      → Pairwise S xs
      → Pairwise R (map f xs)
  Pairwise-map R S f [] h p = tt
  Pairwise-map R S f (x ∷ xs) h p = (all_mapped xs p.0, Pairwise-map R S f xs h p.1)
    where
      all_mapped : (ys : List A) → All (S x) ys → All (R (f x)) (map f ys)
      all_mapped [] a = tt
      all_mapped (y ∷ ys) a = (h x y a.0, all_mapped ys a.1)
