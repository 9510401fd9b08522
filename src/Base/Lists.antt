-- ===== src/Base/Lists.antt =====
-- Predicates on lists by recursion, and how they pass through `map` and `filter`.
use Prim.Native.Nat.{ℕ, suc}
use mathlib.Core.Path.{◌≡◌, refl, subst}
use native.Mathlib.Omega.{arith}
use mathlib.Core.Logic.{inl, inr}
use mathlib.Core.Bool.{Bool, true, false}
use mathlib.Core.List.{List, [], ◌∷◌, ◌++◌, map}
use social_pilot_ai.Base.Tests.{if◌then◌else◌, Bool-cases}

module _ {ℓ} {A : Type ℓ} where
  abbrev pub length : List A → ℕ
  length [] = 0
  length (_ ∷ xs) = suc (length xs)

  -- The elements that pass a Boolean test, in order.
  abbrev pub keep : (A → Bool) → List A → List A
  keep p [] = []
  keep p (x ∷ xs) = if p x then x ∷ keep p xs else keep p xs

  -- Python's `all` and `any` over a list.
  abbrev pub all_of : (A → Bool) → List A → Bool
  all_of p [] = true
  all_of p (x ∷ xs) = if p x then all_of p xs else false

  abbrev pub any_of : (A → Bool) → List A → Bool
  any_of p [] = false
  any_of p (x ∷ xs) = if p x then true else any_of p xs

module _ {ℓ κ} {A : Type ℓ} where
  abbrev pub All : (A → Type κ) → List A → Type κ
  All P [] = Unit
  All P (x ∷ xs) = P x × All P xs

  abbrev pub Pairwise : (A → A → Type κ) → List A → Type κ
  Pairwise R [] = Unit
  Pairwise R (x ∷ xs) = All (R x) xs × Pairwise R xs

module _ {ℓ κ} {A : Type ℓ} where
  pub All-append : (P : A → Type κ) (xs ys : List A) → All P xs → All P ys → All P (xs ++ ys)
  All-append P [] ys hx hy = hy
  All-append P (x ∷ xs) ys hx hy = (hx.0, All-append P xs ys hx.1 hy)

  pub All-intro : (P : A → Type κ) (xs : List A) → ((x : A) → P x) → All P xs
  All-intro P [] h = tt
  All-intro P (x ∷ xs) h = (h x, All-intro P xs h)

module _ {ℓ κ μ} {A : Type ℓ} where
  pub All-imp :
      (P : A → Type κ) (Q : A → Type μ) (xs : List A) → ((x : A) → P x → Q x) → All P xs → All Q xs
  All-imp P Q [] h a = tt
  All-imp P Q (x ∷ xs) h a = (h x a.0, All-imp P Q xs h a.1)

  pub All-map :
      (P : A → Type κ) (Q : A → Type μ) (g : A → A) (xs : List A)
      → ((x : A) → P x → Q (g x))
      → All P xs
      → All Q (map g xs)
  All-map P Q g [] h a = tt
  All-map P Q g (x ∷ xs) h a = (h x a.0, All-map P Q g xs h a.1)

module _ {ℓ κ} {A : Type ℓ} where
  -- One element at the end, which every other is related to.
  pub Pairwise-snoc :
      (R : A → A → Type κ) (xs : List A) (y : A)
      → All (λ x. R x y) xs
      → Pairwise R xs
      → Pairwise R (xs ++ y ∷ [])
  Pairwise-snoc R [] y a p = (tt, tt)
  Pairwise-snoc R (x ∷ xs) y a p =
      (All-append (R x) xs (y ∷ []) p.0 (a.0, tt), Pairwise-snoc R xs y a.1 p.1)

module _ {ℓ κ μ} {A : Type ℓ} where
  -- Each element's own implication, applied to its own fact.
  pub All-zip :
      (P : A → Type κ) (Q : A → Type μ) (xs : List A)
      → All (λ x. P x → Q x) xs
      → All P xs
      → All Q xs
  All-zip P Q [] h p = tt
  All-zip P Q (x ∷ xs) h p = (h.0 p.0, All-zip P Q xs h.1 p.1)

  pub All-both :
      (P : A → Type κ) (Q : A → Type μ) (xs : List A)
      → All P xs
      → All Q xs
      → All (λ x. P x × Q x) xs
  All-both P Q [] p q = tt
  All-both P Q (x ∷ xs) p q = ((p.0, q.0), All-both P Q xs p.1 q.1)

  -- A relation that a map respects, between elements that meet `P`, passes through the map.
  pub Pairwise-map-on :
      (P : A → Type κ) (R : A → A → Type μ) (g : A → A) (xs : List A)
      → ((x y : A) → P x → P y → R x y → R (g x) (g y))
      → All P xs
      → Pairwise R xs
      → Pairwise R (map g xs)
  Pairwise-map-on P R g [] h a p = tt
  Pairwise-map-on P R g (x ∷ xs) h a p = (
    All-map (λ y. P y × R x y) (R (g x)) g xs (λ y r. h x y a.0 r.0 r.1)
        (All-both P (R x) xs a.1 p.0),
    Pairwise-map-on P R g xs h a.1 p.1,
  )

module _ {ℓ} {A : Type ℓ} where
  pub any_of-eq-false :
      (p : A → Bool) (xs : List A) → any_of p xs ≡ false → All (λ x. p x ≡ false) xs
  any_of-eq-false p [] h = tt
  any_of-eq-false p (x ∷ xs) h = ground (arith, any_of-eq-false p xs)

  pub any_of-false : (p : A → Bool) (xs : List A) → All (λ x. p x ≡ false) xs → any_of p xs ≡ false
  any_of-false p [] h = refl
  any_of-false p (x ∷ xs) h = ground (arith, h.0, any_of-false p xs h.1)

module _ {ℓ κ} {A : Type ℓ} where
  -- What holds of the elements that are kept holds of all elements that pass the test.
  pub All-keep :
      (P : A → Type κ) (p : A → Bool) (xs : List A)
      → All P (keep p xs)
      → All (λ x. p x ≡ true → P x) xs
  All-keep P p [] h = tt
  All-keep P p (x ∷ xs) h = elim (Bool-cases (p x)) [
    | inl e ↦
        let k : All P (x ∷ keep p xs) =
          subst (λ b. All P (if b then x ∷ keep p xs else keep p xs)) e h in
        (λ t. k.0, All-keep P p xs k.1)
    | inr e ↦ (
      λ t. absurd (cc (t, e)),
      All-keep P p xs (subst (λ b. All P (if b then x ∷ keep p xs else keep p xs)) e h),
    )
  ]
