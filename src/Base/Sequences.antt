-- ===== src/Base/Sequences.antt =====
-- Python's loops over sequences: `range`, nested `for`, `enumerate`, `sorted` by a numeric key,
-- `len(set(xs))` and `in`.
use Prim.Native.Nat.{ℕ, zero, suc}
use mathlib.Core.Bool.{Bool}
use mathlib.Core.List.{List, [], ◌∷◌, ◌++◌}
use social_pilot_ai.Base.Tests.{leb, ◌==◌, if◌then◌else◌}
use social_pilot_ai.Base.Lists.{any_of}

-- `range(a, a + n)`
abbrev pub range_from : ℕ → ℕ → List ℕ
range_from a zero = []
range_from a (suc n) = a ∷ range_from (suc a) n

module _ {ℓ κ} {A : Type ℓ} {B : Type κ} where
  -- What a `for` loop appends, element by element.
  abbrev pub flat_map : (A → List B) → List A → List B
  flat_map f [] = []
  flat_map f (x ∷ xs) = f x ++ flat_map f xs

module _ {ℓ} {A : Type ℓ} where
  abbrev pub insert_with : (A → A → Bool) → A → List A → List A
  insert_with before x [] = x ∷ []
  insert_with before x (y ∷ ys) =
      let rest = insert_with before x ys in if before x y then x ∷ y ∷ ys else y ∷ rest

  abbrev pub sort_with : (A → A → Bool) → List A → List A
  sort_with before [] = []
  sort_with before (x ∷ xs) = insert_with before x (sort_with before xs)

  abbrev pub sort_by : (A → ℕ) → List A → List A
  sort_by key = sort_with (λ x y. leb (key x) (key y))

  -- One of each: the elements of `set(xs)`, told apart by a key.
  abbrev pub set_by : (A → ℕ) → List A → List A
  set_by key [] = []
  set_by key (x ∷ xs) =
      let rest = set_by key xs in if any_of (λ y. key x == key y) xs then rest else x ∷ rest

abbrev pub member : ℕ → List ℕ → Bool
member x ys = any_of (λ y. x == y) ys
