-- ===== src/Artifacts/Streams.antt =====
-- What is streamed of a file.
use social_pilot_ai.Base.{
  ℕ, zero, suc, ◌-◌, ◌≤◌, ◌<◌, ◌≡◌, refl, sym, ap, ◌∙◌, true, false, Option, none, some, List, [],
  ◌∷◌, ◌++◌, length, flat_map, All, Bool-cases, inl, inr, arith,
}
use social_pilot_ai.Artifacts.Stream.{
  chunk_size, take, skip, is_empty, goes_on, read_size, less, chunks, stream_file,
}

-- The bytes that a request of this length asks for.
abbrev pub wanted : Option ℕ → List ℕ → List ℕ
wanted none left = left
wanted (some n) left = take n left

abbrev pub joined : List (List ℕ) → List ℕ
joined cs = flat_map (λ c. c) cs

take-all : (n : ℕ) (xs : List ℕ) → length xs ≤ n → take n xs ≡ xs
take-all zero [] h = refl
take-all zero (x ∷ xs) h = absurd (omega (arith, h))
take-all (suc n) [] h = refl
take-all (suc n) (x ∷ xs) h = ap (λ ys. x ∷ ys) (take-all n xs (omega (arith, h)))

take-skip : (n : ℕ) (xs : List ℕ) → take n xs ++ skip n xs ≡ xs
take-skip zero xs = refl
take-skip (suc n) [] = refl
take-skip (suc n) (x ∷ xs) = ap (λ ys. x ∷ ys) (take-skip n xs)

take-nil : (n : ℕ) → take {A = ℕ} n [] ≡ []
take-nil zero = refl
take-nil (suc n) = refl

take-split :
    (k n : ℕ) (xs : List ℕ)
    → k ≤ n
    → take k xs ++ take (n - length (take k xs)) (skip k xs) ≡ take n xs
take-split zero n xs h = let same : n - 0 ≡ n = omega arith in ap (λ m. take m xs) same
take-split (suc k) zero xs h = absurd (omega (arith, h))
take-split (suc k) (suc n) [] h = take-nil (suc n - 0)
take-split (suc k) (suc n) (x ∷ xs) h =
    let same : suc n - suc (length (take k xs)) ≡ n - length (take k xs) = omega arith in
    rw same (ap (λ ys. x ∷ ys) (take-split k n xs (omega (arith, h))))

length-skip : (n : ℕ) (xs : List ℕ) → length (skip n xs) ≡ length xs - length (take n xs)
length-skip zero xs = omega arith
length-skip (suc n) [] = omega arith
length-skip (suc n) (x ∷ xs) = omega (arith, length-skip n xs)

take-shorter : (n : ℕ) (xs : List ℕ) → length (take n xs) ≤ length xs
take-shorter zero xs = omega arith
take-shorter (suc n) [] = omega arith
take-shorter (suc n) (x ∷ xs) = omega (arith, take-shorter n xs)

length-take-le : (n : ℕ) (xs : List ℕ) → length (take n xs) ≤ n
length-take-le zero xs = omega arith
length-take-le (suc n) [] = omega arith
length-take-le (suc n) (x ∷ xs) = omega (arith, length-take-le n xs)

nonempty : (xs : List ℕ) → is_empty xs ≡ false → 1 ≤ length xs
nonempty [] h = absurd (cc)
nonempty (x ∷ xs) h = omega arith

-- Nothing is read only at the end of the file.
nothing_left : (n : ℕ) (left : List ℕ) → 1 ≤ n → is_empty (take n left) ≡ true → left ≡ []
nothing_left zero left p h = absurd (omega (arith, p))
nothing_left (suc n) [] p h = refl
nothing_left (suc n) (x ∷ xs) p h = absurd (cc)

reads_some :
    (size : ℕ) (remaining : Option ℕ)
    → 1 ≤ size
    → goes_on remaining ≡ true
    → 1 ≤ read_size size remaining
reads_some size none p h = p
reads_some size (some n) p h = ground (arith, h, p)

read_size-le : (size : ℕ) (remaining : Option ℕ) → read_size size remaining ≤ size
read_size-le size none = omega arith
read_size-le size (some n) = ground arith

wanted-nil : (remaining : Option ℕ) → wanted remaining [] ≡ []
wanted-nil none = refl
wanted-nil (some n) = take-nil n

wanted-none-left :
    (remaining : Option ℕ) (left : List ℕ) → goes_on remaining ≡ false → wanted remaining left ≡ []
wanted-none-left none left h = absurd (cc)
wanted-none-left (some zero) left h = refl
wanted-none-left (some (suc n)) left h = absurd (ground (arith, h))

-- A chunk and what is wanted after it are what was wanted.
wanted-split :
    (size : ℕ) (remaining : Option ℕ) (left : List ℕ)
    → let chunk = take (read_size size remaining) left in
      chunk ++ wanted (less remaining (length chunk)) (skip (read_size size remaining) left)
      ≡ wanted remaining left
wanted-split size none left = take-skip size left
wanted-split size (some n) left = take-split (read_size size (some n)) n left (ground arith)

module _ (size : ℕ) (p : 1 ≤ size) where
  shorter :
      (fuel : ℕ) (remaining : Option ℕ) (left : List ℕ)
      → length left < suc fuel
      → is_empty (take (read_size size remaining) left) ≡ false
      → length (skip (read_size size remaining) left) < fuel
  shorter fuel remaining left h e =
      let read = length-skip (read_size size remaining) left in
      let one = nonempty (take (read_size size remaining) left) e in
      let split = take-shorter (read_size size remaining) left in omega (arith, read, one, h, split)

  -- The chunks make up what is wanted.
  joined-chunks :
      (fuel : ℕ) (remaining : Option ℕ) (left : List ℕ)
      → length left < fuel
      → joined (chunks fuel size remaining left) ≡ wanted remaining left
  unfolding chunks
  joined-chunks zero remaining left h = absurd (omega (arith, h))
  joined-chunks (suc fuel) remaining left h = elim (Bool-cases (goes_on remaining)) [
    | inr e ↦ rw e (sym (wanted-none-left remaining left e))
    | inl e ↦ elim (Bool-cases (is_empty (take (read_size size remaining) left))) [
      | inl f ↦
          let none_left =
            nothing_left (read_size size remaining) left (reads_some size remaining p e) f in
          rw (e, f) (sym (ap (wanted remaining) none_left ∙ wanted-nil remaining))
      | inr f ↦
          rw (e, f)
            (ap (λ ys. take (read_size size remaining) left ++ ys)
                (joined-chunks fuel (less remaining (length (take (read_size size remaining) left)))
                  (skip (read_size size remaining) left) (shorter fuel remaining left h f))
              ∙ wanted-split size remaining left)
    ]
  ]

  chunks-sizes :
      (fuel : ℕ) (remaining : Option ℕ) (left : List ℕ)
      → All (λ c. (1 ≤ length c) × (length c ≤ size)) (chunks fuel size remaining left)
  unfolding chunks
  chunks-sizes zero remaining left = tt
  chunks-sizes (suc fuel) remaining left = elim (Bool-cases (goes_on remaining)) [
    | inr e ↦ rw e tt
    | inl e ↦ elim (Bool-cases (is_empty (take (read_size size remaining) left))) [
      | inl f ↦ rw (e, f) tt
      | inr f ↦
          let small = length-take-le (read_size size remaining) left in
          let most = read_size-le size remaining in
          rw (e, f)
            (
              (nonempty (take (read_size size remaining) left) f, omega (arith, small, most)),
              chunks-sizes fuel _ _,
            )
    ]
  ]

  -- More fuel than bytes and one changes nothing.
  chunks-fuel :
      (fuel more : ℕ) (remaining : Option ℕ) (left : List ℕ)
      → length left < fuel
      → length left < more
      → chunks fuel size remaining left ≡ chunks more size remaining left
  unfolding chunks
  chunks-fuel zero more remaining left h k = absurd (omega (arith, h))
  chunks-fuel (suc fuel) zero remaining left h k = absurd (omega (arith, k))
  chunks-fuel (suc fuel) (suc more) remaining left h k = elim (Bool-cases (goes_on remaining)) [
    | inr e ↦ rw e refl
    | inl e ↦ elim (Bool-cases (is_empty (take (read_size size remaining) left))) [
      | inl f ↦ rw (e, f) refl
      | inr f ↦
          rw (e, f)
            (ap (λ ys. take (read_size size remaining) left ∷ ys)
              (chunks-fuel fuel more _ _ (shorter fuel remaining left h f)
                (shorter more remaining left k f)))
    ]
  ]

-- The chunks that are streamed make up exactly the bytes of the file from the start on, cut at the
-- length if there is one; each has at least one byte and at most 64 KiB; and a loop with any more
-- turns than bytes left gives the same chunks, so it has ended by then.
pub stream_file_lem :
    (content : List ℕ) (start : ℕ) (length' : Option ℕ)
    → (joined (stream_file content start length') ≡ wanted length' (skip start content))
      × All (λ c. (1 ≤ length c) × (length c ≤ 65536)) (stream_file content start length')
      × ((fuel : ℕ)
          → length (skip start content) < fuel
          → chunks fuel chunk_size length' (skip start content) ≡ stream_file content start length')
unfolding stream_file
stream_file_lem content start length' =
    let left = skip start content in
    (
      joined-chunks chunk_size (omega arith) (suc (length left)) length' left (omega arith),
      chunks-sizes chunk_size (omega arith) (suc (length left)) length' left,
      λ fuel h.
          chunks-fuel chunk_size (omega arith) fuel (suc (length left)) length' left h
            (omega arith),
    )
