-- ===== src/Base/Numerals.antt =====
-- Decimal numerals are digits, and are read back as the number they were written from.
use Prim.Native.Nat.{ℕ, zero, suc, ◌+◌, ◌-◌, ◌*◌, ◌/◌, ◌%◌, ◌≤◌, ◌<◌}
use mathlib.Core.Path.{◌≡◌, refl, sym, ap, ◌∙◌, subst}
use mathlib.Core.Logic.{inl, inr}
use native.Mathlib.Omega.{arith}
use mathlib.Core.Bool.{Bool, true, false}
use mathlib.Core.List.{[], ◌∷◌, ◌++◌, reverse, reverse-cons, reverse-reverse}
use social_pilot_ai.Base.Tests.{ltb, Bool-cases}
use social_pilot_ai.Base.Lists.{length, All, All-append}
use social_pilot_ai.Base.Strings.{Text, is_digit, is_space, drop_spaces, strip}
use social_pilot_ai.Base.Decimal.{digit, digits_onto, decimal, zeros, padded, value_from}

abbrev pub Digits : Text → Type 0
Digits = All (λ c. is_digit c ≡ true)

digit-is_digit : (n : ℕ) → n < 10 → is_digit (digit n) ≡ true
digit-is_digit n h = ground (arith, h)

value_from-digit :
    (acc n : ℕ) (t : Text) → value_from acc (digit n ∷ t) ≡ value_from (acc * 10 + n) t
unfolding value_from
value_from-digit acc n t =
    let same : acc * 10 + (b'0' + n - b'0') ≡ acc * 10 + n = omega arith in
    ap (λ m. value_from m t) same

digits_small : (fuel n : ℕ) (t : Text) → ltb n 10 ≡ true → digits_onto (suc fuel) n t ≡ digit n ∷ t
unfolding digits_onto
digits_small fuel n t e =
    subst
      (λ (b : Bool).
        elim b [ true ↦ digit n ∷ t | false ↦ digits_onto fuel (n / 10) (digit (n % 10) ∷ t) ]
        ≡ digit n ∷ t)
      (sym e) refl

digits_large :
    (fuel n : ℕ) (t : Text)
    → ltb n 10 ≡ false
    → digits_onto (suc fuel) n t ≡ digits_onto fuel (n / 10) (digit (n % 10) ∷ t)
unfolding digits_onto
digits_large fuel n t e =
    subst
      (λ (b : Bool).
        elim b [ true ↦ digit n ∷ t | false ↦ digits_onto fuel (n / 10) (digit (n % 10) ∷ t) ]
        ≡ digits_onto fuel (n / 10) (digit (n % 10) ∷ t))
      (sym e) refl

digits_onto-Digits : (fuel n : ℕ) (t : Text) → Digits t → Digits (digits_onto fuel n t)
unfolding digits_onto
digits_onto-Digits zero n t h = h
digits_onto-Digits (suc fuel) n t h = elim (Bool-cases (ltb n 10)) [
  | inl e ↦ rw (digits_small fuel n t e) (digit-is_digit n (ground (arith, e)), h)
  | inr e ↦
      rw (digits_large fuel n t e)
        (digits_onto-Digits fuel (n / 10) _ (digit-is_digit (n % 10) (omega arith), h))
]

value_from-digits_onto :
    (fuel n : ℕ) (t : Text) → n < fuel → value_from 0 (digits_onto fuel n t) ≡ value_from n t
value_from-digits_onto zero n t h = absurd (omega (arith, h))
value_from-digits_onto (suc fuel) n t h = elim (Bool-cases (ltb n 10)) [
  | inl e ↦ rw (digits_small fuel n t e) (
      value_from-digit 0 n t
      ∙ (let same : 0 * 10 + n ≡ n = omega arith in ap (λ m. value_from m t) same))
  | inr e ↦
      let big : 10 ≤ n = ground (arith, e) in
      let same : n / 10 * 10 + n % 10 ≡ n = omega arith in
      rw (digits_large fuel n t e) (
        value_from-digits_onto fuel (n / 10) (digit (n % 10) ∷ t) (omega (arith, big, h))
        ∙ value_from-digit (n / 10) (n % 10) t
        ∙ ap (λ m. value_from m t) same)
]

pub decimal-Digits : (n : ℕ) → Digits (decimal n)
unfolding decimal
decimal-Digits n = digits_onto-Digits (suc n) n [] tt

-- A numeral is read back as its number.
pub value_from-decimal : (n : ℕ) → value_from 0 (decimal n) ≡ n
unfolding decimal value_from
value_from-decimal n = value_from-digits_onto (suc n) n [] (omega arith)

length-digits_onto :
    (fuel n : ℕ) (t : Text) → 1 ≤ fuel → suc (length t) ≤ length (digits_onto fuel n t)
unfolding digits_onto
length-digits_onto zero n t h = absurd (omega (arith, h))
length-digits_onto (suc zero) n t h = elim (Bool-cases (ltb n 10)) [
  | inl e ↦ rw (digits_small zero n t e) (omega arith)
  | inr e ↦ rw (digits_large zero n t e, digits_onto) (omega arith)
]
length-digits_onto (suc (suc fuel)) n t h = elim (Bool-cases (ltb n 10)) [
  | inl e ↦ rw (digits_small (suc fuel) n t e) (omega arith)
  | inr e ↦
      let rest = length-digits_onto (suc fuel) (n / 10) (digit (n % 10) ∷ t) (omega arith) in
      rw (digits_large (suc fuel) n t e) (omega (arith, rest))
]

pub decimal-nonempty : (n : ℕ) → 1 ≤ length (decimal n)
unfolding decimal
decimal-nonempty n = length-digits_onto (suc n) n [] (omega arith)

-- `10 ** k`
abbrev pub limit : ℕ → ℕ
limit zero = 1
limit (suc k) = limit k * 10

digits_onto-short :
    (fuel n k : ℕ) (t : Text) → n < limit (suc k) → length (digits_onto fuel n t) ≤ suc k + length t
unfolding digits_onto
digits_onto-short zero n k t h = omega arith
digits_onto-short (suc fuel) n zero t h =
    let small : ltb n 10 ≡ true = ground (arith, h) in
    rw (digits_small fuel n t small) (omega arith)
digits_onto-short (suc fuel) n (suc k) t h = elim (Bool-cases (ltb n 10)) [
  | inl e ↦ rw (digits_small fuel n t e) (omega arith)
  | inr e ↦
      let less : n / 10 < limit (suc k) = omega (arith, h) in
      let rest = digits_onto-short fuel (n / 10) k (digit (n % 10) ∷ t) less in
      rw (digits_large fuel n t e) (omega (arith, rest))
]

length-zeros : (n : ℕ) (t : Text) → length (zeros n ++ t) ≡ n + length t
unfolding zeros
length-zeros zero t = omega arith
length-zeros (suc n) t = omega (arith, length-zeros n t)

-- A number below `10 ** width` is padded to that width.
pub length-padded : (k n : ℕ) → n < limit (suc k) → length (padded (suc k) n) ≡ suc k
unfolding padded decimal
length-padded k n h =
    let short = digits_onto-short (suc n) n k [] h in
    let all = length-zeros (suc k - length (decimal n)) (decimal n) in omega (arith, short, all)

pub padded-nonempty : (width n : ℕ) → 1 ≤ length (padded width n)
unfolding padded
padded-nonempty width n =
    let all = length-zeros (width - length (decimal n)) (decimal n) in
    let one = decimal-nonempty n in omega (arith, all, one)

zeros-Digits : (n : ℕ) → Digits (zeros n)
unfolding zeros
zeros-Digits zero = tt
zeros-Digits (suc n) = (refl, zeros-Digits n)

value_from-zeros : (n : ℕ) (t : Text) → value_from 0 (zeros n ++ t) ≡ value_from 0 t
unfolding zeros value_from
value_from-zeros zero t = refl
value_from-zeros (suc n) t = value_from-zeros n t

pub padded-Digits : (width n : ℕ) → Digits (padded width n)
unfolding padded
padded-Digits width n =
    All-append _ (zeros (width - length (decimal n))) (decimal n) (zeros-Digits _)
      (decimal-Digits n)

-- So is a numeral with leading zeros.
pub value_from-padded : (width n : ℕ) → value_from 0 (padded width n) ≡ n
unfolding padded
value_from-padded width n =
    value_from-zeros (width - length (decimal n)) (decimal n) ∙ value_from-decimal n

-- A text without spaces is its own `strip`.
abbrev pub Solid : Text → Type 0
Solid = All (λ c. is_space c ≡ false)

drop_spaces-Solid : (t : Text) → Solid t → drop_spaces t ≡ t
unfolding drop_spaces
drop_spaces-Solid [] h = refl
drop_spaces-Solid (c ∷ t) h = rw h.0 refl

reverse-Solid : (t : Text) → Solid t → Solid (reverse t)
reverse-Solid [] h = tt
reverse-Solid (c ∷ t) h =
    subst Solid (sym (reverse-cons c t))
      (All-append _ (reverse t) (c ∷ []) (reverse-Solid t h.1) (h.0, tt))

pub strip-Solid : (t : Text) → Solid t → strip t ≡ t
unfolding strip
strip-Solid t h =
    ap (λ s. reverse (drop_spaces (reverse s))) (drop_spaces-Solid t h)
    ∙ ap reverse (drop_spaces-Solid (reverse t) (reverse-Solid t h))
    ∙ reverse-reverse t
