-- ===== src/Artifacts/Headers.antt =====
-- The three forms of a range header, written with decimal numerals, and what they are parsed as.
use social_pilot_ai.Base.{
  ℕ, ◌+◌, ◌-◌, ◌*◌, ◌≤◌, ◌<◌, ◌≡◌, refl, ap, ◌∙◌, true, false, some, [], ◌∷◌, ◌++◌, Text, codes,
  length, ltb, ◌==◌, is_prefix, any_of, decimal, value_from, Digits, decimal-Digits,
  decimal-nonempty, value_from-decimal, Solid, strip-Solid, All-imp, All-append, arith,
}
use social_pilot_ai.Artifacts.Range.{
  nonnegative, digits_value, signed_value, int_of, before_dash, after_dash, min_of, closed_range,
  end_or_last, range_of_parts, range_of, is_dash, is_comma, parse_byte_range,
}

digits_value-Digits :
    (acc : ℕ) (t : Text) → Digits t → digits_value false acc t ≡ some (value_from acc t)
unfolding digits_value value_from
digits_value-Digits acc [] h = refl
digits_value-Digits acc (c ∷ t) h = rw h.0 (digits_value-Digits (acc * 10 + (c - b'0')) t h.1)

signed_value-Digits :
    (t : Text) → Digits t → 1 ≤ length t → signed_value t ≡ some (nonnegative (value_from 0 t))
unfolding digits_value value_from
signed_value-Digits [] h l = absurd (omega (arith, l))
signed_value-Digits (c ∷ t) h l =
    let no_minus : (c == b'-') ≡ false = let d = h.0 in ground (arith, d) in
    let no_plus : (c == b'+') ≡ false = let d = h.0 in ground (arith, d) in
    rw no_minus (rw no_plus (rw h.0 (rw (digits_value-Digits (0 * 10 + (c - b'0')) t h.1) refl)))

Digits-Solid : (t : Text) → Digits t → Solid t
Digits-Solid t = All-imp _ _ t (λ c d. ground (arith, d))

int_of-decimal : (n : ℕ) → int_of (decimal n) ≡ some (nonnegative n)
unfolding int_of
int_of-decimal n =
    ap signed_value (strip-Solid (decimal n) (Digits-Solid (decimal n) (decimal-Digits n)))
    ∙ signed_value-Digits (decimal n) (decimal-Digits n) (decimal-nonempty n)
    ∙ ap (λ m. some (nonnegative m)) (value_from-decimal n)

before_dash-Digits : (a b : Text) → Digits a → before_dash (a ++ b'-' ∷ b) ≡ a
before_dash-Digits [] b h = refl
before_dash-Digits (c ∷ a) b h =
    let no_minus : (c == b'-') ≡ false = let d = h.0 in ground (arith, d) in
    rw no_minus (ap (λ t. c ∷ t) (before_dash-Digits a b h.1))

after_dash-Digits : (a b : Text) → Digits a → after_dash (a ++ b'-' ∷ b) ≡ b
after_dash-Digits [] b h = refl
after_dash-Digits (c ∷ a) b h =
    let no_minus : (c == b'-') ≡ false = let d = h.0 in ground (arith, d) in
    rw no_minus (after_dash-Digits a b h.1)

no_comma : (b : Text) → Digits b → any_of is_comma b ≡ false
no_comma [] h = refl
no_comma (c ∷ b) h = let d = h.0 in ground (arith, d, no_comma b h.1)

no_comma_between : (a b : Text) → Digits a → Digits b → any_of is_comma (a ++ b'-' ∷ b) ≡ false
no_comma_between [] b h k = no_comma b k
no_comma_between (c ∷ a) b h k = let d = h.0 in ground (arith, d, no_comma_between a b h.1 k)

one_dash : (a b : Text) → any_of is_dash (a ++ b'-' ∷ b) ≡ true
one_dash [] b = refl
one_dash (c ∷ a) b = ground (arith, one_dash a b)

range_of-cons :
    (total c : ℕ) (t : Text)
    → any_of is_comma (c ∷ t) ≡ false
    → any_of is_dash (c ∷ t) ≡ true
    → range_of total (c ∷ t) ≡ range_of_parts total (before_dash (c ∷ t)) (after_dash (c ∷ t))
range_of-cons total c t h k = rw h (rw k refl)

range_of-split :
    (total : ℕ) (a b : Text)
    → Digits a
    → Digits b
    → range_of total (a ++ b'-' ∷ b) ≡ range_of_parts total a b
range_of-split total [] b h k = rw (no_comma b k) refl
range_of-split total (c ∷ a) b h k =
    range_of-cons total c (a ++ b'-' ∷ b) (no_comma_between (c ∷ a) b h k) (one_dash (c ∷ a) b)
    ∙ rw (before_dash-Digits (c ∷ a) b h) (rw (after_dash-Digits (c ∷ a) b h) refl)

-- The header with these two texts around its dash.
abbrev pub header : Text → Text → Text
header a b = codes "bytes=" ++ a ++ b'-' ∷ b

header-parsed :
    (total : ℕ) (a b : Text)
    → 0 < total
    → Digits a
    → Digits b
    → parse_byte_range (header a b) total ≡ range_of_parts total a b
unfolding parse_byte_range is_prefix
header-parsed total a b p h k =
    let some_bytes : ltb total 1 ≡ false = ground (arith, p) in
    let solid : Solid (a ++ b'-' ∷ b) =
      All-append _ a (b'-' ∷ b) (Digits-Solid a h) (refl, Digits-Solid b k) in
    rw some_bytes
      (ap (range_of total) (strip-Solid (a ++ b'-' ∷ b) solid) ∙ range_of-split total a b h k)

from_start :
    (total : ℕ) (a b : Text)
    → 1 ≤ length a
    → range_of_parts total a b ≡ closed_range total (int_of a) (end_or_last total b)
from_start total [] b l = absurd (omega (arith, l))
from_start total (c ∷ a) b l = refl

to_end : (total : ℕ) (b : Text) → 1 ≤ length b → end_or_last total b ≡ int_of b
to_end total [] l = absurd (omega (arith, l))
to_end total (c ∷ b) l = refl

-- For a first position within the file that is not after the last one asked for: a header that
-- names both in decimal is parsed as the range from the one to the other, cut at the end of the
-- file; one that names only the first, as the range to the end; and one that names only a positive
-- number of last bytes, as that many bytes of the end, or the whole file.
pub parse_byte_range-header :
    (total start end suffix : ℕ)
    → start ≤ end
    → start < total
    → 0 < suffix
    → (parse_byte_range (header (decimal start) (decimal end)) total
        ≡ some (record { start = start; end = min_of end (total - 1) }))
      × (parse_byte_range (header (decimal start) []) total
          ≡ some (record { start = start; end = total - 1 }))
      × (parse_byte_range (header [] (decimal suffix)) total
          ≡ some (record { start = total - min_of suffix total; end = total - 1 }))
parse_byte_range-header total start end suffix h l p =
    let room : 0 < total = omega (arith, l) in
    (
      header-parsed total (decimal start) (decimal end) room (decimal-Digits start)
            (decimal-Digits end)
          ∙ from_start total (decimal start) (decimal end) (decimal-nonempty start)
          ∙ rw (to_end total (decimal end) (decimal-nonempty end))
              (rw (int_of-decimal start) (rw (int_of-decimal end) (ground (arith, h, l)))),
      header-parsed total (decimal start) [] room (decimal-Digits start) tt
          ∙ from_start total (decimal start) [] (decimal-nonempty start)
          ∙ rw (int_of-decimal start) (ground (arith, l)),
      header-parsed total [] (decimal suffix) room tt (decimal-Digits suffix)
          ∙ rw (int_of-decimal suffix) (ground (arith, p)),
    )
