-- ===== src/Artifacts/Ranges.antt =====
-- What a parsed range is.
use social_pilot_ai.Base.{ℕ, ◌+◌, ◌≤◌, ◌<◌, ◌≡◌, Option, none, some, [], ◌∷◌, Text, strip, arith}
use social_pilot_ai.Artifacts.Range.{
  ByteRange, range_length, Whole, nonnegative, negative, int_of, drop, before_dash, after_dash,
  closed_range, suffix_range, end_or_last, range_of_parts, range_of, parse_byte_range,
}

module _ (total : ℕ) where
  -- A range of positions of the file.
  pub record Within (r : ByteRange) : Type 0 where
    pub ordered : r.start ≤ r.end
    pub last : r.end < total
    pub some_bytes : 1 ≤ range_length r
    pub fits : r.start + range_length r ≤ total

  in_order : (r : ByteRange) → r.start ≤ r.end → r.end < total → Within r
  in_order r h l = record {
    ordered = h;
    last = l;
    some_bytes = omega (arith, h);
    fits = omega (arith, h, l);
  }

  closed_range-Within :
      (a b : Option Whole) (r : ByteRange) → closed_range total a b ≡ some r → Within r
  closed_range-Within none b r h = absurd (cc)
  closed_range-Within (some (negative n)) b r h = absurd (cc)
  closed_range-Within (some (nonnegative n)) none r h = absurd (cc)
  closed_range-Within (some (nonnegative n)) (some (negative k)) r h = absurd (cc)
  closed_range-Within (some (nonnegative n)) (some (nonnegative k)) r h =
      in_order r (ground (arith, h)) (ground (arith, h))

  suffix_range-Within :
      (a : Option Whole) (r : ByteRange) → 0 < total → suffix_range total a ≡ some r → Within r
  suffix_range-Within none r p h = absurd (cc)
  suffix_range-Within (some (negative n)) r p h = absurd (cc)
  suffix_range-Within (some (nonnegative n)) r p h =
      in_order r (ground (arith, h, p)) (ground (arith, h, p))

  range_of_parts-Within :
      (a b : Text) (r : ByteRange) → 0 < total → range_of_parts total a b ≡ some r → Within r
  range_of_parts-Within [] b r p h = suffix_range-Within (int_of b) r p h
  range_of_parts-Within (c ∷ a) b r p h =
      closed_range-Within (int_of (c ∷ a)) (end_or_last total b) r h

  range_of-Within : (t : Text) (r : ByteRange) → 0 < total → range_of total t ≡ some r → Within r
  range_of-Within [] r p h = absurd (cc)
  range_of-Within (c ∷ t) r p h =
      range_of_parts-Within (before_dash (c ∷ t)) (after_dash (c ∷ t)) r p (ground (arith, h))

-- A range that is parsed from a header, for a file of any length, starts no later than it ends and
-- ends within the file, so it has a byte at least and does not reach beyond the file.
pub parse_byte_range-Within :
    (value : Text) (total : ℕ) (r : ByteRange)
    → parse_byte_range value total ≡ some r
    → Within total r
unfolding parse_byte_range
parse_byte_range-Within value total r h =
    range_of-Within total (strip (drop 6 value)) r (ground (arith, h)) (ground (arith, h))
