-- ===== src/Artifacts/Range.antt =====
-- `ByteRange` and `parse_byte_range` of backend/app/services/video_artifact_http.py, with Python's
-- `int` on a text of ASCII characters, `split("-", 1)` and slicing.
use social_pilot_ai.Base.{
  ℕ, zero, suc, ◌+◌, ◌-◌, ◌*◌, Bool, true, false, not, ◌||◌, Option, none, some, [], ◌∷◌, ◌++◌,
  Text, codes, ltb, leb, ◌==◌, if◌then◌else◌, is_digit, is_prefix, strip, any_of, decimal, casefold,
}

pub record ByteRange : Type 0 where
  pub start : ℕ
  pub end : ℕ

-- `ByteRange.length`
abbrev pub range_length : ByteRange → ℕ
range_length r = r.end - r.start + 1

-- What `int(text)` answers; a magnitude below zero is not 0.
pub data Whole : Type 0 where
  nonnegative negative : ℕ → Whole

-- The digits of an integer, single underscores between them; `wanted` after an underscore and at
-- the start.
unfoldable pub digits_value : Bool → ℕ → Text → Option ℕ
digits_value true acc [] = none
digits_value false acc [] = some acc
digits_value true acc (c ∷ t) =
    let rest = digits_value false (acc * 10 + (c - b'0')) t in if is_digit c then rest else none
digits_value false acc (c ∷ t) =
    let rest = digits_value false (acc * 10 + (c - b'0')) t in
    let broken = digits_value true acc t in
    if is_digit c then rest else if c == b'_' then broken else none

abbrev pub negated : Option ℕ → Option Whole
negated none = none
negated (some zero) = some (nonnegative 0)
negated (some (suc n)) = some (negative (suc n))

abbrev pub unsigned : Option ℕ → Option Whole
unsigned none = none
unsigned (some n) = some (nonnegative n)

abbrev pub signed_value : Text → Option Whole
signed_value [] = none
signed_value (c ∷ t) =
    if c == b'-'
    then negated (digits_value true 0 t)
    else if c == b'+'
    then unsigned (digits_value true 0 t)
    else unsigned (digits_value true 0 (c ∷ t))

-- `int(text)`; `none` where it raises `ValueError`.
unfoldable pub int_of : Text → Option Whole
unfolding digits_value strip
int_of t = signed_value (strip t)

-- `text[n:]`
abbrev pub drop : ℕ → Text → Text
drop zero t = t
drop (suc n) [] = []
drop (suc n) (c ∷ t) = drop n t

-- `text.split("-", 1)`, of a text with a dash.
abbrev pub before_dash : Text → Text
before_dash [] = []
before_dash (c ∷ t) = let rest = before_dash t in if c == b'-' then [] else c ∷ rest

abbrev pub after_dash : Text → Text
after_dash [] = []
after_dash (c ∷ t) = let rest = after_dash t in if c == b'-' then t else rest

abbrev pub min_of : ℕ → ℕ → ℕ
min_of a b = if leb a b then a else b

-- The range from a first and a last position.
abbrev pub closed_range : ℕ → Option Whole → Option Whole → Option ByteRange
closed_range total none end = none
closed_range total (some (negative n)) end = none
closed_range total (some (nonnegative start)) none = none
closed_range total (some (nonnegative start)) (some (negative n)) = none
closed_range total (some (nonnegative start)) (some (nonnegative end)) =
    if ltb end start || leb total start
    then none
    else some (record { start = start; end = min_of end (total - 1) })

-- The range of the last positions.
abbrev pub suffix_range : ℕ → Option Whole → Option ByteRange
suffix_range total none = none
suffix_range total (some (negative n)) = none
suffix_range total (some (nonnegative suffix)) =
    if suffix == 0
    then none
    else some (record { start = total - min_of suffix total; end = total - 1 })

-- `int(end_text) if end_text else total - 1`
abbrev pub end_or_last : ℕ → Text → Option Whole
end_or_last total [] = some (nonnegative (total - 1))
end_or_last total (c ∷ t) = int_of (c ∷ t)

abbrev pub range_of_parts : ℕ → Text → Text → Option ByteRange
range_of_parts total [] end_text = suffix_range total (int_of end_text)
range_of_parts total (c ∷ t) end_text =
    closed_range total (int_of (c ∷ t)) (end_or_last total end_text)

abbrev pub is_dash : ℕ → Bool
is_dash c = c == b'-'

abbrev pub is_comma : ℕ → Bool
is_comma c = c == b','

abbrev pub range_of : ℕ → Text → Option ByteRange
range_of total [] = none
range_of total (c ∷ t) =
    if any_of is_comma (c ∷ t) || not (any_of is_dash (c ∷ t))
    then none
    else range_of_parts total (before_dash (c ∷ t)) (after_dash (c ∷ t))

-- `none` where the source raises `RangeNotSatisfiable`.
unfoldable pub parse_byte_range : Text → ℕ → Option ByteRange
unfolding int_of strip
parse_byte_range value total =
    if ltb total 1 || not (is_prefix (codes "bytes=") value)
    then none
    else range_of total (strip (drop 6 value))

unfoldable pub safe_artifact_filename : ℕ → ℕ → Text → Text
unfolding decimal casefold
safe_artifact_filename artifact task suffix =
    codes "video-artifact-" ++ decimal artifact ++ codes "-task-" ++ decimal task ++ casefold suffix
