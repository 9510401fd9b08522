-- ===== src/Subtitles/Times.antt =====
-- The timestamps of backend/app/services/video_composition_subtitles.py.
use social_pilot_ai.Base.{
  ℕ, ◌+◌, ◌*◌, ◌/◌, ◌%◌, Bool, false, ◌&&◌, Option, none, some, [], ◌∷◌, ◌++◌, Text, ◌==◌,
  if◌then◌else◌, length, all_of, is_digit, decimal, padded, value_from,
}

-- Two texts with a character between them.
abbrev pub around : Text → ℕ → Text → Text
around a c b = a ++ c ∷ b

-- `_timestamp`
unfoldable pub timestamp : ℕ → Text
timestamp ms =
    let seconds =
      around (padded 2 (ms % 3600000 % 60000 / 1000)) b'.'
        (padded 3 (ms % 3600000 % 60000 % 1000)) in
    let minutes = around (padded 2 (ms % 3600000 / 60000)) b':' seconds in
    around (padded 2 (ms / 3600000)) b':' minutes

-- `(milliseconds + 5) // 10`
abbrev pub centiseconds : ℕ → ℕ
centiseconds ms = (ms + 5) / 10

-- `_ass_timestamp`
unfoldable pub ass_timestamp : ℕ → Text
ass_timestamp ms =
    let c = centiseconds ms in
    let seconds =
      around (padded 2 (c % 360000 % 6000 / 100)) b'.' (padded 2 (c % 360000 % 6000 % 100)) in
    let minutes = around (padded 2 (c % 360000 / 6000)) b':' seconds in
    around (decimal (c / 360000)) b':' minutes

-- The two sides of the first occurrence of a character: `text.split(sep, 1)`, which must have two.
abbrev pub prepend : ℕ → Option (Text × Text) → Option (Text × Text)
prepend c none = none
prepend c (some (a, b)) = some (c ∷ a, b)

unfoldable pub split_at : ℕ → Text → Option (Text × Text)
split_at sep [] = none
split_at sep (c ∷ t) =
    let rest = split_at sep t in if c == sep then some ([], t) else prepend c rest

-- `part.isdigit()`
abbrev pub isdigit : Text → Bool
isdigit [] = false
isdigit (c ∷ t) = all_of is_digit (c ∷ t)

-- The sum of the four parts, if they are digits, with three for the last.
unfoldable pub milliseconds_of : Text → Text → Text → Text → Option ℕ
unfolding value_from
milliseconds_of hours minutes seconds millis =
    if isdigit hours && isdigit minutes && isdigit seconds && isdigit millis && length millis == 3
    then some (
        value_from 0 hours * 3600000
        + value_from 0 minutes * 60000
        + value_from 0 seconds * 1000
        + value_from 0 millis)
    else none

abbrev pub seconds_of : Text → Text → Option (Text × Text) → Option ℕ
seconds_of hours minutes none = none
seconds_of hours minutes (some (seconds, millis)) = milliseconds_of hours minutes seconds millis

abbrev pub minutes_of : Text → Option (Text × Text) → Option ℕ
minutes_of hours none = none
minutes_of hours (some (minutes, rest)) = seconds_of hours minutes (split_at b'.' rest)

abbrev pub hours_of : Option (Text × Text) → Option ℕ
hours_of none = none
hours_of (some (hours, rest)) = minutes_of hours (split_at b':' rest)

-- `_parse_webvtt_timestamp`; `none` where it raises.
unfoldable pub parse_webvtt_timestamp : Text → Option ℕ
unfolding milliseconds_of
parse_webvtt_timestamp t = hours_of (split_at b':' t)
