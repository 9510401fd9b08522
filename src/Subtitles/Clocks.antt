-- ===== src/Subtitles/Clocks.antt =====
-- Timestamps read back.
use social_pilot_ai.Base.{
  ℕ, ◌+◌, ◌*◌, ◌/◌, ◌%◌, ◌≤◌, ◌<◌, ◌≡◌, refl, ap, ◌∙◌, true, false, Option, some, none, [], ◌∷◌,
  Text, length, all_of, is_digit, ◌==◌, decimal, padded, value_from, Digits, decimal-Digits,
  value_from-decimal, padded-Digits, padded-nonempty, value_from-padded, length-padded, arith,
}
use social_pilot_ai.Subtitles.Times.{
  timestamp, around, centiseconds, ass_timestamp, split_at, isdigit, milliseconds_of, seconds_of,
  minutes_of, hours_of, parse_webvtt_timestamp,
}

split_at-Digits :
    (sep : ℕ) (a b : Text)
    → is_digit sep ≡ false
    → Digits a
    → split_at sep (around a sep b) ≡ some (a, b)
unfolding split_at
split_at-Digits sep [] b d h = ground arith
split_at-Digits sep (c ∷ a) b d h =
    let c_digit = h.0 in
    let other : (c == sep) ≡ false = ground (arith, c_digit, d) in
    rw other (rw (split_at-Digits sep a b d h.1) refl)

pub isdigit-Digits : (t : Text) → Digits t → 1 ≤ length t → isdigit t ≡ true
isdigit-Digits [] h l = absurd (omega (arith, l))
isdigit-Digits (c ∷ t) h l = rw h.0 (rest t h.1)
  where
    rest : (t : Text) → Digits t → all_of is_digit t ≡ true
    rest [] h = refl
    rest (c ∷ t) h = rw h.0 (rest t h.1)

padded-isdigit : (width n : ℕ) → isdigit (padded width n) ≡ true
padded-isdigit width n =
    isdigit-Digits (padded width n) (padded-Digits width n) (padded-nonempty width n)

milliseconds_of-padded :
    (h m s f : ℕ)
    → length (padded 3 f) ≡ 3
    → milliseconds_of (padded 2 h) (padded 2 m) (padded 2 s) (padded 3 f)
      ≡ some (h * 3600000 + m * 60000 + s * 1000 + f)
unfolding milliseconds_of
milliseconds_of-padded h m s f three = rw (padded-isdigit 2 h) (
    rw (padded-isdigit 2 m) (
      rw (padded-isdigit 2 s) (
        rw (padded-isdigit 3 f) (
          rw three (
            rw (value_from-padded 2 h) (
              rw (value_from-padded 2 m)
                (rw (value_from-padded 2 s) (rw (value_from-padded 3 f) refl))))))))

-- A time in milliseconds, written as a WebVTT timestamp, is read back as the same time, however
-- many hours it has.
pub parse_webvtt_timestamp-timestamp : (ms : ℕ) → parse_webvtt_timestamp (timestamp ms) ≡ some ms
unfolding parse_webvtt_timestamp timestamp
parse_webvtt_timestamp-timestamp ms =
    let h = ms / 3600000 in
    let m = ms % 3600000 / 60000 in
    let s = ms % 3600000 % 60000 / 1000 in
    let f = ms % 3600000 % 60000 % 1000 in
    let three : length (padded 3 f) ≡ 3 = length-padded 2 f (omega arith) in
    let whole : h * 3600000 + m * 60000 + s * 1000 + f ≡ ms = omega arith in
    let seconds = around (padded 2 s) b'.' (padded 3 f) in
    let minutes = around (padded 2 m) b':' seconds in
    ap hours_of (split_at-Digits b':' (padded 2 h) minutes refl (padded-Digits 2 h))
    ∙ ap (minutes_of (padded 2 h))
        (split_at-Digits b':' (padded 2 m) seconds refl (padded-Digits 2 m))
    ∙ ap (seconds_of (padded 2 h) (padded 2 m))
        (split_at-Digits b'.' (padded 2 s) (padded 3 f) refl (padded-Digits 2 s))
    ∙ milliseconds_of-padded h m s f three
    ∙ ap some whole

-- The centiseconds that an ASS timestamp names, read apart from the code: the fields between its
-- separators, weighted.
abbrev pub centis_of : ℕ → ℕ → Option (Text × Text) → Option ℕ
centis_of h m none = none
centis_of h m (some (s, c)) = some (h * 360000 + m * 6000 + value_from 0 s * 100 + value_from 0 c)

abbrev pub ass_minutes_of : ℕ → Option (Text × Text) → Option ℕ
ass_minutes_of h none = none
ass_minutes_of h (some (m, rest)) = centis_of h (value_from 0 m) (split_at b'.' rest)

abbrev pub ass_hours_of : Option (Text × Text) → Option ℕ
ass_hours_of none = none
ass_hours_of (some (h, rest)) = ass_minutes_of (value_from 0 h) (split_at b':' rest)

abbrev pub read_ass : Text → Option ℕ
read_ass t = ass_hours_of (split_at b':' t)

pub read_ass-ass_timestamp : (ms : ℕ) → read_ass (ass_timestamp ms) ≡ some (centiseconds ms)
unfolding ass_timestamp
read_ass-ass_timestamp ms =
    let k = centiseconds ms in
    let h = k / 360000 in
    let m = k % 360000 / 6000 in
    let s = k % 360000 % 6000 / 100 in
    let f = k % 360000 % 6000 % 100 in
    let whole : h * 360000 + m * 6000 + s * 100 + f ≡ k = omega arith in
    let seconds = around (padded 2 s) b'.' (padded 2 f) in
    let minutes = around (padded 2 m) b':' seconds in
    ap ass_hours_of (split_at-Digits b':' (decimal h) minutes refl (decimal-Digits h))
    ∙ ap (ass_minutes_of (value_from 0 (decimal h)))
        (split_at-Digits b':' (padded 2 m) seconds refl (padded-Digits 2 m))
    ∙ ap (centis_of (value_from 0 (decimal h)) (value_from 0 (padded 2 m)))
        (split_at-Digits b'.' (padded 2 s) (padded 2 f) refl (padded-Digits 2 s))
    ∙ rw (value_from-decimal h) (
        rw (value_from-padded 2 m)
          (rw (value_from-padded 2 s) (rw (value_from-padded 2 f) (ap some whole))))

-- The hundredths of a second that an ASS timestamp names, read field by field, are the nearest to
-- the time in milliseconds, the later of two equally near.
pub ass_timestamp_lem :
    (ms : ℕ)
    → (c : ℕ) × (read_ass (ass_timestamp ms) ≡ some c) × (10 * c ≤ ms + 5) × (ms < 10 * c + 5)
ass_timestamp_lem ms = (centiseconds ms, read_ass-ass_timestamp ms, omega arith, omega arith)
