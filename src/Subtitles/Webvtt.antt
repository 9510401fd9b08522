-- ===== src/Subtitles/Webvtt.antt =====
-- `render_webvtt` of backend/app/services/video_composition_subtitles.py and the reading of WebVTT
-- in `render_ass_from_webvtt`. `textwrap.wrap` and UTF-8 are parameters.
use social_pilot_ai.Base.{
  ℕ, zero, suc, Bool, not, ◌&&◌, ◌||◌, Option, none, some, List, [], ◌∷◌, ◌++◌, Text, codes, ◌==◌,
  leb, if◌then◌else◌, length, any_of, is_prefix, sort_by, flat_map, decimal, text_eq,
}
use social_pilot_ai.Subtitles.Times.{timestamp, isdigit, parse_webvtt_timestamp}

-- `SubtitleCueInput`
pub record Cue : Type 0 where
  pub sequence : ℕ
  pub start_ms : ℕ
  pub end_ms : ℕ
  pub text : Text

-- One event: its times and its lines.
pub record Event : Type 0 where
  pub start_ms : ℕ
  pub end_ms : ℕ
  pub lines : List Text

abbrev pub newline : ℕ
newline = 10

-- `"\n".join(lines)`
abbrev pub join_from : Text → List Text → Text
join_from l [] = l
join_from l (k ∷ ls) = l ++ newline ∷ join_from k ls

abbrev pub join_lines : List Text → Text
join_lines [] = []
join_lines (l ∷ ls) = join_from l ls

abbrev pub arrow : Text
arrow = codes " --> "

-- The four blocks of a cue.
unfoldable pub cue_blocks : (Cue → List Text) → Cue → List Text
unfolding timestamp
cue_blocks wrap cue =
    decimal cue.sequence
    ∷ (timestamp cue.start_ms ++ (arrow ++ timestamp cue.end_ms))
    ∷ join_lines (wrap cue)
    ∷ []
    ∷ []

abbrev pub by_sequence : List Cue → List Cue
by_sequence = sort_by (λ c. c.sequence)

-- U+FFFD, whose UTF-8 bytes the source looks for.
abbrev pub is_replacement : ℕ → Bool
is_replacement c = c == 65533

-- `render_webvtt`, before its encoding; `none` where it raises.
unfoldable pub render_webvtt : (Cue → List Text) → List Cue → Option Text
unfolding cue_blocks
render_webvtt wrap cues =
    let content =
      join_lines (codes "WEBVTT" ∷ [] ∷ flat_map (cue_blocks wrap) (by_sequence cues)) in
    if any_of is_replacement content then none else some content

-- The characters that end a line for `str.splitlines`; a carriage return takes a newline with it.
abbrev pub ends_line : ℕ → Bool
ends_line c = (leb 10 c && leb c 13) || (leb 28 c && leb c 30) || c == 133 || c == 8232 || c == 8233

abbrev pub onto_first : ℕ → List Text → List Text
onto_first c [] = (c ∷ []) ∷ []
onto_first c (l ∷ ls) = (c ∷ l) ∷ ls

unfoldable pub splitlines : Text → List Text
splitlines [] = []
splitlines (c ∷ []) = if ends_line c then [] ∷ [] else (c ∷ []) ∷ []
splitlines (c ∷ d ∷ t) =
    let rest = splitlines (d ∷ t) in
    let later = splitlines t in
    if c == 13 && d == 10 then [] ∷ later else if ends_line c then [] ∷ rest else onto_first c rest

-- `line.split(" --> ", 1)`, of a line with an arrow.
abbrev pub before_arrow : ℕ → Option (Text × Text) → Option (Text × Text)
before_arrow c none = none
before_arrow c (some (a, b)) = some (c ∷ a, b)

abbrev pub drop_text : ℕ → Text → Text
drop_text zero t = t
drop_text (suc n) [] = []
drop_text (suc n) (c ∷ t) = drop_text n t

unfoldable pub split_arrow : Text → Option (Text × Text)
split_arrow [] = none
split_arrow (c ∷ t) =
    let rest = split_arrow t in
    if is_prefix arrow (c ∷ t) then some ([], drop_text 5 (c ∷ t)) else before_arrow c rest

-- The lines up to the next empty one, and the lines from there on.
abbrev pub text_lines : List Text → List Text
text_lines [] = []
text_lines ([] ∷ ls) = []
text_lines ((c ∷ l) ∷ ls) = (c ∷ l) ∷ text_lines ls

abbrev pub after_text : List Text → List Text
after_text [] = []
after_text ([] ∷ ls) = [] ∷ ls
after_text ((c ∷ l) ∷ ls) = after_text ls

abbrev pub event_of : Option ℕ → Option ℕ → List Text → Option Event
event_of (some a) (some b) (l ∷ ls) = some (record { start_ms = a; end_ms = b; lines = l ∷ ls })
event_of (some a) (some b) [] = none
event_of (some a) none ls = none
event_of none b ls = none

abbrev pub event_between : Option (Text × Text) → List Text → Option Event
event_between none ls = none
event_between (some (a, b)) ls =
    event_of (parse_webvtt_timestamp a) (parse_webvtt_timestamp b) (text_lines ls)

abbrev pub both : Option Event → Option (List Event) → Option (List Event)
both none es = none
both (some e) none = none
both (some e) (some es) = some (e ∷ es)

-- The loop over the lines, on fuel; each turn takes a line.
unfoldable pub parse_events : ℕ → List Text → Option (List Event)
unfolding split_arrow
parse_events zero lines = none
parse_events (suc fuel) [] = some []
parse_events (suc fuel) ([] ∷ ls) = parse_events fuel ls
parse_events (suc fuel) ((c ∷ l) ∷ []) = none
parse_events (suc fuel) ((c ∷ l) ∷ times ∷ ls) =
    let rest = parse_events fuel (after_text ls) in
    if not (isdigit (c ∷ l)) then none else both (event_between (split_arrow times) ls) rest

abbrev pub at_least_one : Option (List Event) → Option (List Event)
at_least_one none = none
at_least_one (some []) = none
at_least_one (some (e ∷ es)) = some (e ∷ es)

unfoldable pub events_of_lines : List Text → Option (List Event)
unfolding parse_events
events_of_lines [] = none
events_of_lines (first ∷ ls) =
    if text_eq first (codes "WEBVTT")
    then at_least_one (parse_events (suc (length ls)) ls)
    else none

-- The events that `render_ass_from_webvtt` reads, of decoded content.
unfoldable pub webvtt_events : Text → Option (List Event)
unfolding events_of_lines splitlines
webvtt_events content = events_of_lines (splitlines content)
