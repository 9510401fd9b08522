-- ===== src/Subtitles/Ass.antt =====
-- The ASS document of backend/app/services/video_composition_subtitles.py.
use social_pilot_ai.Base.{
  ℕ, Option, none, some, List, [], ◌∷◌, ◌++◌, map, Text, codes, ◌==◌, if◌then◌else◌, any_of,
  flat_map, decimal,
}
use social_pilot_ai.Subtitles.Times.{ass_timestamp}
use social_pilot_ai.Subtitles.Webvtt.{
  Cue, Event, newline, join_lines, by_sequence, is_replacement, webvtt_events,
}

-- `text.replace(c, by)` for one character.
abbrev pub replaced : ℕ → Text → ℕ → Text
replaced c by' x = if x == c then by' else x ∷ []

unfoldable pub replace : ℕ → Text → Text → Text
replace c by' t = flat_map (replaced c by') t

-- `_escape_ass_text`
unfoldable pub escape_ass_text : Text → Text
unfolding replace
escape_ass_text t =
    replace b'}' (b'\\' ∷ b'}' ∷ [])
      (replace b'{' (b'\\' ∷ b'{' ∷ []) (replace b'\\' (b'\\' ∷ b'\\' ∷ []) t))

-- `SubtitleStyleInput`, without the width that wrapping uses.
pub record Style : Type 0 where
  pub font_size : ℕ
  pub bottom_margin : ℕ
  pub outline_width : ℕ

abbrev pub style_format : Text
style_format =
    codes
      "Format: Name, Fontname, Fontsize, PrimaryColour, SecondaryColour, OutlineColour, BackColour, Bold, Italic, Underline, StrikeOut, ScaleX, ScaleY, Spacing, Angle, BorderStyle, Outline, Shadow, Alignment, MarginL, MarginR, MarginV, Encoding"

abbrev pub event_format : Text
event_format =
    codes "Format: Layer, Start, End, Style, Name, MarginL, MarginR, MarginV, Effect, Text"

unfoldable pub style_line : Style → Text
style_line s =
    let last = decimal s.bottom_margin ++ codes ",1" in
    let outline = decimal s.outline_width ++ (codes ",0,2,54,54," ++ last) in
    let colours = codes ",&H00FFFFFF,&H000000FF,&H00000000,&H64000000," in
    let size = decimal s.font_size ++ (colours ++ (codes "0,0,0,0,100,100,0,0,1," ++ outline)) in
    codes "Style: Default,Arial," ++ size

abbrev pub document_head : Style → List Text
document_head s =
    codes "[Script Info]"
    ∷ codes "ScriptType: v4.00+"
    ∷ codes "PlayResX: 1080"
    ∷ codes "PlayResY: 1920"
    ∷ codes "WrapStyle: 2"
    ∷ codes "ScaledBorderAndShadow: yes"
    ∷ codes "YCbCr Matrix: TV.709"
    ∷ []
    ∷ codes "[V4+ Styles]"
    ∷ style_format
    ∷ style_line s
    ∷ []
    ∷ codes "[Events]"
    ∷ event_format
    ∷ []

-- `r"\N".join(lines)`
abbrev pub join_breaks_from : Text → List Text → Text
join_breaks_from l [] = l
join_breaks_from l (k ∷ ls) = l ++ b'\\' ∷ b'N' ∷ join_breaks_from k ls

abbrev pub join_breaks : List Text → Text
join_breaks [] = []
join_breaks (l ∷ ls) = join_breaks_from l ls

unfoldable pub dialogue : Event → Text
unfolding ass_timestamp escape_ass_text
dialogue e =
    let text = join_breaks (map escape_ass_text e.lines) in
    let ends = ass_timestamp e.end_ms ++ (codes ",Default,,0,0,0,," ++ text) in
    codes "Dialogue: 0," ++ (ass_timestamp e.start_ms ++ (codes "," ++ ends))

-- `_render_ass_document`, before its encoding; `none` where it raises.
unfoldable pub render_ass_document : List Event → Style → Option Text
unfolding style_line dialogue
render_ass_document events style =
    let content = join_lines (document_head style ++ map dialogue events) ++ newline ∷ [] in
    if any_of is_replacement content then none else some content

abbrev pub cue_event_of : (Cue → List Text) → Cue → Event
cue_event_of wrap c = record { start_ms = c.start_ms; end_ms = c.end_ms; lines = wrap c }

-- `render_ass`
unfoldable pub render_ass : (Cue → List Text) → List Cue → Style → Option Text
unfolding render_ass_document
render_ass wrap cues style = render_ass_document (map (cue_event_of wrap) (by_sequence cues)) style

abbrev pub document_of : Style → Option (List Event) → Option Text
document_of style none = none
document_of style (some events) = render_ass_document events style

abbrev pub read_document : Style → Option Text → Option Text
read_document style none = none
read_document style (some decoded) = document_of style (webvtt_events decoded)

-- `render_ass_from_webvtt`, with the decoding of UTF-8.
unfoldable pub render_ass_from_webvtt : (Text → Option Text) → Text → Style → Option Text
unfolding webvtt_events render_ass_document
render_ass_from_webvtt decode content style = read_document style (decode content)
