-- ===== src/Subtitles/Tests.antt =====
-- Small subtitles, and the properties at concrete inputs.
use social_pilot_ai.Base.{
  ◌≡◌, refl, some, List, [], ◌∷◌, ◌++◌, map, Text, codes, arith, decimal, padded,
}
use social_pilot_ai.Subtitles.Times.{timestamp, ass_timestamp, parse_webvtt_timestamp}
use social_pilot_ai.Subtitles.Clocks.{parse_webvtt_timestamp-timestamp}
use social_pilot_ai.Subtitles.Webvtt.{Cue, join_lines, by_sequence, render_webvtt, webvtt_events}
use social_pilot_ai.Subtitles.Lines.{Readable}
use social_pilot_ai.Subtitles.Readback.{event_of_cue, webvtt_events-render_webvtt}
use social_pilot_ai.Subtitles.Document.{dialogue_of_event, read_dialogues}
use social_pilot_ai.Subtitles.Rendered.{read_dialogues-render_ass_from_webvtt}
use social_pilot_ai.Subtitles.Ass.{
  Style, document_head, style_line, escape_ass_text, render_ass, render_ass_from_webvtt,
}
use social_pilot_ai.Subtitles.Escapes.{unescape, unescape-escape_ass_text}

clock : timestamp 3723004 ≡ codes "01:02:03.004"
unfolding timestamp padded
clock = refl

ass_clock : ass_timestamp 3723004 ≡ codes "1:02:03.00"
unfolding ass_timestamp decimal padded
ass_clock = refl

abbrev two_cues : List Cue
two_cues =
    record { sequence = 2; start_ms = 1500; end_ms = 3000; text = codes "there" }
    ∷ record { sequence = 1; start_ms = 0; end_ms = 1500; text = codes "hi" }
    ∷ []

-- Each cue on a line of its own.
abbrev whole_line : Cue → List Text
whole_line c = c.text ∷ []

abbrev two_content : Text
two_content =
    codes "WEBVTT"
    ++ 10 ∷ 10 ∷ codes "1"
    ++ 10 ∷ codes "00:00:00.000 --> 00:00:01.500"
    ++ 10 ∷ codes "hi"
    ++ 10 ∷ 10 ∷ codes "2"
    ++ 10 ∷ codes "00:00:01.500 --> 00:00:03.000"
    ++ 10 ∷ codes "there"
    ++ 10 ∷ []

two_rendered : render_webvtt whole_line two_cues ≡ some two_content
unfolding render_webvtt decimal padded
two_rendered = refl

second :
    Readable whole_line
      (record { sequence = 2; start_ms = 1500; end_ms = 3000; text = codes "there" })
second = record {
  some_line = omega arith;
  full = (omega arith, tt);
  one_line = ((refl, (refl, (refl, (refl, (refl, tt))))), tt);
}

first :
    Readable whole_line (record { sequence = 1; start_ms = 0; end_ms = 1500; text = codes "hi" })
first = record {
  some_line = omega arith;
  full = (omega arith, tt);
  one_line = ((refl, (refl, tt)), tt);
}

parse_webvtt_timestamp-timestamp_example : parse_webvtt_timestamp (timestamp 3723004) ≡ some 3723004
parse_webvtt_timestamp-timestamp_example = parse_webvtt_timestamp-timestamp 3723004

webvtt_events-render_webvtt_example :
    webvtt_events two_content ≡ some (map (event_of_cue whole_line) (by_sequence two_cues))
webvtt_events-render_webvtt_example =
    webvtt_events-render_webvtt whole_line two_cues two_content (omega arith) (second, (first, tt))
      two_rendered

abbrev style : Style
style = record { font_size = 48; bottom_margin = 280; outline_width = 3 }

abbrev two_document : Text
two_document =
    join_lines (
      document_head style
      ++ codes "Dialogue: 0,0:00:00.00,0:00:01.50,Default,,0,0,0,,hi"
        ∷ codes "Dialogue: 0,0:00:01.50,0:00:03.00,Default,,0,0,0,,there"
        ∷ [])
    ++ 10 ∷ []

two_made : render_ass whole_line two_cues style ≡ some two_document
unfolding render_ass ass_timestamp decimal padded escape_ass_text style_line
two_made = refl

read_dialogues-render_ass_from_webvtt_example :
    (render_ass_from_webvtt (λ t. some t) two_content style ≡ some two_document)
    × (read_dialogues two_document
        ≡ map (λ c. dialogue_of_event (event_of_cue whole_line c)) (by_sequence two_cues))
read_dialogues-render_ass_from_webvtt_example =
    read_dialogues-render_ass_from_webvtt whole_line (λ t. t) (λ t. some t) (λ t. refl) two_cues
      two_content two_document style (omega arith) (second, (first, tt)) two_rendered two_made

unescape-escape_ass_text_example : unescape (escape_ass_text (codes "a{b}")) ≡ codes "a{b}"
unescape-escape_ass_text_example = unescape-escape_ass_text (codes "a{b}")
