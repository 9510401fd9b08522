-- ===== src/Subtitles/Rendered.antt =====
-- The ASS document made from a rendered WebVTT text, read back.
use social_pilot_ai.Base.{
  ◌≤◌, ◌≡◌, refl, ap, ◌∙◌, sym, Bool, true, leb, Option, some, List, [], ◌∷◌, ◌++◌, map, Text,
  codes, length, keep, All, All-append, All-sort_with, is_prefix, Bool-cases, inl, inr, arith,
}
use social_pilot_ai.Subtitles.Webvtt.{Cue, Event, newline, join_lines, by_sequence, render_webvtt}
use social_pilot_ai.Subtitles.Lines.{OneLine, Readable}
use social_pilot_ai.Subtitles.Readback.{event_of_cue}
use social_pilot_ai.Subtitles.Ass.{
  Style, style_line, document_head, dialogue, render_ass_document, cue_event_of, render_ass,
  render_ass_from_webvtt,
}
use social_pilot_ai.Subtitles.Escapes.{render_ass_from_webvtt-render_webvtt}
use social_pilot_ai.Subtitles.Document.{
  read_dialogue, read_dialogues, dialogue_of_event, read_dialogue-dialogue,
}
use social_pilot_ai.Subtitles.Unbroken.{dialogues-OneLine, head-OneLine, lines_of_document}

keep-append : (p : Text → Bool) (a b : List Text) → keep p (a ++ b) ≡ keep p a ++ keep p b
keep-append p [] b = refl
keep-append p (x ∷ a) b = elim (Bool-cases (p x)) [
  | inl e ↦ rw e (ap (λ ls. x ∷ ls) (keep-append p a b))
  | inr e ↦ rw e (keep-append p a b)
]

begins : (e : Event) → is_prefix (codes "Dialogue: ") (dialogue e) ≡ true
unfolding dialogue is_prefix
begins e = refl

all_kept :
    (es : List Event) → keep (is_prefix (codes "Dialogue: ")) (map dialogue es) ≡ map dialogue es
all_kept [] = refl
all_kept (e ∷ es) = rw (begins e) (ap (λ ls. dialogue e ∷ ls) (all_kept es))

none_kept : (s : Style) → keep (is_prefix (codes "Dialogue: ")) (document_head s) ≡ []
unfolding style_line is_prefix
none_kept s = refl

read_back :
    (es : List Event)
    → All (λ e. 1 ≤ length e.lines) es
    → map read_dialogue (map dialogue es) ≡ map dialogue_of_event es
read_back [] h = refl
read_back (e ∷ es) h =
    rw (read_dialogue-dialogue e h.0) (ap (λ ds. dialogue_of_event e ∷ ds) (read_back es h.1))

read_dialogues-events :
    (es : List Event) (s : Style)
    → All (λ e. 1 ≤ length e.lines) es
    → All (λ e. All OneLine e.lines) es
    → read_dialogues (join_lines (document_head s ++ map dialogue es) ++ newline ∷ [])
      ≡ map dialogue_of_event es
read_dialogues-events es s some_line h =
    let lines = lines_of_document (document_head s ++ map dialogue es) (omega arith) (
      All-append OneLine (document_head s) (map dialogue es) (head-OneLine s)
        (dialogues-OneLine es h)) in
    let prefixed = is_prefix (codes "Dialogue: ") in
    ap (λ ls. map read_dialogue (keep prefixed ls)) lines
    ∙ ap (map read_dialogue) (
        keep-append prefixed (document_head s) (map dialogue es)
        ∙ ap (λ ls. ls ++ keep prefixed (map dialogue es)) (none_kept s)
        ∙ all_kept es)
    ∙ read_back es some_line

module _ (wrap : Cue → List Text) where
  events-full :
      (cs : List Cue)
      → All (Readable wrap) cs
      → All (λ e. 1 ≤ length e.lines) (map (cue_event_of wrap) cs)
        × All (λ e. All OneLine e.lines) (map (cue_event_of wrap) cs)
  events-full [] h = (tt, tt)
  events-full (c ∷ cs) h =
      let (a, b) = events-full cs h.1 in ((h.0.some_line, a), (h.0.one_line, b))

  mapped_twice :
      (cs : List Cue)
      → map dialogue_of_event (map (cue_event_of wrap) cs)
        ≡ map (λ c. dialogue_of_event (event_of_cue wrap c)) cs
  mapped_twice [] = refl
  mapped_twice (c ∷ cs) = ap (λ ds. dialogue_of_event (cue_event_of wrap c) ∷ ds) (mapped_twice cs)

  -- Where decoding undoes encoding, and for cues wrapped into one or more lines that are not empty
  -- and have no character that ends a line: from the WebVTT text that `render_webvtt` writes,
  -- `render_ass_from_webvtt` makes the document that `render_ass` makes of the cues, and the
  -- document's dialogue lines, read field by field, name for each cue, in the order of their
  -- sequence, its times in hundredths of a second, the style, no name, no margins, no effect, and
  -- its lines with the escapes taken back.
  pub read_dialogues-render_ass_from_webvtt :
      (encode : Text → Text) (decode : Text → Option Text)
      → ((t : Text) → decode (encode t) ≡ some t)
      → (cues : List Cue) (content document : Text) (style : Style) → 1 ≤ length cues
      → All (Readable wrap) cues
      → render_webvtt wrap cues ≡ some content
      → render_ass wrap cues style ≡ some document
      → (render_ass_from_webvtt decode (encode content) style ≡ some document)
        × (read_dialogues document
            ≡ map (λ c. dialogue_of_event (event_of_cue wrap c)) (by_sequence cues))
  unfolding render_ass render_ass_document
  read_dialogues-render_ass_from_webvtt encode decode back cues content document style n h e made =
      let cs = by_sequence cues in
      let earlier : Cue → Cue → Bool = λ a b. leb a.sequence b.sequence in
      let (full, lines) = events-full cs (All-sort_with (Readable wrap) earlier cues h) in
      let es = map (cue_event_of wrap) cs in
      let written : join_lines (document_head style ++ map dialogue es) ++ newline ∷ [] ≡ document =
        ground (arith, made) in
      (
        render_ass_from_webvtt-render_webvtt wrap encode decode back cues content style n h e
            ∙ made,
        ap read_dialogues (sym written)
            ∙ read_dialogues-events es style full lines
            ∙ mapped_twice cs,
      )
