-- ===== src/Subtitles/Unbroken.antt =====
-- Each line of an ASS document stays a line.
use social_pilot_ai.Base.{
  ℕ, ◌≤◌, ◌≡◌, refl, ap, ◌∙◌, true, not, List, [], ◌∷◌, ◌++◌, map, Text, codes, length, all_of, All,
  All-append, decimal, decimal-Digits, padded-Digits, Bool-cases, inl, inr, arith,
}
use social_pilot_ai.Subtitles.Times.{ass_timestamp}
use social_pilot_ai.Subtitles.Webvtt.{Event, newline, join_lines, ends_line, splitlines}
use social_pilot_ai.Subtitles.Lines.{OneLine, splitlines-join_from, Digits-OneLine, around-OneLine}
use social_pilot_ai.Subtitles.Ass.{
  escape_ass_text, Style, style_format, event_format, style_line, document_head, join_breaks_from,
  join_breaks, dialogue,
}
use social_pilot_ai.Subtitles.Escapes.{is_special, escape-special, escape-plain}

one_line : (t : Text) → all_of (λ c. not (ends_line c)) t ≡ true → OneLine t
one_line [] h = tt
one_line (c ∷ t) h = (ground (arith, h), one_line t (ground (arith, h)))

escape-OneLine : (t : Text) → OneLine t → OneLine (escape_ass_text t)
escape-OneLine [] h = unfold escape_ass_text in tt
escape-OneLine (c ∷ t) h = elim (Bool-cases (is_special c)) [
  | inl e ↦ rw (escape-special c t e) (refl, (h.0, escape-OneLine t h.1))
  | inr e ↦ rw (escape-plain c t e) (h.0, escape-OneLine t h.1)
]

breaks-OneLine :
    (l : Text) (ls : List Text)
    → OneLine l
    → All OneLine ls
    → OneLine (join_breaks_from (escape_ass_text l) (map escape_ass_text ls))
breaks-OneLine l [] h a = escape-OneLine l h
breaks-OneLine l (k ∷ ls) h a =
    All-append _ (escape_ass_text l) _ (escape-OneLine l h)
      (refl, (refl, breaks-OneLine k ls a.0 a.1))

joined-OneLine : (ls : List Text) → All OneLine ls → OneLine (join_breaks (map escape_ass_text ls))
joined-OneLine [] h = tt
joined-OneLine (l ∷ ls) h = breaks-OneLine l ls h.0 h.1

ass_timestamp-OneLine : (ms : ℕ) → OneLine (ass_timestamp ms)
unfolding ass_timestamp
ass_timestamp-OneLine ms = around-OneLine _ b':' _ (Digits-OneLine _ (decimal-Digits _)) refl (
    around-OneLine _ b':' _ (Digits-OneLine _ (padded-Digits 2 _)) refl (
      around-OneLine _ b'.' _ (Digits-OneLine _ (padded-Digits 2 _)) refl
        (Digits-OneLine _ (padded-Digits 2 _))))

dialogue-OneLine : (e : Event) → All OneLine e.lines → OneLine (dialogue e)
unfolding dialogue
dialogue-OneLine e h =
    All-append _ (codes "Dialogue: 0,") _ (one_line (codes "Dialogue: 0,") refl) (
      All-append _ (ass_timestamp e.start_ms) _ (ass_timestamp-OneLine e.start_ms) (
        All-append _ (codes ",") _ (one_line (codes ",") refl) (
          All-append _ (ass_timestamp e.end_ms) _ (ass_timestamp-OneLine e.end_ms) (
            All-append _ (codes ",Default,,0,0,0,,") _ (one_line (codes ",Default,,0,0,0,,") refl)
              (joined-OneLine e.lines h)))))

pub dialogues-OneLine :
    (es : List Event) → All (λ e. All OneLine e.lines) es → All OneLine (map dialogue es)
dialogues-OneLine [] h = tt
dialogues-OneLine (e ∷ es) h = (dialogue-OneLine e h.0, dialogues-OneLine es h.1)

nil_behind : (ls : List Text) → ls ++ [] ≡ ls
nil_behind [] = refl
nil_behind (l ∷ ls) = ap (λ ms. l ∷ ms) (nil_behind ls)

style_line-OneLine : (s : Style) → OneLine (style_line s)
unfolding style_line
style_line-OneLine s =
    let last = decimal s.bottom_margin ++ codes ",1" in
    let outline = decimal s.outline_width ++ (codes ",0,2,54,54," ++ last) in
    let colours = codes ",&H00FFFFFF,&H000000FF,&H00000000,&H64000000," in
    let numbers = codes "0,0,0,0,100,100,0,0,1," in
    let size = decimal s.font_size ++ (colours ++ (numbers ++ outline)) in
    All-append _ (codes "Style: Default,Arial,") size
      (one_line (codes "Style: Default,Arial,") refl)
      (All-append _ (decimal s.font_size) (colours ++ (numbers ++ outline))
        (Digits-OneLine _ (decimal-Digits s.font_size))
        (All-append _ colours (numbers ++ outline) (one_line colours refl) (
          All-append _ numbers outline (one_line numbers refl) (
            All-append _ (decimal s.outline_width) (codes ",0,2,54,54," ++ last)
              (Digits-OneLine _ (decimal-Digits s.outline_width))
              (All-append _ (codes ",0,2,54,54,") last (one_line (codes ",0,2,54,54,") refl) (
                All-append _ (decimal s.bottom_margin) (codes ",1")
                  (Digits-OneLine _ (decimal-Digits s.bottom_margin))
                  (one_line (codes ",1") refl)))))))

pub head-OneLine : (s : Style) → All OneLine (document_head s)
head-OneLine s = (
  one_line (codes "[Script Info]") refl,
  (
    one_line (codes "ScriptType: v4.00+") refl,
    (
      one_line (codes "PlayResX: 1080") refl,
      (
        one_line (codes "PlayResY: 1920") refl,
        (
          one_line (codes "WrapStyle: 2") refl,
          (
            one_line (codes "ScaledBorderAndShadow: yes") refl,
            (
              one_line (codes "YCbCr Matrix: TV.709") refl,
              (
                tt,
                (
                  one_line (codes "[V4+ Styles]") refl,
                  (
                    one_line style_format refl,
                    (
                      style_line-OneLine s,
                      (tt, (one_line (codes "[Events]") refl, (one_line event_format refl, tt))),
                    ),
                  ),
                ),
              ),
            ),
          ),
        ),
      ),
    ),
  ),
)

pub lines_of_document :
    (ls : List Text)
    → 1 ≤ length ls
    → All OneLine ls
    → splitlines (join_lines ls ++ newline ∷ []) ≡ ls
unfolding splitlines
lines_of_document [] n h = absurd (omega (arith, n))
lines_of_document (l ∷ ls) n h =
    splitlines-join_from l ls [] h.0 h.1 ∙ ap (λ ms. l ∷ ms) (nil_behind ls)
