-- ===== src/Subtitles/Document.antt =====
-- A reader of ASS documents, apart from the code: the lines that begin with `Dialogue: `, split at
-- commas into the ten fields of the document's own format line, of which the last is the rest.
use social_pilot_ai.Base.{
  ℕ, zero, suc, ◌≤◌, ◌≡◌, refl, ap, ◌∙◌, sym, true, false, Option, none, some, List, [], ◌∷◌, ◌++◌,
  map, Text, codes, ◌==◌, length, keep, All, All-imp, All-append, is_prefix, if◌then◌else◌, Digits,
  decimal-Digits, padded-Digits, Bool-cases, inl, inr, arith,
}
use social_pilot_ai.Subtitles.Times.{around, centiseconds, ass_timestamp, split_at}
use social_pilot_ai.Subtitles.Clocks.{read_ass, read_ass-ass_timestamp}
use social_pilot_ai.Subtitles.Webvtt.{Event, onto_first, splitlines, drop_text}
use social_pilot_ai.Subtitles.Ass.{escape_ass_text, join_breaks, join_breaks_from, dialogue}
use social_pilot_ai.Subtitles.Escapes.{is_special, escape-special, escape-plain}

-- The parts of a text between its first commas.
abbrev pub fields : ℕ → Text → List Text
fields zero t = t ∷ []
fields (suc n) t = elim (split_at b',' t) [ none ↦ t ∷ [] | some p ↦ p.0 ∷ fields n p.1 ]

-- The lines of a text: `\N` breaks it, and any other character behind a backslash is meant.
abbrev pub read_lines : Text → List Text
read_lines [] = [] ∷ []
read_lines (c ∷ []) = (c ∷ []) ∷ []
read_lines (c ∷ d ∷ t) =
    let rest = read_lines (d ∷ t) in
    let after = read_lines t in
    if c == b'\\' then (if d == b'N' then [] ∷ after else onto_first d after) else onto_first c rest

-- The ten fields of a line, the times in hundredths of a second.
pub record Dialogue : Type 0 where
  pub layer : Text
  pub start : Option ℕ
  pub end : Option ℕ
  pub style : Text
  pub name : Text
  pub margin_left : Text
  pub margin_right : Text
  pub margin_vertical : Text
  pub effect : Text
  pub lines : List Text

abbrev pub dialogue_of : List Text → Option Dialogue
dialogue_of (layer ∷ start ∷ end ∷ style ∷ name ∷ left ∷ right ∷ vertical ∷ effect ∷ text ∷ []) =
    some (record {
      layer = layer;
      start = read_ass start;
      end = read_ass end;
      style = style;
      name = name;
      margin_left = left;
      margin_right = right;
      margin_vertical = vertical;
      effect = effect;
      lines = read_lines text;
    })
dialogue_of _ = none

abbrev pub read_dialogue : Text → Option Dialogue
read_dialogue line = dialogue_of (fields 9 (drop_text 10 line))

abbrev pub read_dialogues : Text → List (Option Dialogue)
read_dialogues content =
    map read_dialogue (keep (is_prefix (codes "Dialogue: ")) (splitlines content))

-- What a reader should find of an event.
abbrev pub dialogue_of_event : Event → Option Dialogue
dialogue_of_event e = some (record {
  layer = codes "0";
  start = some (centiseconds e.start_ms);
  end = some (centiseconds e.end_ms);
  style = codes "Default";
  name = [];
  margin_left = codes "0";
  margin_right = codes "0";
  margin_vertical = codes "0";
  effect = [];
  lines = e.lines;
})

-- A text in front of the first of some lines.
abbrev onto_lines : Text → List Text → List Text
onto_lines [] ls = ls
onto_lines (c ∷ t) ls = onto_first c (onto_lines t ls)

onto_lines-first : (t l : Text) (ls : List Text) → onto_lines t (l ∷ ls) ≡ (t ++ l) ∷ ls
onto_lines-first [] l ls = refl
onto_lines-first (c ∷ t) l ls = ap (onto_first c) (onto_lines-first t l ls)

append_nil : (t : Text) → t ++ [] ≡ t
append_nil [] = refl
append_nil (c ∷ t) = ap (λ s. c ∷ s) (append_nil t)

read_lines-plain :
    (c : ℕ) (t : Text) → is_special c ≡ false → read_lines (c ∷ t) ≡ onto_first c (read_lines t)
read_lines-plain c [] h = refl
read_lines-plain c (d ∷ t) h = let a : (c == b'\\') ≡ false = ground (arith, h) in rw a refl

read_lines-special :
    (c : ℕ) (t : Text)
    → is_special c ≡ true
    → read_lines (b'\\' ∷ c ∷ t) ≡ onto_first c (read_lines t)
read_lines-special c t h = let a : (c == b'N') ≡ false = ground (arith, h) in rw a refl

read_lines-escaped :
    (l s : Text) → read_lines (escape_ass_text l ++ s) ≡ onto_lines l (read_lines s)
read_lines-escaped [] s = unfold escape_ass_text in refl
read_lines-escaped (c ∷ l) s = elim (Bool-cases (is_special c)) [
  | inl e ↦
      ap (λ t. read_lines (t ++ s)) (escape-special c l e)
      ∙ read_lines-special c (escape_ass_text l ++ s) e
      ∙ ap (onto_first c) (read_lines-escaped l s)
  | inr e ↦
      ap (λ t. read_lines (t ++ s)) (escape-plain c l e)
      ∙ read_lines-plain c (escape_ass_text l ++ s) e
      ∙ ap (onto_first c) (read_lines-escaped l s)
]

read_lines-joined :
    (l : Text) (ls : List Text)
    → read_lines (join_breaks_from (escape_ass_text l) (map escape_ass_text ls)) ≡ l ∷ ls
read_lines-joined l [] =
    ap read_lines (sym (append_nil (escape_ass_text l)))
    ∙ read_lines-escaped l []
    ∙ onto_lines-first l [] []
    ∙ ap (λ t. t ∷ []) (append_nil l)
read_lines-joined l (k ∷ ls) =
    read_lines-escaped l _
    ∙ onto_lines-first l [] _
    ∙ ap (λ t. t ∷ read_lines (join_breaks_from (escape_ass_text k) (map escape_ass_text ls)))
        (append_nil l)
    ∙ ap (λ ms. l ∷ ms) (read_lines-joined k ls)

read_lines-join_breaks :
    (ls : List Text) → 1 ≤ length ls → read_lines (join_breaks (map escape_ass_text ls)) ≡ ls
read_lines-join_breaks [] h = absurd (omega (arith, h))
read_lines-join_breaks (l ∷ ls) h = read_lines-joined l ls

abbrev Commaless : Text → Type 0
Commaless = All (λ c. (c == b',') ≡ false)

split_at-Commaless : (a b : Text) → Commaless a → split_at b',' (a ++ b',' ∷ b) ≡ some (a, b)
unfolding split_at
split_at-Commaless [] b h = refl
split_at-Commaless (c ∷ a) b h = rw h.0 (rw (split_at-Commaless a b h.1) refl)

Digits-Commaless : (t : Text) → Digits t → Commaless t
Digits-Commaless t = All-imp _ _ t (λ c d. ground (arith, d))

around-Commaless :
    (a : Text) (c : ℕ) (b : Text)
    → Commaless a
    → (c == b',') ≡ false
    → Commaless b
    → Commaless (around a c b)
around-Commaless a c b h e k = All-append _ a (c ∷ b) h (e, k)

ass_timestamp-Commaless : (ms : ℕ) → Commaless (ass_timestamp ms)
unfolding ass_timestamp
ass_timestamp-Commaless ms =
    around-Commaless _ b':' _ (Digits-Commaless _ (decimal-Digits _)) refl (
      around-Commaless _ b':' _ (Digits-Commaless _ (padded-Digits 2 _)) refl (
        around-Commaless _ b'.' _ (Digits-Commaless _ (padded-Digits 2 _)) refl
          (Digits-Commaless _ (padded-Digits 2 _))))

-- The ten fields that a line has.
fields-dialogue :
    (a b text : Text)
    → Commaless a
    → Commaless b
    → fields 9 (codes "0," ++ (a ++ (codes "," ++ (b ++ (codes ",Default,,0,0,0,," ++ text)))))
      ≡ codes "0"
        ∷ a
        ∷ b
        ∷ codes "Default"
        ∷ []
        ∷ codes "0"
        ∷ codes "0"
        ∷ codes "0"
        ∷ []
        ∷ text
        ∷ []
unfolding split_at
fields-dialogue a b text h k =
    rw (split_at-Commaless a (b ++ (codes ",Default,,0,0,0,," ++ text)) h)
      (rw (split_at-Commaless b (codes "Default,,0,0,0,," ++ text) k) refl)

pub read_dialogue-dialogue :
    (e : Event) → 1 ≤ length e.lines → read_dialogue (dialogue e) ≡ dialogue_of_event e
unfolding dialogue
read_dialogue-dialogue e h =
    ap dialogue_of (
      fields-dialogue (ass_timestamp e.start_ms) (ass_timestamp e.end_ms)
        (join_breaks (map escape_ass_text e.lines)) (ass_timestamp-Commaless e.start_ms)
        (ass_timestamp-Commaless e.end_ms))
    ∙ rw (read_ass-ass_timestamp e.start_ms)
        (rw (read_ass-ass_timestamp e.end_ms) (rw (read_lines-join_breaks e.lines h) refl))
