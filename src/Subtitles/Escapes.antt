-- ===== src/Subtitles/Escapes.antt =====
-- The two ways to an ASS document, and its escapes.
use social_pilot_ai.Base.{
  ℕ, ◌≤◌, ◌≡◌, refl, ap, ◌∙◌, Bool, true, false, Option, some, List, [], ◌∷◌, Text, length, ◌==◌,
  ==_iff, All, Bool-cases, inl, inr, if◌then◌else◌, arith,
}
use social_pilot_ai.Subtitles.Webvtt.{Cue, render_webvtt}
use social_pilot_ai.Subtitles.Ass.{
  replace, escape_ass_text, Style, render_ass, document_of, read_document, render_ass_from_webvtt,
}
use social_pilot_ai.Subtitles.Lines.{Readable}
use social_pilot_ai.Subtitles.Readback.{webvtt_events-render_webvtt}

-- Where decoding undoes encoding, and for cues wrapped into lines that are not empty and have no
-- character that ends a line: the ASS document made from the rendered WebVTT is the one made from
-- the cues.
pub render_ass_from_webvtt-render_webvtt :
    (wrap : Cue → List Text) (encode : Text → Text) (decode : Text → Option Text)
    → ((t : Text) → decode (encode t) ≡ some t)
    → (cues : List Cue) (content : Text) (style : Style) → 1 ≤ length cues
    → All (Readable wrap) cues
    → render_webvtt wrap cues ≡ some content
    → render_ass_from_webvtt decode (encode content) style ≡ render_ass wrap cues style
unfolding render_ass_from_webvtt render_ass
render_ass_from_webvtt-render_webvtt wrap encode decode back cues content style n h e =
    ap (read_document style) (back content)
    ∙ ap (document_of style) (webvtt_events-render_webvtt wrap cues content n h e)

-- What a reader of an escaped text takes it for: a backslash stands before the character meant.
abbrev pub unescape : Text → Text
unescape [] = []
unescape (c ∷ []) = c ∷ []
unescape (c ∷ d ∷ t) =
    let rest = unescape (d ∷ t) in
    let after = unescape t in if c == b'\\' then d ∷ after else c ∷ rest

-- The three characters that get a backslash.
abbrev pub is_special : ℕ → Bool
is_special c = if c == b'\\' then true else if c == b'{' then true else c == b'}'

pub escape-special :
    (c : ℕ) (t : Text)
    → is_special c ≡ true
    → escape_ass_text (c ∷ t) ≡ b'\\' ∷ c ∷ escape_ass_text t
unfolding escape_ass_text replace
escape-special c t h = elim (Bool-cases (c == b'\\')) [
  | inl e ↦ rw ((==_iff c b'\\').0 e) refl
  | inr e ↦ elim (Bool-cases (c == b'{')) [
    | inl f ↦ rw ((==_iff c b'{').0 f) refl
    | inr f ↦ let last : c ≡ b'}' = ground (arith, h, e, f) in rw last refl
  ]
]

pub escape-plain :
    (c : ℕ) (t : Text) → is_special c ≡ false → escape_ass_text (c ∷ t) ≡ c ∷ escape_ass_text t
unfolding escape_ass_text replace
escape-plain c t h =
    let a : (c == b'\\') ≡ false = ground (arith, h) in
    let b : (c == b'{') ≡ false = ground (arith, h) in
    let d : (c == b'}') ≡ false = ground (arith, h) in rw a (rw b (rw d refl))

unescape-plain : (c : ℕ) (t : Text) → is_special c ≡ false → unescape (c ∷ t) ≡ c ∷ unescape t
unescape-plain c [] h = refl
unescape-plain c (d ∷ t) h = let a : (c == b'\\') ≡ false = ground (arith, h) in rw a refl

-- A text whose backslashes and braces are escaped is read back, each backslash standing for the
-- character behind it, as the text.
pub unescape-escape_ass_text : (t : Text) → unescape (escape_ass_text t) ≡ t
unescape-escape_ass_text [] = unfold escape_ass_text replace in refl
unescape-escape_ass_text (c ∷ t) = elim (Bool-cases (is_special c)) [
  | inl e ↦ ap unescape (escape-special c t e) ∙ ap (λ s. c ∷ s) (unescape-escape_ass_text t)
  | inr e ↦
      ap unescape (escape-plain c t e)
      ∙ unescape-plain c (escape_ass_text t) e
      ∙ ap (λ s. c ∷ s) (unescape-escape_ass_text t)
]
