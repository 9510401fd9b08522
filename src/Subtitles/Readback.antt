-- ===== src/Subtitles/Readback.antt =====
-- Rendered subtitles read back.
use social_pilot_ai.Base.{
  Bool, leb, ℕ, zero, suc, ◌≤◌, ◌<◌, ◌≡◌, refl, sym, subst, ap, ◌∙◌, Bool, true, false, some, List,
  [], ◌∷◌, ◌++◌, Text, codes, length, length-append, length-sort_with, map, ◌==◌, flat_map, decimal,
  Digits, decimal-Digits, decimal-nonempty, All, All-imp, All-append, All-sort_with, is_prefix,
  padded-Digits, text_eq_refl, arith,
}
use social_pilot_ai.Subtitles.Times.{around, timestamp, isdigit}
use social_pilot_ai.Subtitles.Clocks.{parse_webvtt_timestamp-timestamp, isdigit-Digits}
use social_pilot_ai.Subtitles.Webvtt.{
  Cue, Event, join_lines, arrow, cue_blocks, by_sequence, render_webvtt, splitlines, split_arrow,
  before_arrow, text_lines, after_text, event_of, event_between, both, parse_events, at_least_one,
  events_of_lines, webvtt_events,
}
use social_pilot_ai.Subtitles.Lines.{Readable, times_line, rest_lines, rendered_lines}

abbrev Spaceless : Text → Type 0
Spaceless = All (λ c. (c == 32) ≡ false)

Digits-Spaceless : (t : Text) → Digits t → Spaceless t
Digits-Spaceless t = All-imp _ _ t (λ c d. ground (arith, d))

around-Spaceless :
    (a : Text) (c : ℕ) (b : Text)
    → Spaceless a
    → (c == 32) ≡ false
    → Spaceless b
    → Spaceless (around a c b)
around-Spaceless a c b h e k = All-append _ a (c ∷ b) h (e, k)

timestamp-Spaceless : (ms : ℕ) → Spaceless (timestamp ms)
unfolding timestamp
timestamp-Spaceless ms = around-Spaceless _ b':' _ (Digits-Spaceless _ (padded-Digits 2 _)) refl (
    around-Spaceless _ b':' _ (Digits-Spaceless _ (padded-Digits 2 _)) refl (
      around-Spaceless _ b'.' _ (Digits-Spaceless _ (padded-Digits 2 _)) refl
        (Digits-Spaceless _ (padded-Digits 3 _))))

no_arrow : (c : ℕ) (t : Text) → (c == 32) ≡ false → is_prefix arrow (c ∷ t) ≡ false
unfolding is_prefix
no_arrow c t e = ground (arith, e)

-- The line is split where its arrow stands.
split_arrow-Spaceless : (a b : Text) → Spaceless a → split_arrow (a ++ (arrow ++ b)) ≡ some (a, b)
unfolding split_arrow is_prefix
split_arrow-Spaceless [] b h = refl
split_arrow-Spaceless (c ∷ a) b h =
    rw (no_arrow c (a ++ (arrow ++ b)) h.0) (ap (before_arrow c) (split_arrow-Spaceless a b h.1))

module _ (wrap : Cue → List Text) where
  -- What a reader should find of a cue.
  abbrev pub event_of_cue : Cue → Event
  event_of_cue c = record { start_ms = c.start_ms; end_ms = c.end_ms; lines = wrap c }

  text_lines-full :
      (ls : List Text) (cs : List Cue)
      → All (λ l. 1 ≤ length l) ls
      → text_lines (ls ++ rest_lines wrap cs) ≡ ls
  text_lines-full [] [] h = refl
  text_lines-full [] (c ∷ cs) h = refl
  text_lines-full ([] ∷ ls) cs h = absurd (let l = h.0 in omega (arith, l))
  text_lines-full ((c ∷ l) ∷ ls) cs h = ap (λ ms. (c ∷ l) ∷ ms) (text_lines-full ls cs h.1)

  after_text-full :
      (ls : List Text) (cs : List Cue)
      → All (λ l. 1 ≤ length l) ls
      → after_text (ls ++ rest_lines wrap cs) ≡ rest_lines wrap cs
  after_text-full [] [] h = refl
  after_text-full [] (c ∷ cs) h = refl
  after_text-full ([] ∷ ls) cs h = absurd (let l = h.0 in omega (arith, l))
  after_text-full ((c ∷ l) ∷ ls) cs h = after_text-full ls cs h.1

  event_of-some :
      (a b : ℕ) (ls : List Text)
      → 1 ≤ length ls
      → event_of (some a) (some b) ls ≡ some (record { start_ms = a; end_ms = b; lines = ls })
  event_of-some a b [] h = absurd (omega (arith, h))
  event_of-some a b (l ∷ ls) h = refl

  cue_event :
      (c : Cue) (cs : List Cue)
      → Readable wrap c
      → event_between (split_arrow (times_line c)) (wrap c ++ rest_lines wrap cs)
        ≡ some (event_of_cue c)
  cue_event c cs r =
      let ls = wrap c ++ rest_lines wrap cs in
      ap (λ o. event_between o ls)
        (split_arrow-Spaceless (timestamp c.start_ms) (timestamp c.end_ms)
          (timestamp-Spaceless c.start_ms))
      ∙ rw (parse_webvtt_timestamp-timestamp c.start_ms) (
          rw (parse_webvtt_timestamp-timestamp c.end_ms) (
            rw (text_lines-full (wrap c) cs r.full)
              (event_of-some c.start_ms c.end_ms (wrap c) r.some_line)))

  one_cue :
      (fuel : ℕ) (number times : Text) (ls : List Text)
      → isdigit number ≡ true
      → parse_events (suc fuel) (number ∷ times ∷ ls)
        ≡ both (event_between (split_arrow times) ls) (parse_events fuel (after_text ls))
  unfolding parse_events
  one_cue fuel [] times ls h = absurd (cc)
  one_cue fuel (c ∷ l) times ls h = rw h refl

  reads_cues :
      (fuel : ℕ) (cs : List Cue)
      → All (Readable wrap) cs
      → length (rest_lines wrap cs) < fuel
      → parse_events fuel (rest_lines wrap cs) ≡ some (map event_of_cue cs)
  unfolding parse_events
  reads_cues zero cs h l = absurd (omega (arith, l))
  reads_cues (suc fuel) [] h l = refl
  reads_cues (suc zero) (c ∷ cs) h l = absurd (omega (arith, l))
  reads_cues (suc (suc fuel)) (c ∷ cs) h l =
      let more = length-append (wrap c) (rest_lines wrap cs) in
      one_cue fuel (decimal c.sequence) (times_line c) (wrap c ++ rest_lines wrap cs) (
        isdigit-Digits (decimal c.sequence) (decimal-Digits c.sequence)
          (decimal-nonempty c.sequence))
      ∙ rw (cue_event c cs h.0) (
          rw (after_text-full (wrap c) cs h.0.full)
            (rw (reads_cues fuel cs h.1 (omega (arith, l, more))) refl))

  some_events :
      (cs : List Cue)
      → 1 ≤ length cs
      → at_least_one (some (map event_of_cue cs)) ≡ some (map event_of_cue cs)
  some_events [] h = absurd (omega (arith, h))
  some_events (c ∷ cs) h = refl

  -- What `render_webvtt` writes for one or more cues, each of which is wrapped into one or more
  -- lines that are not empty and have no character that ends a line, is read back by the reader of
  -- `render_ass_from_webvtt` as the times and the lines of the cues, in the order of their
  -- sequence.
  pub webvtt_events-render_webvtt :
      (cues : List Cue) (content : Text)
      → 1 ≤ length cues
      → All (Readable wrap) cues
      → render_webvtt wrap cues ≡ some content
      → webvtt_events content ≡ some (map event_of_cue (by_sequence cues))
  unfolding webvtt_events events_of_lines render_webvtt
  webvtt_events-render_webvtt cues content n h e =
      let cs = by_sequence cues in
      let earlier : Cue → Cue → Bool = λ a b. leb a.sequence b.sequence in
      let readable = All-sort_with (Readable wrap) earlier cues h in
      let written : join_lines (codes "WEBVTT" ∷ [] ∷ flat_map (cue_blocks wrap) cs) ≡ content =
        ground (arith, e) in
      let many : 1 ≤ length cs = subst (λ k. 1 ≤ k) (sym (length-sort_with earlier cues)) n in
      ap (λ t. events_of_lines (splitlines t)) (sym written)
      ∙ ap events_of_lines (rendered_lines wrap cs readable)
      ∙ rw (text_eq_refl (codes "WEBVTT")) (
          rw (reads_cues (suc (length (rest_lines wrap cs))) cs readable (omega arith))
            (some_events cs many))
