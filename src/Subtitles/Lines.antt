-- ===== src/Subtitles/Lines.antt =====
-- A rendered WebVTT text as lines.
use social_pilot_ai.Base.{
  ℕ, ◌≤◌, ◌≡◌, refl, ap, ◌∙◌, false, List, [], ◌∷◌, ◌++◌, Text, codes, length, ◌==◌, flat_map,
  decimal, Digits, decimal-Digits, All, All-imp, All-append, padded-Digits, arith,
}
use social_pilot_ai.Subtitles.Times.{around, timestamp}
use social_pilot_ai.Subtitles.Webvtt.{
  Cue, newline, join_from, join_lines, arrow, cue_blocks, ends_line, onto_first, splitlines,
}

-- A text within one line.
abbrev pub OneLine : Text → Type 0
OneLine = All (λ c. ends_line c ≡ false)

-- A line is split off a text.
splitlines-OneLine : (l t : Text) → OneLine l → splitlines (l ++ newline ∷ t) ≡ l ∷ splitlines t
unfolding splitlines
splitlines-OneLine [] [] h = refl
splitlines-OneLine [] (d ∷ t) h = refl
splitlines-OneLine (c ∷ []) t h =
    let e = h.0 in
    let other : (c == 13) ≡ false = ground (arith, e) in
    rw other (rw e (ap (onto_first c) (splitlines-OneLine [] t tt)))
splitlines-OneLine (c ∷ d ∷ l) t h =
    let e = h.0 in
    let other : (c == 13) ≡ false = ground (arith, e) in
    rw other (rw e (ap (onto_first c) (splitlines-OneLine (d ∷ l) t h.1)))

append_assoc : (a b c : Text) → (a ++ b) ++ c ≡ a ++ (b ++ c)
append_assoc [] b c = refl
append_assoc (x ∷ a) b c = ap (λ t. x ∷ t) (append_assoc a b c)

lines_assoc : (a : Text) (ls ms : List Text) → (a ∷ ls) ++ ms ≡ a ∷ (ls ++ ms)
lines_assoc a ls ms = refl

pub splitlines-join_from :
    (l : Text) (ls : List Text) (t : Text)
    → OneLine l
    → All OneLine ls
    → splitlines (join_from l ls ++ newline ∷ t) ≡ l ∷ (ls ++ splitlines t)
splitlines-join_from l [] t h a = splitlines-OneLine l t h
splitlines-join_from l (k ∷ ls) t h a =
    ap splitlines (append_assoc l (newline ∷ join_from k ls) (newline ∷ t))
    ∙ splitlines-OneLine l (join_from k ls ++ newline ∷ t) h
    ∙ ap (λ ms. l ∷ ms) (splitlines-join_from k ls t a.0 a.1)

pub Digits-OneLine : (t : Text) → Digits t → OneLine t
Digits-OneLine t = All-imp _ _ t (λ c d. ground (arith, d))

-- What is around a separator is of one line if its parts are.
pub around-OneLine :
    (a : Text) (c : ℕ) (b : Text)
    → OneLine a
    → ends_line c ≡ false
    → OneLine b
    → OneLine (around a c b)
around-OneLine a c b h e k = All-append _ a (c ∷ b) h (e, k)

timestamp-OneLine : (ms : ℕ) → OneLine (timestamp ms)
unfolding timestamp
timestamp-OneLine ms = around-OneLine _ b':' _ (Digits-OneLine _ (padded-Digits 2 _)) refl (
    around-OneLine _ b':' _ (Digits-OneLine _ (padded-Digits 2 _)) refl (
      around-OneLine _ b'.' _ (Digits-OneLine _ (padded-Digits 2 _)) refl
        (Digits-OneLine _ (padded-Digits 3 _))))

abbrev pub times_line : Cue → Text
times_line cue = timestamp cue.start_ms ++ (arrow ++ timestamp cue.end_ms)

times_line-OneLine : (cue : Cue) → OneLine (times_line cue)
times_line-OneLine cue =
    All-append (λ c. ends_line c ≡ false) (timestamp cue.start_ms) (arrow ++ timestamp cue.end_ms)
      (timestamp-OneLine cue.start_ms)
      (All-append (λ c. ends_line c ≡ false) arrow (timestamp cue.end_ms)
        (refl, (refl, (refl, (refl, (refl, tt))))) (timestamp-OneLine cue.end_ms))

-- A cue with a line, all of whose lines are not empty and stay lines.
pub record Readable (wrap : Cue → List Text) (cue : Cue) : Type 0 where
  pub some_line : 1 ≤ length (wrap cue)
  pub full : All (λ l. 1 ≤ length l) (wrap cue)
  pub one_line : All OneLine (wrap cue)

-- The lines after the first, with an empty line before each cue.
abbrev pub rest_lines : (Cue → List Text) → List Cue → List Text
rest_lines wrap [] = []
rest_lines wrap (c ∷ cs) = [] ∷ decimal c.sequence ∷ times_line c ∷ (wrap c ++ rest_lines wrap cs)

wrapped_lines :
    (ls : List Text) (t : Text)
    → 1 ≤ length ls
    → All OneLine ls
    → splitlines (join_lines ls ++ newline ∷ t) ≡ ls ++ splitlines t
wrapped_lines [] t p h = absurd (omega (arith, p))
wrapped_lines (l ∷ ls) t p h = splitlines-join_from l ls t h.0 h.1

blocks_lines :
    (wrap : Cue → List Text) (cs : List Cue)
    → All (Readable wrap) cs
    → splitlines (join_from [] (flat_map (cue_blocks wrap) cs)) ≡ rest_lines wrap cs
unfolding splitlines cue_blocks
blocks_lines wrap [] h = refl
blocks_lines wrap (c ∷ cs) h =
    let r = h.0 in
    let after = join_from [] (flat_map (cue_blocks wrap) cs) in
    let text = join_lines (wrap c) ++ newline ∷ after in
    let times = times_line c ++ newline ∷ text in
    splitlines-OneLine [] (decimal c.sequence ++ newline ∷ times) tt
    ∙ ap (λ ms. [] ∷ ms)
        (splitlines-OneLine (decimal c.sequence) times
            (Digits-OneLine _ (decimal-Digits c.sequence))
          ∙ ap (λ ms. decimal c.sequence ∷ ms)
              (splitlines-OneLine (times_line c) text (times_line-OneLine c)
                ∙ ap (λ ms. times_line c ∷ ms)
                    (wrapped_lines (wrap c) after r.some_line r.one_line
                      ∙ ap (λ ms. wrap c ++ ms) (blocks_lines wrap cs h.1))))

pub rendered_lines :
    (wrap : Cue → List Text) (cs : List Cue)
    → All (Readable wrap) cs
    → splitlines (join_lines (codes "WEBVTT" ∷ [] ∷ flat_map (cue_blocks wrap) cs))
      ≡ codes "WEBVTT" ∷ rest_lines wrap cs
rendered_lines wrap cs h =
    splitlines-OneLine (codes "WEBVTT") (join_from [] (flat_map (cue_blocks wrap) cs))
      (refl, (refl, (refl, (refl, (refl, (refl, tt))))))
    ∙ ap (λ ms. codes "WEBVTT" ∷ ms) (blocks_lines wrap cs h)
