-- ===== src/Artifacts/Stream.antt =====
-- `stream_file` of backend/app/services/video_artifact_http.py over the bytes of a file. `read` of
-- a file answers as many bytes as are asked for, or all that are left.
use social_pilot_ai.Base.{
  ℕ, zero, suc, ◌-◌, Bool, true, false, not, Option, none, some, List, [], ◌∷◌, length, ltb, leb,
  if◌then◌else◌,
}

abbrev pub chunk_size : ℕ
chunk_size = 65536

module _ {A : Type 0} where
  abbrev pub take : ℕ → List A → List A
  take zero xs = []
  take (suc n) [] = []
  take (suc n) (x ∷ xs) = x ∷ take n xs

  abbrev pub skip : ℕ → List A → List A
  skip zero xs = xs
  skip (suc n) [] = []
  skip (suc n) (x ∷ xs) = skip n xs

  abbrev pub is_empty : List A → Bool
  is_empty [] = true
  is_empty (x ∷ xs) = false

-- `remaining is None or remaining > 0`
abbrev pub goes_on : Option ℕ → Bool
goes_on none = true
goes_on (some n) = ltb 0 n

abbrev pub read_size : ℕ → Option ℕ → ℕ
read_size size none = size
read_size size (some n) = if leb size n then size else n

abbrev pub less : Option ℕ → ℕ → Option ℕ
less none k = none
less (some n) k = some (n - k)

-- The loop, on fuel: what is left of the file, and of the length.
unfoldable pub chunks : ℕ → ℕ → Option ℕ → List ℕ → List (List ℕ)
chunks zero size remaining left = []
chunks (suc fuel) size remaining left =
    let chunk = take (read_size size remaining) left in
    let rest =
      chunks fuel size (less remaining (length chunk)) (skip (read_size size remaining) left) in
    if not (goes_on remaining) then [] else if is_empty chunk then [] else chunk ∷ rest

-- Each turn reads a byte at least, so a turn for each byte and one more are enough.
unfoldable pub stream_file : List ℕ → ℕ → Option ℕ → List (List ℕ)
unfolding chunks
stream_file content start length' =
    let left = skip start content in chunks (suc (length left)) chunk_size length' left
