-- ===== src/Artifacts/Tests.antt =====
-- Small ranges and streams, and the properties at concrete inputs.
use social_pilot_ai.Base.{
  is_prefix, ℕ, ◌≡◌, refl, ◌<◌, ◌≤◌, some, none, List, [], ◌∷◌, codes, length, decimal, All, arith,
}
use social_pilot_ai.Artifacts.Range.{parse_byte_range, safe_artifact_filename}
use social_pilot_ai.Artifacts.Ranges.{Within, parse_byte_range-Within}
use social_pilot_ai.Artifacts.Headers.{header, parse_byte_range-header}
use social_pilot_ai.Artifacts.Stream.{skip, chunk_size, chunks, stream_file}
use social_pilot_ai.Artifacts.Streams.{joined, stream_file_lem}

middle : parse_byte_range (codes "bytes= 2-4 ") 10 ≡ some (record { start = 2; end = 4 })
unfolding parse_byte_range is_prefix
middle = refl

signed : parse_byte_range (codes "bytes=+2-1_0") 10 ≡ some (record { start = 2; end = 9 })
unfolding parse_byte_range is_prefix
signed = refl

several : parse_byte_range (codes "bytes=0-1,4-5") 10 ≡ none
unfolding parse_byte_range is_prefix
several = refl

filename : safe_artifact_filename 3 14 (codes ".MP4") ≡ codes "video-artifact-3-task-14.mp4"
unfolding safe_artifact_filename
filename = refl

parse_byte_range-Within_example : Within 10 (record { start = 2; end = 4 })
parse_byte_range-Within_example =
    parse_byte_range-Within (codes "bytes= 2-4 ") 10 (record { start = 2; end = 4 }) middle

parse_byte_range-header_example :
    (parse_byte_range (header (decimal 2) (decimal 40)) 10 ≡ some (record { start = 2; end = 9 }))
    × (parse_byte_range (header (decimal 2) []) 10 ≡ some (record { start = 2; end = 9 }))
    × (parse_byte_range (header [] (decimal 3)) 10 ≡ some (record { start = 7; end = 9 }))
parse_byte_range-header_example =
    parse_byte_range-header 10 2 40 3 (omega arith) (omega arith) (omega arith)

abbrev bytes : List ℕ
bytes = 11 ∷ 12 ∷ 13 ∷ 14 ∷ []

by_two : chunks 5 2 (some 3) bytes ≡ (11 ∷ 12 ∷ []) ∷ (13 ∷ []) ∷ []
unfolding chunks
by_two = refl

stream_file_lem_example :
    (joined (stream_file bytes 1 (some 2)) ≡ 12 ∷ 13 ∷ [])
    × All (λ c. (1 ≤ length c) × (length c ≤ 65536)) (stream_file bytes 1 (some 2))
    × ((fuel : ℕ)
        → length (skip 1 bytes) < fuel
        → chunks fuel chunk_size (some 2) (skip 1 bytes) ≡ stream_file bytes 1 (some 2))
stream_file_lem_example = stream_file_lem bytes 1 (some 2)
