-- ===== src/Batch/Requests.antt =====
-- The request models of backend/app/schemas/batch_video.py and their validation.
use social_pilot_ai.Base.{
  ℕ, Bool, true, false, ◌&&◌, ◌||◌, Option, none, some, List, [], ◌∷◌, Text, codes, text_eq, length,
  leb, ◌==◌, all_of, strip, is_digit, is_upper_letter, is_lower_letter,
}
use social_pilot_ai.Batch.Types.{Platform}

-- `BatchVideoRequest`; the duration and the aspect ratio have one value each.
pub record BatchVideoRequest : Type 0 where
  pub product_ids : List ℕ
  pub platforms : List Platform
  pub variants_per_platform : ℕ
  pub duration_seconds : ℕ
  pub aspect_ratio : Text
  pub language : Text
  pub priority : ℕ
  pub max_concurrency : ℕ
  pub creative_angle : Option Text
  pub idempotency_key : Text

-- `clean_angle`
abbrev pub clean_angle : Option Text → Option Text
clean_angle none = none
clean_angle (some t) = elim (strip t) [ [] ↦ none | c ∷ rest ↦ some (c ∷ rest) ]

abbrev pub between : ℕ → ℕ → ℕ → Bool
between lo hi n = leb lo n && leb n hi

-- `^[A-Za-z0-9][A-Za-z0-9._:-]+$`
abbrev pub is_letter_or_digit : ℕ → Bool
is_letter_or_digit c = is_upper_letter c || is_lower_letter c || is_digit c

abbrev pub is_key_part : ℕ → Bool
is_key_part c = is_letter_or_digit c || c == b'.' || c == b'_' || c == b':' || c == b'-'

abbrev pub is_key : Text → Bool
is_key [] = false
is_key (c ∷ rest) = is_letter_or_digit c && leb 1 (length rest) && all_of is_key_part rest

-- `^[a-z]{2,3}(?:-[A-Z]{2})?$`
abbrev pub is_region : Text → Bool
is_region [] = true
is_region (c ∷ rest) = c == b'-' && length rest == 2 && all_of is_upper_letter rest

abbrev pub is_language : Text → Bool
is_language (a ∷ b ∷ c ∷ rest) =
    is_lower_letter a
    && is_lower_letter b
    && (is_region (c ∷ rest) || (is_lower_letter c && is_region rest))
is_language (a ∷ b ∷ []) = is_lower_letter a && is_lower_letter b
is_language (a ∷ []) = false
is_language [] = false

abbrev pub short_angle : Option Text → Bool
short_angle none = true
short_angle (some t) = leb (length t) 300

unfoldable pub valid_request : BatchVideoRequest → Bool
valid_request r =
    between 1 20 (length r.product_ids)
    && between 1 3 (length r.platforms)
    && between 1 10 r.variants_per_platform
    && r.duration_seconds == 15
    && text_eq r.aspect_ratio (codes "9:16")
    && is_language r.language
    && leb (length r.language) 35
    && leb r.priority 100
    && between 1 20 r.max_concurrency
    && short_angle r.creative_angle
    && between 8 200 (length r.idempotency_key)
    && is_key r.idempotency_key

-- `^[0-9a-f]{64}$`
abbrev pub is_digest : Text → Bool
is_digest t = length t == 64 && all_of (λ c. is_digit c || (leb b'a' c && leb c b'f')) t

-- `BatchVideoCreateRequest`; `cost_confirmed` has one value.
pub record BatchVideoCreateRequest : Type 0 where
  pub request : BatchVideoRequest
  pub open request use *
  pub request_digest : Text
  pub preflight_digest : Text
  pub preflight_expires_at : ℕ

unfoldable pub valid_create_request : BatchVideoCreateRequest → Bool
unfolding valid_request
valid_create_request r =
    valid_request r.request && is_digest r.request_digest && is_digest r.preflight_digest
