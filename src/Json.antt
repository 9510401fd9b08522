-- ===== src/Json.antt =====
-- JSON values, and `reject_sensitive_keys` of backend/app/schemas/execution.py, which keeps
-- credentials out of every persisted payload.
pub mod Sensitive
mod Tests
use social_pilot_ai.Base.{
  ℕ, Bool, true, false, ◌&&◌, ◌||◌, Text, codes, casefold, contains, is_lower_letter, is_digit,
  keep, any_of, List, [], ◌∷◌, ◌==◌,
}

mutual
  pub data Json : Type 0 where
    null : Json
    boolean : Bool → Json
    number : ℕ → Json
    string : Text → Json
    array : Items → Json
    object : Fields → Json

  pub data Items : Type 0 where
    nil : Items
    cons : Json → Items → Items

  pub data Fields : Type 0 where
    end : Fields
    field : Text → Json → Fields → Fields

-- `_SENSITIVE_KEY_PARTS`
abbrev pub sensitive_key_parts : List Text
sensitive_key_parts =
    codes "token"
    ∷ codes "secret"
    ∷ codes "authorization"
    ∷ codes "cookie"
    ∷ codes "api_key"
    ∷ codes "apikey"
    ∷ []

-- The characters that `re.sub(r"[^a-z0-9_]", "", …)` leaves in place.
abbrev pub is_key_char : ℕ → Bool
is_key_char c = is_lower_letter c || is_digit c || c == b'_'

pub normalized_key : Text → Text
normalized_key key = keep is_key_char (casefold key)

unfoldable pub sensitive_key : Text → Bool
unfolding normalized_key casefold contains
sensitive_key key = any_of (λ part. contains part (normalized_key key)) sensitive_key_parts

-- `reject_sensitive_keys`: `true` where the source returns the value, `false` where it raises.
unfoldable mutual
  unfolding sensitive_key

  pub accepts : Json → Bool
  accepts null = true
  accepts (boolean b) = true
  accepts (number n) = true
  accepts (string s) = true
  accepts (array xs) = accepts_items xs
  accepts (object fs) = accepts_fields fs

  pub accepts_items : Items → Bool
  accepts_items nil = true
  accepts_items (cons x xs) = accepts x && accepts_items xs

  pub accepts_fields : Fields → Bool
  accepts_fields end = true
  accepts_fields (field k v fs) = elim (sensitive_key k) [
    | true ↦ false
    | false ↦ accepts v && accepts_fields fs
  ]
