-- ===== src/Queue/Requests.antt =====
-- The request models of backend/app/schemas/execution.py and their validation, which FastAPI
-- runs before a handler and pydantic runs where the worker builds a request.
use social_pilot_ai.Base.{
  ℕ, Bool, true, false, not, ◌&&◌, ◌||◌, Option, none, some, List, [], ◌∷◌, map, Text, length, ltb,
  leb, ◌==◌, keep, all_of, is_upper_letter, is_lower_letter, is_digit, casefold, strip,
}
use social_pilot_ai.Json.{Fields}
use social_pilot_ai.Queue.Types.{SubmissionState}

-- `Field(min_length=lo, max_length=hi)`
abbrev pub within : ℕ → ℕ → Text → Bool
within lo hi t = leb lo (length t) && leb (length t) hi

abbrev pub optional : (Text → Bool) → Option Text → Bool
optional p none = true
optional p (some t) = p t

-- `[a-z0-9_.-]`
abbrev pub is_name_char : ℕ → Bool
is_name_char c = is_lower_letter c || is_digit c || c == b'_' || c == b'.' || c == b'-'

abbrev pub is_hex : ℕ → Bool
is_hex c = is_digit c || (leb b'a' c && leb c b'f') || (leb b'A' c && leb c b'F')

abbrev pub is_code_char : ℕ → Bool
is_code_char c = is_upper_letter c || is_digit c || c == b'_'

-- `^[A-Z][A-Z0-9_]{0,99}$`
unfoldable pub is_safe_error_code : Text → Bool
is_safe_error_code [] = false
is_safe_error_code (c ∷ rest) =
    is_upper_letter c && all_of is_code_char rest && leb (length rest) 99

pub record CreateRequest : Type 0 where
  pub job_type : Text
  pub source_type : Text
  pub source_id : ℕ
  pub input_digest : Text
  pub idempotency_key : Text
  pub input_payload : Fields
  pub priority : ℕ
  pub concurrency_key : Option Text
  pub estimated_cost : ℕ
  pub currency : Text
  pub cost_confirmed : Bool
  pub max_attempts : ℕ

unfoldable pub valid_create : CreateRequest → Bool
valid_create r =
    within 1 80 r.job_type
    && all_of is_name_char r.job_type
    && within 1 80 r.source_type
    && all_of is_name_char r.source_type
    && ltb 0 r.source_id
    && within 64 64 r.input_digest
    && all_of is_hex r.input_digest
    && within 8 200 r.idempotency_key
    && leb r.priority 1000000
    && optional (within 1 200) r.concurrency_key
    && within 3 3 r.currency
    && all_of (λ c. is_upper_letter c || is_lower_letter c) r.currency
    && leb 1 r.max_attempts
    && leb r.max_attempts 100

pub record LeaseRequest : Type 0 where
  pub worker_id : Text
  pub lease_seconds : ℕ

abbrev pub valid_lease : LeaseRequest → Bool
valid_lease r = within 8 500 r.worker_id && leb 5 r.lease_seconds && leb r.lease_seconds 3600

pub record ClaimRequest : Type 0 where
  pub lease : LeaseRequest
  pub open lease use *
  pub job_types : List Text

abbrev pub valid_claim : ClaimRequest → Bool
valid_claim r = valid_lease r.lease && leb (length r.job_types) 50

-- `normalize_job_types`; the source also sorts and drops repetitions, and the list is read only
-- by the membership test of `claim_next` and its test for emptiness.
unfoldable pub normalize_job_types : List Text → List Text
unfolding strip casefold
normalize_job_types ts = keep (λ t. ltb 0 (length t)) (map (λ t. casefold (strip t)) ts)

pub record HeartbeatRequest : Type 0 where
  pub lease : LeaseRequest
  pub open lease use *
  pub provider_call_count : Option ℕ
  pub external_submission_possible : Bool

pub record CompleteRequest : Type 0 where
  pub worker_id : Text
  pub provider_name : Option Text
  pub provider_operation_id : Option Text
  pub provider_call_count : ℕ
  pub result_entity_type : Option Text
  pub result_entity_id : Option ℕ

abbrev pub positive : Option ℕ → Bool
positive none = true
positive (some n) = ltb 0 n

abbrev pub same_presence : Option Text → Option ℕ → Bool
same_presence none none = true
same_presence (some t) (some n) = true
same_presence none (some n) = false
same_presence (some t) none = false

-- With `validate_result_reference_pair`.
unfoldable pub valid_complete : CompleteRequest → Bool
valid_complete r =
    within 8 500 r.worker_id
    && optional (within 1 80) r.provider_name
    && optional (within 1 255) r.provider_operation_id
    && optional (λ t. within 1 80 t && all_of is_name_char t) r.result_entity_type
    && positive r.result_entity_id
    && same_presence r.result_entity_type r.result_entity_id

pub record FailRequest : Type 0 where
  pub worker_id : Text
  pub safe_error_code : Text
  pub safe_error_details : Fields
  pub provider_call_count : ℕ
  pub external_submission_possible : Bool
  pub provider_submission_state : SubmissionState

abbrev pub is_submit_unknown_state : SubmissionState → Bool
is_submit_unknown_state SubmissionState.submit_unknown = true
is_submit_unknown_state _ = false

unfoldable pub valid_fail : FailRequest → Bool
unfolding is_safe_error_code
valid_fail r =
    within 8 500 r.worker_id
    && is_safe_error_code r.safe_error_code
    && not (is_submit_unknown_state r.provider_submission_state)

-- The two fields that `ExecutionJobUnknownRequest` fixes to one value are left out.
pub record UnknownRequest : Type 0 where
  pub worker_id : Text
  pub safe_error_code : Text
  pub safe_error_details : Fields
  pub provider_call_count : ℕ
  pub provider_name : Option Text
  pub provider_operation_id : Option Text

unfoldable pub valid_unknown : UnknownRequest → Bool
unfolding is_safe_error_code
valid_unknown r =
    within 8 500 r.worker_id
    && is_safe_error_code r.safe_error_code
    && optional (within 1 80) r.provider_name
    && optional (within 1 255) r.provider_operation_id
