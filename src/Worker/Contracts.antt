-- ===== src/Worker/Contracts.antt =====
-- What a handler returns and how handlers are registered: backend/app/execution/contracts.py and
-- backend/app/execution/registry.py.
use social_pilot_ai.Base.{
  ℕ, Bool, true, false, not, ◌&&◌, ◌||◌, Option, some, none, List, [], ◌∷◌, Text, text_eq, all_of,
  is_some, if◌then◌else◌,
}
use social_pilot_ai.Json.{Fields, end, accepts_fields}
use social_pilot_ai.Action.{Result, ok, err, runtime}
use social_pilot_ai.Queue.Types.{SubmissionState, is_certain}
use social_pilot_ai.Queue.Requests.{
  within, optional, is_name_char, is_safe_error_code, positive, same_presence,
  is_submit_unknown_state,
}

pub data HandlerStatus : Type 0 where
  succeeded failed submit_unknown : HandlerStatus

pub record HandlerResult : Type 0 where
  pub status : HandlerStatus
  pub safe_error_code : Option Text
  pub safe_error_details : Fields
  pub provider_name : Option Text
  pub provider_operation_id : Option Text
  pub result_entity_type : Option Text
  pub result_entity_id : Option ℕ
  pub provider_submission_state : Option SubmissionState

abbrev pub is_success : HandlerStatus → Bool
is_success HandlerStatus.succeeded = true
is_success _ = false

abbrev pub is_unknown : HandlerStatus → Bool
is_unknown HandlerStatus.submit_unknown = true
is_unknown _ = false

-- The states that a result may name; `NOT_STARTED` is not one.
abbrev pub is_result_state : Option SubmissionState → Bool
is_result_state none = true
is_result_state (some SubmissionState.not_started) = false
is_result_state (some _) = true

abbrev pub may_be_unknown : Option SubmissionState → Bool
may_be_unknown none = true
may_be_unknown (some state) = is_submit_unknown_state state

-- `certain_provider_failure` of the worker.
abbrev pub is_certain_failure : Option SubmissionState → Bool
is_certain_failure none = false
is_certain_failure (some state) = is_certain state

abbrev pub safe_code : Option Text → Bool
safe_code none = false
safe_code (some code) = is_safe_error_code code

-- `HandlerResult.__post_init__`: `true` where it returns, `false` where it raises.
unfoldable pub valid_result : HandlerResult → Bool
unfolding is_safe_error_code
valid_result r =
    accepts_fields r.safe_error_details
    && optional (within 1 80) r.provider_name
    && optional (within 1 255) r.provider_operation_id
    && same_presence r.result_entity_type r.result_entity_id
    && optional (λ t. within 1 80 t && all_of is_name_char t) r.result_entity_type
    && positive r.result_entity_id
    && (is_success r.status || not (is_some r.result_entity_type))
    && is_result_state r.provider_submission_state
    && (not (is_unknown r.status) || may_be_unknown r.provider_submission_state)
    && (if is_success r.status
        then not (is_some r.safe_error_code)
        else safe_code r.safe_error_code)

-- `HandlerResult.failed(code)`
abbrev pub failed_with : Text → HandlerResult
failed_with code = record {
  status = HandlerStatus.failed;
  safe_error_code = some code;
  safe_error_details = end;
  provider_name = none;
  provider_operation_id = none;
  result_entity_type = none;
  result_entity_id = none;
  provider_submission_state = none;
}

-- `HandlerResult.submit_unknown(code)`
abbrev pub unknown_with : Text → HandlerResult
unknown_with code = record (failed_with code) {
  status = HandlerStatus.submit_unknown;
  provider_submission_state = some SubmissionState.submit_unknown;
}

-- `ExecutionHandlerRegistry`, for handlers of any kind, in the order of their registration.
module _ {H : Type 0} where
  abbrev pub resolve : List (Text × H) → Text → Option H
  resolve [] job_type = none
  resolve ((t, h) ∷ hs) job_type = if text_eq t job_type then some h else resolve hs job_type

  unfoldable pub register : Text → H → List (Text × H) → Result (List (Text × H))
  register job_type h hs =
      if not (within 1 80 job_type && all_of is_name_char job_type)
      then err runtime
      else if is_some (resolve hs job_type)
      then err runtime
      else ok ((job_type, h) ∷ hs)
