-- ===== src/Booking/Outcome.antt =====
-- What a provider's answer to a booking means: src/modules/booking/booking.provider-outcome.ts.
-- Of a resolved outcome the columns that decide or are stored here: the order and the failure's code.
use doot_backend.Base.{Bool, true, false, Option, none, some, String, get_or, if◌then◌else◌}
use doot_backend.Cancellation.Outcome.{
  ErrorCategory, timeout, service_unavailable, rate_limited, unknown_error, unsupported_operation,
}
use doot_backend.Payment.Store.{
  ErrorCode, booking_failed, provider_booking_unknown, provider_booking_rejected,
  provider_booking_unavailable,
}

pub data BookingOutcome : Type 0 where
  booked failed unknown : BookingOutcome

-- `NormalizedBookingResult`
pub record BookingResult : Type 0 where
  pub success : Bool
  pub outcome : Option BookingOutcome
  pub provider_booking_id : Option String

-- `ResolvedBookingOutcome`
pub record Resolved : Type 0 where
  pub outcome : BookingOutcome
  pub provider_order_id : Option String
  pub failure_code : Option ErrorCode

abbrev rejected_code : BookingOutcome → Option ErrorCode
rejected_code failed = some provider_booking_rejected
rejected_code _ = none

unfoldable pub resolve_normalized_booking_result : BookingResult → Resolved
resolve_normalized_booking_result result =
    let outcome = get_or result.outcome (if result.success then booked else failed) in
    record {
      outcome = outcome;
      provider_order_id = result.provider_booking_id;
      failure_code = rejected_code outcome;
    }

-- `unknownCategories`
abbrev pub leaves_booking_unknown : ErrorCategory → Bool
leaves_booking_unknown timeout = true
leaves_booking_unknown service_unavailable = true
leaves_booking_unknown rate_limited = true
leaves_booking_unknown unknown_error = true
leaves_booking_unknown _ = false

abbrev category_code : ErrorCategory → ErrorCode
category_code unsupported_operation = provider_booking_unavailable
category_code ErrorCategory.booking_failed = provider_booking_rejected
category_code _ = booking_failed

abbrev ended : BookingOutcome → ErrorCode → Resolved
ended outcome code = record {
  outcome = outcome;
  provider_order_id = none;
  failure_code = some code;
}

unfoldable pub classify_provider_adapter_error : ErrorCategory → Resolved
classify_provider_adapter_error category =
    if leaves_booking_unknown category
    then ended unknown provider_booking_unknown
    else ended failed (category_code category)

-- What the call of the provider throws: its own error, bare or as the cause of an `AppError` with
-- the code PROVIDER_ADAPTER_ERROR; another `AppError`; or anything else.
pub data BookingFailure : Type 0 where
  adapter_error wrapped_adapter_error : ErrorCategory → BookingFailure
  app_failure : ErrorCode → BookingFailure
  other : BookingFailure

unfoldable pub classify_booking_execution_error : BookingFailure → Resolved
unfolding classify_provider_adapter_error
classify_booking_execution_error (adapter_error category) = classify_provider_adapter_error category
classify_booking_execution_error (wrapped_adapter_error category) =
    classify_provider_adapter_error category
classify_booking_execution_error (app_failure code) = ended failed code
classify_booking_execution_error other = ended unknown provider_booking_unknown

-- How the call of the provider ends.
pub data BookingReply : Type 0 where
  answered : BookingResult → BookingReply
  thrown : BookingFailure → BookingReply

abbrev pub resolve_booking : BookingReply → Resolved
resolve_booking (answered result) = resolve_normalized_booking_result result
resolve_booking (thrown failure) = classify_booking_execution_error failure
