-- ===== src/Cancellation/Outcome.antt =====
-- What a provider's answer to a cancellation means:
-- src/modules/cancellation/cancellation.provider-outcome.ts. A date is kept as its text.
use doot_backend.Base.{
  ◌≡◌, ◌↔◌, ◌⊎◌, Bool, true, false, Option, none, some, String, get_or, if◌then◌else◌, arith,
}

pub data Outcome : Type 0 where
  cancelled rejected unknown : Outcome

pub record ProviderAnswer : Type 0 where
  pub success : Bool
  pub outcome : Option Outcome
  pub provider_cancellation_id : Option String
  pub reason : Option String
  pub cancelled_at : Option String

pub data FailureCode : Type 0 where
  provider_cancellation_rejected cancellation_unknown : FailureCode

pub record Resolved : Type 0 where
  pub outcome : Outcome
  pub provider_cancellation_reference : Option String
  pub cancelled_at : Option String
  pub failure_code : Option FailureCode
  pub failure_message : Option String

abbrev failure_code_of : Outcome → Option FailureCode
failure_code_of cancelled = none
failure_code_of rejected = some provider_cancellation_rejected
failure_code_of unknown = some cancellation_unknown

abbrev failure_message_of : Outcome → Option String → Option String
failure_message_of cancelled reason = none
failure_message_of rejected reason = reason
failure_message_of unknown reason = reason

unfoldable pub resolve_cancellation_result : ProviderAnswer → Resolved
resolve_cancellation_result result =
    let outcome = get_or result.outcome (if result.success then cancelled else rejected) in
    record {
      outcome = outcome;
      provider_cancellation_reference = result.provider_cancellation_id;
      cancelled_at = result.cancelled_at;
      failure_code = failure_code_of outcome;
      failure_message = failure_message_of outcome result.reason;
    }

-- `PROVIDER_ERROR_CATEGORIES` of src/modules/provider/contracts/provider-error.ts
pub data ErrorCategory : Type 0 where
  authentication_error authorization_error validation_error service_unavailable rate_limited timeout
        not_found booking_failed cancellation_failed unsupported_operation unknown_error :
      ErrorCategory

-- What the call of the provider may throw: its own error, with a message, or any other.
pub data ProviderFailure : Type 0 where
  adapter_error : ErrorCategory → String → ProviderFailure
  other : ProviderFailure

abbrev leaves_unknown : ErrorCategory → Bool
leaves_unknown timeout = true
leaves_unknown service_unavailable = true
leaves_unknown unknown_error = true
leaves_unknown _ = false

abbrev failed_with : Outcome → FailureCode → String → Resolved
failed_with outcome code message = record {
  outcome = outcome;
  provider_cancellation_reference = none;
  cancelled_at = none;
  failure_code = some code;
  failure_message = some message;
}

unfoldable pub classify_cancellation_error : ProviderFailure → Resolved
classify_cancellation_error (adapter_error category message) =
    if leaves_unknown category
    then failed_with unknown cancellation_unknown message
    else failed_with rejected provider_cancellation_rejected message
classify_cancellation_error other =
    failed_with unknown cancellation_unknown "Cancellation outcome could not be determined."

-- The answer that a cancellation gets, in `CancellationService.cancel`.
pub data Reply : Type 0 where
  answered : ProviderAnswer → Reply
  thrown : ProviderFailure → Reply

abbrev pub resolve : Reply → Resolved
resolve (answered result) = resolve_cancellation_result result
resolve (thrown failure) = classify_cancellation_error failure

-- The answer says that the booking is cancelled.
abbrev pub IsConfirmed : Reply → Type 0
IsConfirmed (answered result) =
    (result.outcome ≡ some cancelled) ⊎ ((result.outcome ≡ none) × (result.success ≡ true))
IsConfirmed (thrown failure) = true ≡ false

-- A cancellation is taken as done exactly on an answer that says so, by its outcome or, without
-- one, by its success flag: never on an error of the provider's call.
pub resolve-cancelled : (reply : Reply) → ((resolve reply).outcome ≡ cancelled) ↔ IsConfirmed reply
unfolding resolve_cancellation_result classify_cancellation_error
resolve-cancelled (answered result) = ground arith
resolve-cancelled (thrown failure) = ground arith

-- A failure code stands exactly on the outcomes other than CANCELLED, and says which of the two it is.
resolve-failure_code :
    (reply : Reply)
    → ((resolve reply).failure_code ≡ some provider_cancellation_rejected
        ↔ (resolve reply).outcome ≡ rejected)
      × ((resolve reply).failure_code ≡ some cancellation_unknown
          ↔ (resolve reply).outcome ≡ unknown)
unfolding resolve_cancellation_result classify_cancellation_error
resolve-failure_code (answered result) = ground arith
resolve-failure_code (thrown failure) = ground arith
