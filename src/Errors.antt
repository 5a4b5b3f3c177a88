-- ===== src/Errors.antt =====
-- The codes of src/core/errors/error-codes.ts.

-- The codes of src/core/errors/error-codes.ts that the modelled services throw.
pub data ErrorCode : Type 0 where
  idempotency_conflict payment_not_allowed forbidden payment_already_exists internal_error
        payment_not_found payment_invalid_transition payment_invalid_amount refund_not_allowed
        payment_gateway_error refund_exceeds_paid refund_not_found refund_invalid_transition
        payment_gateway_not_configured delivery_not_found webhook_malformed payment_gateway_mismatch
        delivery_invalid_transition otp_not_allowed otp_not_found otp_invalid otp_expired otp_locked
        otp_generation_cooldown sms_not_configured sms_delivery_failed orchestration_in_progress
        orchestration_failed delivery_not_ready_for_orchestration orchestration_not_found
        booking_in_progress booking_not_found booking_not_allowed booking_failed booking_unknown
        provider_booking_reconciliation_required payment_required cancellation_in_progress
        cancellation_not_allowed cancellation_unknown provider_booking_unknown
        provider_booking_rejected provider_booking_unavailable provider_operation_unavailable
        provider_cancellation_rejected :
      ErrorCode
