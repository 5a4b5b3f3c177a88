-- ===== src/Otp/Steps.antt =====
-- What the handlers of src/modules/otp/otp.service.ts do to the deliveries and their log.
use doot_backend.Base.{ℕ, refl, Option, none, some, String}
use doot_backend.Delivery.{can_transition_delivery}
use doot_backend.Delivery.Tables.{DeliveryOtpType, DeliveryOtp}
use doot_backend.Delivery.Lifecycle.{load_delivery}
use doot_backend.Delivery.Trail.{may_move}
use doot_backend.Delivery.Trail.Rules.{advances, Advances}
use doot_backend.Delivery.Trail.Moves.{IsProper, transition-Advances}
use doot_backend.Otp.{NewOtp, create, increment_attempts, consume, invalidate_active, SmsError}
use doot_backend.Otp.Service.{
  to_pickup_otp_pending, to_picked_up, to_delivery_otp_pending, to_delivered, OtpOutside,
  OtpRequest, ensure_generation_allowed, recover_otp_after_sms_failure, after_sending, renew_otp,
  renew_with_phone, renew_by_sms, create_operational_otp_record, check_otp, verify_otp,
  generate_pickup_otp, verify_pickup_otp, generate_delivery_otp, verify_delivery_otp,
}

create-Advances : (k now : ℕ) (input : NewOtp) → Advances (create k now input)
unfolding create
create-Advances k now input = search advances

increment_attempts-Advances : (k : ℕ) → Advances (increment_attempts k)
unfolding increment_attempts
increment_attempts-Advances k = search advances

consume-Advances : (k now : ℕ) → Advances (consume k now)
unfolding consume
consume-Advances k now = search advances

invalidate_active-Advances :
    (now k : ℕ) (ty : DeliveryOtpType) → Advances (invalidate_active now k ty)
unfolding invalidate_active
invalidate_active-Advances now k ty = search advances

to_pickup_otp_pending-IsProper : (k : ℕ) → IsProper (to_pickup_otp_pending k)
unfolding may_move can_transition_delivery
to_pickup_otp_pending-IsProper k = record { all_may_move = (refl, (refl, tt)); by_otp = refl }

to_picked_up-IsProper : (k : ℕ) → IsProper (to_picked_up k)
unfolding may_move can_transition_delivery
to_picked_up-IsProper k = record { all_may_move = (refl, tt); by_otp = refl }

to_delivery_otp_pending-IsProper : (k : ℕ) → IsProper (to_delivery_otp_pending k)
unfolding may_move can_transition_delivery
to_delivery_otp_pending-IsProper k = record { all_may_move = (refl, tt); by_otp = refl }

to_delivered-IsProper : (k : ℕ) → IsProper (to_delivered k)
unfolding may_move can_transition_delivery
to_delivered-IsProper k = record { all_may_move = (refl, tt); by_otp = refl }

module _ (o : OtpOutside) (pause : Advances (o.pause)) where
  recover-Advances :
      (r : DeliveryOtp) (e : SmsError) → Advances (recover_otp_after_sms_failure o r e)
  unfolding recover_otp_after_sms_failure
  recover-Advances r e = search (advances, consume-Advances)

  after_sending-Advances : (r : DeliveryOtp) (e : Option SmsError) → Advances (after_sending o r e)
  unfolding after_sending
  after_sending-Advances r none = search advances
  after_sending-Advances r (some e) = search (advances, pause, recover-Advances)

  create_record-Advances :
      (k : ℕ) (ty : DeliveryOtpType) → Advances (create_operational_otp_record o k ty)
  unfolding create_operational_otp_record ensure_generation_allowed renew_by_sms renew_with_phone
      renew_otp
  create_record-Advances k ty =
      search (advances, pause, invalidate_active-Advances, create-Advances, after_sending-Advances)
        depth 16

  check_otp-Advances : (r : DeliveryOtp) (guess : String) → Advances (check_otp o r guess)
  unfolding check_otp
  check_otp-Advances r guess =
      search (advances, consume-Advances, increment_attempts-Advances) depth 12

  verify_otp-Advances :
      (k : ℕ) (ty : DeliveryOtpType) (guess : String) → Advances (verify_otp o k ty guess)
  unfolding verify_otp
  verify_otp-Advances k ty guess = search (advances, pause, check_otp-Advances)

  pub generate_pickup_otp-Advances : (input : OtpRequest) → Advances (generate_pickup_otp o input)
  unfolding generate_pickup_otp load_delivery
  generate_pickup_otp-Advances input =
      search
        (
          advances, pause, create_record-Advances, transition-Advances,
          to_pickup_otp_pending-IsProper,
        )
        depth 12

  pub verify_pickup_otp-Advances :
      (input : OtpRequest) (guess : String) → Advances (verify_pickup_otp o input guess)
  unfolding verify_pickup_otp load_delivery
  verify_pickup_otp-Advances input guess =
      search (advances, pause, verify_otp-Advances, transition-Advances, to_picked_up-IsProper)
        depth 12

  pub generate_delivery_otp-Advances :
      (input : OtpRequest) → Advances (generate_delivery_otp o input)
  unfolding generate_delivery_otp load_delivery
  generate_delivery_otp-Advances input =
      search
        (
          advances, pause, create_record-Advances, transition-Advances,
          to_delivery_otp_pending-IsProper,
        )
        depth 12

  pub verify_delivery_otp-Advances :
      (input : OtpRequest) (guess : String) → Advances (verify_delivery_otp o input guess)
  unfolding verify_delivery_otp load_delivery
  verify_delivery_otp-Advances input guess =
      search (advances, pause, verify_otp-Advances, transition-Advances, to_delivered-IsProper)
        depth 12
