-- ===== src/Otp/Tests.antt =====
-- Runs of the code service, and instances of what is shown of it.
use Prim.Native.String.{◌++◌}
use doot_backend.Base.{◌+◌, ◌≡◌, refl, ◌≢◌, arith, true, none, some, [], ◌∷◌}
use text.Mathlib.Text.{◌==◌ as str_eq}
use doot_backend.Delivery.{
  DeliveryRow, pickup_otp_pending, picked_up, customer, load_authorized_delivery,
  can_transition_delivery, is_stale_operational_transition, is_terminal_delivery_status,
}
use doot_backend.Delivery.Lifecycle.{
  load_delivery, transition, transition_status, run_transition, find_delivery_row, move_found,
  move_row, record_event,
}
use doot_backend.Delivery.Tables.{Contact, pickup, DeliveryOtp, no_deliveries}
use doot_backend.Otp.{find_active, find_otp, consume}
use doot_backend.Otp.Service.{
  OtpOutside, OtpRequest, verify_pickup_otp, create_operational_otp_record, check_otp, verify_otp,
}
use doot_backend.Otp.Accepted.{verify_by, IsRight, verify_by-IsRight}
use doot_backend.Otp.Guesses.{check_otp-once}
use doot_backend.Otp.Lock.{
  try_all, IsOpen, IsTriable, verify_otp-locks, check_all, check_all-counts,
}
use doot_backend.Payment.Cover.History.{empty_store}
use doot_backend.Payment.Store.{Store, app_error, otp_locked, ok, err, answer}

abbrev outside : OtpOutside
outside = record {
  settings = record {
    otp_expiry_seconds = 600;
    otp_max_attempts = 3;
    otp_generation_cooldown_seconds = 60;
  };
  now = 100000;
  otp_id = 9;
  code = "123456";
  hash_otp = λ code. "#" ++ code;
  verify_otp_hash = λ guess hash. str_eq ("#" ++ guess) hash;
  parse_phone = λ code number. some (code ++ number);
  sms_enabled = true;
  send_sms = λ ty phone code. none;
  pause = answer tt;
}

abbrev pickup_contact : Contact
pickup_contact = record {
  delivery_id = 1;
  phone_country_code = some "+91";
  phone_number = some "98";
}

abbrev old_code : DeliveryOtp
old_code = record {
  id = 5;
  delivery_id = 1;
  otp_type = pickup;
  code_hash = "#654321";
  expires_at = 500000;
  attempts = 1;
  max_attempts = 3;
  consumed_at = none;
  created_at = 10000;
}

abbrev desk : Store
desk = record empty_store {
  delivery_tables = record no_deliveries { pickups = pickup_contact ∷ []; otps = old_code ∷ [] };
}

abbrev accepted : Store
accepted = (check_otp outside old_code "654321" desk).1

check_otp-once_example : check_otp outside old_code "654321" accepted ≢ (ok tt, accepted)
unfolding check_otp consume find_otp
check_otp-once_example =
    check_otp-once outside outside old_code old_code "654321" "654321" desk accepted accepted refl
      refl

old_code-IsOpen : IsOpen outside 1 pickup old_code desk
unfolding find_active find_otp
old_code-IsOpen = record { active = refl; stored = refl; lasting = omega arith }

verify_otp-locks_example :
    (verify_otp outside 1 pickup "654321"
      (try_all outside 1 pickup ("000000" ∷ "111111" ∷ []) desk)).0
    ≡ err (app_error otp_locked 422)
verify_otp-locks_example =
    verify_otp-locks outside 1 pickup old_code ("000000" ∷ "111111" ∷ []) "654321" desk (λ t. refl)
      old_code-IsOpen (refl, (refl, tt)) (omega arith)

old_code-IsTriable : IsTriable outside old_code
old_code-IsTriable = record { fresh = refl; lasting = omega arith; room = omega arith }

-- Three wrong guesses at once, where two attempts were left.
check_all-counts_example :
    (y : DeliveryOtp) × (find_otp 5 (check_all outside old_code ("0" ∷ "1" ∷ "2" ∷ []) desk)
      ≡ some y)
    × (y.attempts ≡ 1 + 3)
unfolding find_otp
check_all-counts_example =
    check_all-counts outside old_code old_code ("0" ∷ "1" ∷ "2" ∷ []) desk old_code-IsTriable refl
      (refl, (refl, (refl, tt)))

abbrev renewed : Store
renewed = (create_operational_otp_record outside 1 pickup desk).1

abbrev waiting : DeliveryRow
waiting = record { id = 1; customer_id = 7; reference = "DOOT-1"; status = pickup_otp_pending }

abbrev door : Store
door = record empty_store {
  delivery_tables = record no_deliveries { deliveries = waiting ∷ []; otps = old_code ∷ [] };
}

abbrev own_request : OtpRequest
own_request = record { delivery_id = 1; user_id = 7; role = customer }

verify_by-IsRight_example :
    (r : DeliveryOtp) × (find_active 1 pickup door ≡ some r) × IsRight outside r "654321"
unfolding verify_pickup_otp load_delivery load_authorized_delivery verify_otp find_active check_otp
    consume find_otp transition transition_status run_transition find_delivery_row move_found
    move_row record_event can_transition_delivery is_stale_operational_transition
    is_terminal_delivery_status
verify_by-IsRight_example =
    verify_by-IsRight outside pickup own_request "654321" door
      (verify_by pickup outside own_request "654321" door).1 picked_up (λ t. refl) refl
