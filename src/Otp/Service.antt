-- ===== src/Otp/Service.antt =====
-- Sending and verifying the codes at pickup and at the door: src/modules/otp/otp.service.ts.
-- Logging and the texts of the messages are left out.
use doot_backend.Base.{
  ℕ, ◌+◌, ◌*◌, Bool, true, false, not, Option, none, some, is_some, String, List, [], ◌∷◌, ltb, leb,
  if◌then◌else◌, ◌||◌,
}
use doot_backend.Base.Table.{find}
use text.Mathlib.Text.{◌==◌ as str_eq}
use doot_backend.Delivery.{
  DeliveryStatus, booked, driver_assigned, pickup_otp_pending, picked_up, in_transit,
  delivery_otp_pending, delivered, same_status, includes, UserRole,
}
use doot_backend.Delivery.Tables.{otp, Contact, DeliveryOtpType, pickup, delivery, DeliveryOtp}
use doot_backend.Delivery.Lifecycle.{load_delivery, Transition, transition}
use doot_backend.Otp.{
  NewOtp, find_active, create, increment_attempts, consume, invalidate_active, SmsError,
  should_invalidate_otp_after_sms_failure, read_sms_outcome_from_error,
}
use doot_backend.Payment.Store.{
  Store, app_error, otp_not_allowed, otp_not_found, otp_invalid, otp_expired, otp_locked,
  otp_generation_cooldown, sms_not_configured, Db, answer, throw, read, or_throw, catching, ◌>>=◌,
  ◌>>◌, throw_if,
}

-- The settings of src/config/env.ts; times are in milliseconds.
pub record OtpSettings : Type 0 where
  pub otp_expiry_seconds : ℕ
  pub otp_max_attempts : ℕ
  pub otp_generation_cooldown_seconds : ℕ

-- What the service takes from outside: the clock, the drawn id and code, the hash of src/modules/
-- auth/auth.crypto.ts (bcrypt), the phone parser of src/core/phone/phone.ts (libphonenumber), the
-- text message service (with the driver's row for its text), and what others commit between two steps of a request.
pub record OtpOutside : Type 0 where
  pub settings : OtpSettings
  pub now : ℕ
  pub otp_id : ℕ
  pub code : String
  pub hash_otp : String → String
  pub verify_otp_hash : String → String → Bool
  pub parse_phone : String → String → Option String
  pub sms_enabled : Bool
  pub send_sms : DeliveryOtpType → String → String → Option SmsError
  pub pause : Db (Unit {0})

pub record OtpRequest : Type 0 where
  pub delivery_id : ℕ
  pub user_id : ℕ
  pub role : UserRole

abbrev pub pickup_generation_statuses : List DeliveryStatus
pickup_generation_statuses = booked ∷ driver_assigned ∷ pickup_otp_pending ∷ []

abbrev pub delivery_generation_statuses : List DeliveryStatus
delivery_generation_statuses = in_transit ∷ delivery_otp_pending ∷ []

-- An empty column counts as none.
abbrev phone_columns : Option String → Option String → Option (String × String)
phone_columns (some code) (some number) =
    if str_eq code "" || str_eq number "" then none else some (code, number)
phone_columns _ _ = none

abbrev phone_of : OtpOutside → Option (String × String) → Option String
phone_of o none = none
phone_of o (some (code, number)) = o.parse_phone code number

abbrev contact_columns : Option Contact → Option (String × String)
contact_columns none = none
contact_columns (some c) = phone_columns c.phone_country_code c.phone_number

-- `toPhoneResponse` of the pickup's or the drop's contact.
unfoldable pub contact_phone : OtpOutside → DeliveryOtpType → ℕ → Store → Option String
contact_phone o pickup k s =
    phone_of o (contact_columns (find (λ c. c.delivery_id) k s.delivery_tables.pickups))
contact_phone o delivery k s =
    phone_of o (contact_columns (find (λ c. c.delivery_id) k s.delivery_tables.drops))

-- `elapsed < cooldownMs`, with the subtraction on the other side
abbrev cools : OtpOutside → Option DeliveryOtp → Bool
cools o none = false
cools o (some active) =
    ltb o.now (active.created_at + o.settings.otp_generation_cooldown_seconds * 1000)

unfoldable pub ensure_generation_allowed : OtpOutside → ℕ → DeliveryOtpType → Db (Unit {0})
ensure_generation_allowed o k ty = do
  active ← read (find_active k ty)
  throw_if (cools o active) (app_error otp_generation_cooldown 429)

-- `recoverOtpAfterSmsFailure`: a failing cleanup is only logged.
unfoldable pub recover_otp_after_sms_failure : OtpOutside → DeliveryOtp → SmsError → Db (Unit {0})
recover_otp_after_sms_failure o created error =
    if should_invalidate_otp_after_sms_failure (read_sms_outcome_from_error error)
    then catching (consume created.id o.now >> answer tt) (λ _. answer tt)
    else answer tt

-- What follows the attempt to send. What others commit while a message is sent that arrives comes with
-- the pause of the handler after this.
unfoldable pub after_sending : OtpOutside → DeliveryOtp → Option SmsError → Db (String × ℕ)
after_sending o created none = answer (o.code, created.expires_at)
after_sending o created (some error) = do
  o.pause
  recover_otp_after_sms_failure o created error
  throw error.failure

abbrev pub new_otp : OtpOutside → ℕ → DeliveryOtpType → NewOtp
new_otp o k ty = record {
  delivery_id = k;
  otp_type = ty;
  code_hash = o.hash_otp o.code;
  expires_at = o.now + o.settings.otp_expiry_seconds * 1000;
  max_attempts = o.settings.otp_max_attempts;
}

-- `createOperationalOtpRecord` after its checks: the old codes are retired before the new one is
-- sent, and only the new row is taken back when sending fails for certain.
unfoldable pub renew_otp : OtpOutside → ℕ → DeliveryOtpType → String → Db (String × ℕ)
renew_otp o k ty phone = do
  o.pause
  invalidate_active o.now k ty
  created ← create o.otp_id o.now (new_otp o k ty)
  after_sending o created (o.send_sms ty phone o.code)

-- `assertContactPhoneForOtpSms`, and what follows.
unfoldable pub renew_with_phone : OtpOutside → ℕ → DeliveryOtpType → Db (String × ℕ)
renew_with_phone o k ty = do
  found ← read (contact_phone o ty k)
  phone ← or_throw found (app_error otp_not_allowed 422)
  renew_otp o k ty phone

-- `ensureSmsAvailable`, and what follows.
unfoldable pub renew_by_sms : OtpOutside → ℕ → DeliveryOtpType → Db (String × ℕ)
renew_by_sms o k ty = do
  throw_if (not o.sms_enabled) (app_error sms_not_configured 503)
  renew_with_phone o k ty

-- `createOperationalOtpRecord`
unfoldable pub create_operational_otp_record : OtpOutside → ℕ → DeliveryOtpType → Db (String × ℕ)
create_operational_otp_record o k ty = do ensure_generation_allowed o k ty; renew_by_sms o k ty

-- `verifyOtp` after it has read the active code.
unfoldable pub check_otp : OtpOutside → DeliveryOtp → String → Db (Unit {0})
check_otp o r guess = do
  throw_if (is_some r.consumed_at) (app_error otp_invalid 422)
  throw_if (ltb r.expires_at o.now) (app_error otp_expired 422)
  throw_if (leb r.max_attempts r.attempts) (app_error otp_locked 422)
  if o.verify_otp_hash guess r.code_hash
      then (do
        consumed ← consume r.id o.now
        throw_if (not (is_some consumed)) (app_error otp_invalid 422))
      else (do
        updated ← increment_attempts r.id
        throw (
            app_error
              (if leb updated.max_attempts updated.attempts then otp_locked else otp_invalid) 422))

unfoldable pub verify_otp : OtpOutside → ℕ → DeliveryOtpType → String → Db (Unit {0})
verify_otp o k ty guess = do
  found ← read (find_active k ty)
  r ← or_throw found (app_error otp_not_found 422)
  o.pause
  check_otp o r guess

-- The moves that the handlers ask for.
abbrev pub to_pickup_otp_pending : ℕ → Transition
to_pickup_otp_pending k = record {
  delivery_id = k;
  expected_from_statuses = driver_assigned ∷ booked ∷ [];
  to_status = pickup_otp_pending;
  source = otp;
}

abbrev pub to_picked_up : ℕ → Transition
to_picked_up k = record {
  delivery_id = k;
  expected_from_statuses = pickup_otp_pending ∷ [];
  to_status = picked_up;
  source = otp;
}

abbrev pub to_delivery_otp_pending : ℕ → Transition
to_delivery_otp_pending k = record {
  delivery_id = k;
  expected_from_statuses = in_transit ∷ [];
  to_status = delivery_otp_pending;
  source = otp;
}

abbrev pub to_delivered : ℕ → Transition
to_delivered k = record {
  delivery_id = k;
  expected_from_statuses = delivery_otp_pending ∷ [];
  to_status = delivered;
  source = otp;
}

unfoldable pub generate_pickup_otp : OtpOutside → OtpRequest → Db ℕ
generate_pickup_otp o input = do
  d ← load_delivery input.delivery_id input.user_id input.role
  throw_if (not (includes pickup_generation_statuses d.status)) (app_error otp_not_allowed 422)
  o.pause
  sent ← create_operational_otp_record o input.delivery_id pickup
  o.pause
  if same_status d.status driver_assigned || same_status d.status booked
      then transition true d.status (to_pickup_otp_pending input.delivery_id) >> answer (sent.1)
      else answer (sent.1)

unfoldable pub verify_pickup_otp : OtpOutside → OtpRequest → String → Db DeliveryStatus
verify_pickup_otp o input guess = do
  d ← load_delivery input.delivery_id input.user_id input.role
  throw_if (not (includes (pickup_otp_pending ∷ []) d.status)) (app_error otp_not_allowed 422)
  o.pause
  verify_otp o input.delivery_id pickup guess
  o.pause
  transition true d.status (to_picked_up input.delivery_id)
  answer picked_up

unfoldable pub generate_delivery_otp : OtpOutside → OtpRequest → Db ℕ
generate_delivery_otp o input = do
  d ← load_delivery input.delivery_id input.user_id input.role
  throw_if (not (includes delivery_generation_statuses d.status)) (app_error otp_not_allowed 422)
  o.pause
  sent ← create_operational_otp_record o input.delivery_id delivery
  o.pause
  if same_status d.status in_transit
      then transition true d.status (to_delivery_otp_pending input.delivery_id) >> answer (sent.1)
      else answer (sent.1)

unfoldable pub verify_delivery_otp : OtpOutside → OtpRequest → String → Db DeliveryStatus
verify_delivery_otp o input guess = do
  d ← load_delivery input.delivery_id input.user_id input.role
  throw_if (not (includes (delivery_otp_pending ∷ []) d.status)) (app_error otp_not_allowed 422)
  o.pause
  verify_otp o input.delivery_id delivery guess
  o.pause
  transition true d.status (to_delivered input.delivery_id)
  answer delivered
