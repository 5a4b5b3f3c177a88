-- ===== src/Otp.antt =====
-- The one-time codes of a delivery: their table, src/modules/otp/otp.repository.ts, and how the
-- failure of a text message is read, src/infrastructure/sms/sms-outcome.ts.
pub mod Service
pub mod Steps
pub mod Guesses
pub mod Accepted
pub mod Lock
pub mod Fresh
mod Tests
use doot_backend.Base.{
  ℕ, ◌+◌, Bool, true, false, not, ◌&&◌, Option, none, some, is_some, String, List, [], ◌∷◌, ltb,
  ◌==◌, if◌then◌else◌,
}
use doot_backend.Base.Table.{find, update}
use text.Mathlib.Text.{◌==◌ as str_eq}
use doot_backend.Delivery.Tables.{DeliveryOtpType, pickup, delivery, DeliveryOtp}
use doot_backend.Delivery.Lifecycle.{write_tables}
use doot_backend.Payment.Store.{
  Store, Failure, app_error, sms_not_configured, sms_delivery_failed, row_missing, Db, answer, read,
  or_throw, ◌>>=◌, ◌>>◌,
}

abbrev pub otp_id_of : DeliveryOtp → ℕ
otp_id_of o = o.id

abbrev pub same_type : DeliveryOtpType → DeliveryOtpType → Bool
same_type pickup pickup = true
same_type delivery delivery = true
same_type _ _ = false

-- `where: { deliveryId, type, consumedAt: null }`
abbrev pub is_active : ℕ → DeliveryOtpType → DeliveryOtp → Bool
is_active k ty o = o.delivery_id == k && same_type o.otp_type ty && not (is_some o.consumed_at)

-- The later created of two; a tie keeps the one that stands first.
abbrev newer : DeliveryOtp → Option DeliveryOtp → DeliveryOtp
newer a none = a
newer a (some b) = if ltb a.created_at b.created_at then b else a

abbrev pub newest_active : ℕ → DeliveryOtpType → List DeliveryOtp → Option DeliveryOtp
newest_active k ty [] = none
newest_active k ty (o ∷ os) =
    let rest = newest_active k ty os in if is_active k ty o then some (newer o rest) else rest

unfoldable pub find_active : ℕ → DeliveryOtpType → Store → Option DeliveryOtp
find_active k ty s = newest_active k ty s.delivery_tables.otps

unfoldable pub find_otp : ℕ → Store → Option DeliveryOtp
find_otp k s = find otp_id_of k s.delivery_tables.otps

-- The input of `create`.
pub record NewOtp : Type 0 where
  pub delivery_id : ℕ
  pub otp_type : DeliveryOtpType
  pub code_hash : String
  pub expires_at : ℕ
  pub max_attempts : ℕ

abbrev pub otp_row : ℕ → ℕ → NewOtp → DeliveryOtp
otp_row k now input = record {
  id = k;
  delivery_id = input.delivery_id;
  otp_type = input.otp_type;
  code_hash = input.code_hash;
  expires_at = input.expires_at;
  attempts = 0;
  max_attempts = input.max_attempts;
  consumed_at = none;
  created_at = now;
}

-- `create`, under the id that the database draws.
unfoldable pub create : ℕ → ℕ → NewOtp → Db DeliveryOtp
create k now input = do
  write_tables (λ t. record t { otps = otp_row k now input ∷ t.otps })
  answer (otp_row k now input)

abbrev pub tried : DeliveryOtp → DeliveryOtp
tried o = record o { attempts = o.attempts + 1 }

unfoldable pub increment_attempts : ℕ → Db DeliveryOtp
unfolding find_otp
increment_attempts k = do
  write_tables (λ t. record t { otps = update otp_id_of k tried t.otps })
  found ← read (find_otp k)
  or_throw found row_missing

abbrev pub used_at : ℕ → DeliveryOtp → DeliveryOtp
used_at now o = if is_some o.consumed_at then o else record o { consumed_at = some now }

-- Whether `updateMany` updates the row: it stands, and is not consumed.
abbrev pub is_unused : Option DeliveryOtp → Bool
is_unused none = false
is_unused (some o) = not (is_some o.consumed_at)

unfoldable pub consume : ℕ → ℕ → Db (Option DeliveryOtp)
unfolding find_otp
consume k now = do
  fresh ← read (λ s. is_unused (find_otp k s))
  write_tables (λ t. record t { otps = update otp_id_of k (used_at now) t.otps })
  if fresh then read (find_otp k) else answer none

abbrev pub retire : ℕ → ℕ → DeliveryOtpType → List DeliveryOtp → List DeliveryOtp
retire now k ty [] = []
retire now k ty (o ∷ os) =
    let rest = retire now k ty os in
    if is_active k ty o then record o { consumed_at = some now } ∷ rest else o ∷ rest

unfoldable pub invalidate_active : ℕ → ℕ → DeliveryOtpType → Db (Unit {0})
invalidate_active now k ty = write_tables (λ t. record t { otps = retire now k ty t.otps })

-- `SMS_SEND_OUTCOMES`
pub data SmsSendOutcome : Type 0 where
  accepted failed timeout unknown : SmsSendOutcome

-- What the sender throws: an error, with the text under `cause.smsOutcome` if there is one.
pub record SmsError : Type 0 where
  pub failure : Failure
  pub sms_outcome : Option String

unfoldable pub parse_sms_send_outcome : Option String → SmsSendOutcome
parse_sms_send_outcome none = unknown
parse_sms_send_outcome (some value) =
    if str_eq value "ACCEPTED"
    then accepted
    else if str_eq value "FAILED"
    then failed
    else if str_eq value "TIMEOUT"
    then timeout
    else unknown

unfoldable pub should_invalidate_otp_after_sms_failure : SmsSendOutcome → Bool
should_invalidate_otp_after_sms_failure failed = true
should_invalidate_otp_after_sms_failure _ = false

unfoldable pub read_sms_outcome_from_error : SmsError → SmsSendOutcome
read_sms_outcome_from_error e = elim (e.failure) [
  | app_error sms_not_configured _ ↦ failed
  | app_error sms_delivery_failed _ ↦ parse_sms_send_outcome e.sms_outcome
  | _ ↦ unknown
]
