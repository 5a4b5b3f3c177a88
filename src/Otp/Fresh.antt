-- ===== src/Otp/Fresh.antt =====
-- A new code retires the ones before it: `createOperationalOtpRecord` of
-- src/modules/otp/otp.service.ts.
use doot_backend.Base.{ℕ, ◌≡◌, some}
use doot_backend.Delivery.Tables.{DeliveryOtpType}
use doot_backend.Otp.{find_active, otp_row}
use doot_backend.Otp.Service.{OtpOutside, new_otp}
use doot_backend.Payment.Store.{Store}

abbrev IsNewest : OtpOutside → ℕ → DeliveryOtpType → Store → Type 0
IsNewest o k ty t = find_active k ty t ≡ some (otp_row o.otp_id o.now (new_otp o k ty))
