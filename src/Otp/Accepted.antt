-- ===== src/Otp/Accepted.antt =====
-- What it takes to have a pickup or a handover confirmed: `verifyPickupOtp` and `verifyDeliveryOtp` of
-- src/modules/otp/otp.service.ts.
use doot_backend.Base.{ℕ, ◌≤◌, ◌<◌, ◌≡◌, sym, true, not, some, String, [], ◌∷◌, arith}
use doot_backend.Delivery.{
  DeliveryStatus, picked_up, delivered, pickup_otp_pending, delivery_otp_pending, DeliveryRow,
  includes, load_authorized_delivery,
}
use doot_backend.Delivery.Lifecycle.{load_delivery, transition}
use doot_backend.Delivery.Tables.{DeliveryOtpType, pickup, delivery, DeliveryOtp}
use doot_backend.Otp.{find_active}
use doot_backend.Otp.Service.{
  OtpOutside, OtpRequest, to_picked_up, to_delivered, check_otp, verify_otp, verify_pickup_otp,
  verify_delivery_otp,
}
use doot_backend.Payment.Store.{
  Store, app_error, otp_not_found, otp_not_allowed, delivery_not_found, Db, ok, answer, or_throw,
  ◌>>◌, throw_if, >>=-inv, or_throw-inv, throw_if-inv,
}

-- The handler that verifies a code of the type.
abbrev pub verify_by : DeliveryOtpType → OtpOutside → OtpRequest → String → Db DeliveryStatus
verify_by pickup = verify_pickup_otp
verify_by delivery = verify_delivery_otp

-- The code matches, lasts and is not locked.
pub record IsRight (o : OtpOutside) (r : DeliveryOtp) (guess : String) : Type 0 where
  pub matches : o.verify_otp_hash guess r.code_hash ≡ true
  pub lasting : o.now ≤ r.expires_at
  pub room : r.attempts < r.max_attempts

check_otp-IsRight :
    (o : OtpOutside) (r : DeliveryOtp) (guess : String) (s t : Store)
    → check_otp o r guess s ≡ (ok tt, t)
    → IsRight o r guess
unfolding check_otp
check_otp-IsRight o r guess s t h = record {
  matches = ground (arith, h);
  lasting = ground (arith, h);
  room = ground (arith, h);
}

module _ (o : OtpOutside) (idle : (s : Store) → o.pause s ≡ (ok tt, s)) where
  -- After a pause in which nothing is committed the store is as it was.
  idle-inv :
      {A : Type 0} (m : Db A) (s t : Store) (a : A) → (o.pause >> m) s ≡ (ok a, t) → m s ≡ (ok a, t)
  idle-inv m s t a h =
      let (_, u, paused, rest) = >>=-inv o.pause (λ _. m) s t a h in
      let same : u ≡ s = cc (paused, idle s) in rw (sym same) rest

  verify_otp-IsRight :
      (k : ℕ) (ty : DeliveryOtpType) (guess : String) (s t : Store)
      → verify_otp o k ty guess s ≡ (ok tt, t)
      → (r : DeliveryOtp) × (find_active k ty s ≡ some r) × IsRight o r guess
  unfolding verify_otp
  verify_otp-IsRight k ty guess s t h =
      let (r, u, found, rest) =
        >>=-inv (or_throw (find_active k ty s) (app_error otp_not_found 422))
          (λ r. o.pause >> check_otp o r guess) s t tt h in
      let (active, same) =
        or_throw-inv (find_active k ty s) (app_error otp_not_found 422) r s u found in
      (r, active, check_otp-IsRight o r guess u t (idle-inv (check_otp o r guess) u t tt rest))

  -- Both handlers check the status, verify the code, and then move the delivery.
  handler-IsRight :
      (k : ℕ) (ty : DeliveryOtpType) (guess : String) (d : DeliveryRow) (wanted : DeliveryStatus)
      (after : Db DeliveryStatus) (s t : Store) (a : DeliveryStatus)
      → (throw_if (not (includes (wanted ∷ []) d.status)) (app_error otp_not_allowed 422)
            >> (o.pause >> (verify_otp o k ty guess >> after)))
          s
        ≡ (ok a, t)
      → (r : DeliveryOtp) × (find_active k ty s ≡ some r) × IsRight o r guess
  handler-IsRight k ty guess d wanted after s t a h =
      let refused = app_error otp_not_allowed 422 in
      let (_, u, allowed, rest) =
        >>=-inv (throw_if (not (includes (wanted ∷ []) d.status)) refused)
          (λ _. o.pause >> (verify_otp o k ty guess >> after)) s t a h in
      let (_, same) = throw_if-inv (not (includes (wanted ∷ []) d.status)) refused s u allowed in
      let (_, v, verified, _) =
        >>=-inv (verify_otp o k ty guess) (λ _. after) u t a
          (idle-inv (verify_otp o k ty guess >> after) u t a rest) in
      rw same (verify_otp-IsRight k ty guess u v verified)

  verified :
      (ty : DeliveryOtpType) (input : OtpRequest) (guess : String) (s t : Store)
      (status : DeliveryStatus)
      → verify_by ty o input guess s ≡ (ok status, t)
      → (r : DeliveryOtp) × (find_active input.delivery_id ty s ≡ some r) × IsRight o r guess
  unfolding verify_pickup_otp verify_delivery_otp load_delivery
  verified pickup input guess s t status h =
      let k = input.delivery_id in
      let found =
        load_authorized_delivery s.delivery_tables.deliveries k input.user_id input.role in
      let after = λ (d : DeliveryRow).
        o.pause >> (transition true d.status (to_picked_up k) >> answer picked_up) in
      let (d, u, loaded, rest) =
        >>=-inv (or_throw found (app_error delivery_not_found 404))
          (λ d.
            throw_if (not (includes (pickup_otp_pending ∷ []) d.status))
              (app_error otp_not_allowed 422)
            >> (o.pause >> (verify_otp o k pickup guess >> after d)))
          s t status h in
      let (_, same) = or_throw-inv found (app_error delivery_not_found 404) d s u loaded in
      rw same (handler-IsRight k pickup guess d pickup_otp_pending (after d) u t status rest)
  verified delivery input guess s t status h =
      let k = input.delivery_id in
      let found =
        load_authorized_delivery s.delivery_tables.deliveries k input.user_id input.role in
      let after = λ (d : DeliveryRow).
        o.pause >> (transition true d.status (to_delivered k) >> answer delivered) in
      let (d, u, loaded, rest) =
        >>=-inv (or_throw found (app_error delivery_not_found 404))
          (λ d.
            throw_if (not (includes (delivery_otp_pending ∷ []) d.status))
              (app_error otp_not_allowed 422)
            >> (o.pause >> (verify_otp o k delivery guess >> after d)))
          s t status h in
      let (_, same) = or_throw-inv found (app_error delivery_not_found 404) d s u loaded in
      rw same (handler-IsRight k delivery guess d delivery_otp_pending (after d) u t status rest)

-- Where nothing else is committed during the request, a pickup or a handover is confirmed only for a
-- guess that matches the hash of the delivery's active code of the type, before the code expires and
-- while it has attempts left.
pub verify_by-IsRight :
    (o : OtpOutside) (ty : DeliveryOtpType) (input : OtpRequest) (guess : String) (s t : Store)
    (status : DeliveryStatus)
    → ((u : Store) → o.pause u ≡ (ok tt, u))
    → verify_by ty o input guess s ≡ (ok status, t)
    → (r : DeliveryOtp) × (find_active input.delivery_id ty s ≡ some r) × IsRight o r guess
verify_by-IsRight o ty input guess s t status idle h = verified o idle ty input guess s t status h
