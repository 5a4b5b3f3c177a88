-- ===== src/Otp/Guesses.antt =====
-- Guessing a code, and using it twice: `verifyOtp` of src/modules/otp/otp.service.ts on the rows of
-- src/modules/otp/otp.repository.ts.
use mathlib.Core.Path.{subst}
use doot_backend.Base.{
  ℕ, ◌≡◌, refl, ◌≢◌, inl, inr, true, false, none, some, String, List, [], ◌∷◌, arith, ◌==◌,
  Bool-cases, Option-cases,
}
use doot_backend.Base.Table.{find, update}
use doot_backend.Delivery.Tables.{DeliveryOtpType, DeliveryOtp}
use doot_backend.Otp.{
  otp_id_of, is_active, newest_active, find_otp, tried, used_at, is_unused, consume,
}
use doot_backend.Otp.Service.{OtpOutside, check_otp}
use doot_backend.Payment.Store.{Store, ok}

used_at-unused :
    (now k : ℕ) (xs : List DeliveryOtp)
    → is_unused (find otp_id_of k (update otp_id_of k (used_at now) xs)) ≡ false
used_at-unused now k [] = refl
used_at-unused now k (x ∷ xs) = ground (arith, used_at-unused now k xs)

consume-unused : (k now : ℕ) (s : Store) → is_unused (find_otp k (consume k now s).1) ≡ false
unfolding consume find_otp
consume-unused k now s =
    let used = used_at-unused now k s.delivery_tables.otps in
    elim (Bool-cases (is_unused (find otp_id_of k s.delivery_tables.otps))) [
      | inl fresh ↦ rw fresh used
      | inr spent ↦ rw spent used
    ]

consume-none :
    (k now : ℕ) (s : Store) → is_unused (find_otp k s) ≡ false → (consume k now s).0 ≡ ok none
unfolding consume find_otp
consume-none k now s spent = rw spent refl

-- A check that accepts has consumed the row.
check_otp-consumes :
    (o : OtpOutside) (r : DeliveryOtp) (guess : String) (s t : Store)
    → check_otp o r guess s ≡ (ok tt, t)
    → t ≡ (consume r.id o.now s).1
unfolding check_otp
check_otp-consumes o r guess s t h = ground (arith, h)

check_otp-spent :
    (o : OtpOutside) (r : DeliveryOtp) (guess : String) (s t : Store)
    → is_unused (find_otp r.id s) ≡ false
    → check_otp o r guess s ≢ (ok tt, t)
unfolding check_otp
check_otp-spent o r guess s t spent h = ground (arith, h, consume-none r.id o.now s spent)

-- A code is accepted once: after a check has accepted it, the next check of the same row accepts
-- nothing, with the same guess or another, even when it had read the row before it was consumed.
pub check_otp-once :
    (o o' : OtpOutside) (r r' : DeliveryOtp) (guess guess' : String) (s t u : Store)
    → check_otp o r guess s ≡ (ok tt, t)
    → r'.id ≡ r.id
    → check_otp o' r' guess' t ≢ (ok tt, u)
check_otp-once o o' r r' guess guess' s t u accepted same =
    let spent : is_unused (find_otp r'.id t) ≡ false =
      rw (same, check_otp-consumes o r guess s t accepted) (consume-unused r.id o.now s) in
    check_otp-spent o' r' guess' t u spent

pub newest-is_active :
    (k : ℕ) (ty : DeliveryOtpType) (xs : List DeliveryOtp) (r : DeliveryOtp)
    → newest_active k ty xs ≡ some r
    → is_active k ty r ≡ true
newest-is_active k ty [] r h = cc h
newest-is_active k ty (x ∷ xs) r h = ground (arith, h, newest-is_active k ty xs r)

newest-tried_head :
    (k : ℕ) (ty : DeliveryOtpType) (xs : List DeliveryOtp) (r : DeliveryOtp)
    → newest_active k ty (r ∷ xs) ≡ some r
    → newest_active k ty (tried r ∷ xs) ≡ some (tried r)
newest-tried_head k ty xs r h =
    let active = newest-is_active k ty (r ∷ xs) r h in
    elim (Option-cases (newest_active k ty xs)) [
      | inl empty ↦ ground (arith, active, empty)
      | inr (b, rest) ↦ ground (arith, active, rest, h)
    ]

newest-tried_tail :
    (k : ℕ) (ty : DeliveryOtpType) (x : DeliveryOtp) (xs ys : List DeliveryOtp) (r : DeliveryOtp)
    → x.id ≢ r.id
    → newest_active k ty (x ∷ xs) ≡ some r
    → (newest_active k ty xs ≡ some r → newest_active k ty ys ≡ some (tried r))
    → newest_active k ty (x ∷ ys) ≡ some (tried r)
newest-tried_tail k ty x xs ys r differs h step = elim (Option-cases (newest_active k ty xs)) [
  | inl empty ↦ ground (arith, empty, h)
  | inr (b, rest) ↦ ground (arith, rest, h, step)
]

pub newest-tried :
    (k : ℕ) (ty : DeliveryOtpType) (xs : List DeliveryOtp) (r : DeliveryOtp)
    → newest_active k ty xs ≡ some r
    → find otp_id_of r.id xs ≡ some r
    → newest_active k ty (update otp_id_of r.id tried xs) ≡ some (tried r)
newest-tried k ty [] r h f = cc h
newest-tried k ty (x ∷ xs) r h f = elim (Bool-cases (x.id == r.id)) [
  | inl same ↦
      let own : x ≡ r = ground (arith, same, f) in
      rw same (
        rw own
          (newest-tried_head k ty xs r (subst (λ y. newest_active k ty (y ∷ xs) ≡ some r) own h)))
  | inr differs ↦ rw differs (
      newest-tried_tail k ty x xs (update otp_id_of r.id tried xs) r (ground (arith, differs)) h
        (λ rest. newest-tried k ty xs r rest (ground (arith, differs, f))))
]
