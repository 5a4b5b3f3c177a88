-- ===== src/Otp/Lock.antt =====
-- Wrong guesses lock a code: `verifyOtp` of src/modules/otp/otp.service.ts, request after request.
use mathlib.Core.Path.{subst}
use doot_backend.Base.{
  ℕ, ◌+◌, ◌≤◌, ◌<◌, ◌≡◌, refl, sym, ap, ◌∙◌, inl, inr, true, false, some, is_some, String, List, [],
  ◌∷◌, arith, ltb, leb, if◌then◌else◌, Bool-cases, length,
}
use doot_backend.Base.Table.{update, find-update}
use doot_backend.Delivery.Tables.{DeliveryOtpType, DeliveryOtp}
use doot_backend.Otp.{otp_id_of, find_active, find_otp, tried, increment_attempts}
use doot_backend.Otp.Service.{OtpOutside, check_otp, verify_otp}
use doot_backend.Otp.Guesses.{newest-is_active, newest-tried}
use doot_backend.Payment.Store.{
  Store, Failure, throw, app_error, otp_invalid, otp_locked, ok, err, >>=-ok,
}

-- Requests that verify one guess after the other, whatever they answer.
abbrev pub try_all : OtpOutside → ℕ → DeliveryOtpType → List String → Store → Store
try_all o k ty [] s = s
try_all o k ty (guess ∷ rest) s = try_all o k ty rest (verify_otp o k ty guess s).1

-- No guess of the list is the hashed code.
abbrev pub AllWrong : OtpOutside → String → List String → Type 0
AllWrong o hash [] = Unit
AllWrong o hash (guess ∷ rest) = (o.verify_otp_hash guess hash ≡ false) × AllWrong o hash rest

-- The row is the active code of the delivery, found under its id, and not expired.
pub record IsOpen (o : OtpOutside) (k : ℕ) (ty : DeliveryOtpType) (r : DeliveryOtp) (s : Store)
    : Type 0 where
  pub active : find_active k ty s ≡ some r
  pub stored : find_otp r.id s ≡ some r
  pub lasting : o.now ≤ r.expires_at

-- The store after a counted guess.
abbrev counted : DeliveryOtp → Store → Store
counted r s = record s {
  delivery_tables = record s.delivery_tables {
    otps = update otp_id_of r.id tried s.delivery_tables.otps;
  };
}

abbrev refusal : DeliveryOtp → Failure
refusal u = app_error (if leb u.max_attempts u.attempts then otp_locked else otp_invalid) 422

found-counted :
    (r x : DeliveryOtp) (s : Store)
    → find_otp r.id s ≡ some x
    → find_otp r.id (counted r s) ≡ some (tried x)
unfolding find_otp
found-counted r x s stored =
    let step = find-update otp_id_of r.id r.id tried s.delivery_tables.otps (λ y. refl) in
    ground (arith, step, stored)

increment-counted :
    (r x : DeliveryOtp) (s : Store)
    → find_otp r.id s ≡ some x
    → increment_attempts r.id s ≡ (ok (tried x), counted r s)
unfolding increment_attempts
increment-counted r x s stored = rw (found-counted r x s stored) refl

-- The row, as a request has read it, passes the tests before the hash is compared.
pub record IsTriable (o : OtpOutside) (r : DeliveryOtp) : Type 0 where
  pub fresh : is_some r.consumed_at ≡ false
  pub lasting : o.now ≤ r.expires_at
  pub room : r.attempts < r.max_attempts

-- A wrong guess is counted on the row as it is stored, `x`, whatever was read.
check-wrong :
    (o : OtpOutside) (r x : DeliveryOtp) (guess : String) (s : Store)
    → IsTriable o r
    → find_otp r.id s ≡ some x
    → o.verify_otp_hash guess r.code_hash ≡ false
    → (check_otp o r guess s).1 ≡ counted r s
unfolding check_otp
check-wrong o r x guess s v stored wrong =
    let lasting : ltb r.expires_at o.now ≡ false = ground (arith, v.lasting) in
    let below : leb r.max_attempts r.attempts ≡ false = ground (arith, v.room) in
    rw (v.fresh, lasting, below, wrong)
      (ap (λ y. y.1)
        (>>=-ok (increment_attempts r.id) (λ u. throw {A = Unit} (refusal u)) s (counted r s)
          (tried x) (increment-counted r x s stored)))

module _ (o : OtpOutside) (idle : (s : Store) → o.pause s ≡ (ok tt, s)) (k : ℕ)
    (ty : DeliveryOtpType) where
  not_consumed : (r : DeliveryOtp) (s : Store) → IsOpen o k ty r s → is_some r.consumed_at ≡ false
  unfolding find_active
  not_consumed r s v =
      let active = newest-is_active k ty s.delivery_tables.otps r v.active in ground (arith, active)

  verify_otp-found :
      (r : DeliveryOtp) (guess : String) (s : Store)
      → find_active k ty s ≡ some r
      → verify_otp o k ty guess s ≡ check_otp o r guess s
  unfolding verify_otp
  verify_otp-found r guess s active =
      rw active (>>=-ok o.pause (λ _. check_otp o r guess) s s tt (idle s))

  -- At its limit a code is refused, whatever the guess, and nothing is written.
  verify-locked :
      (r : DeliveryOtp) (guess : String) (s : Store)
      → IsOpen o k ty r s
      → r.max_attempts ≤ r.attempts
      → verify_otp o k ty guess s ≡ (err (app_error otp_locked 422), s)
  unfolding check_otp
  verify-locked r guess s v full =
      let fresh = not_consumed r s v in
      let lasting : ltb r.expires_at o.now ≡ false = ground (arith, v.lasting) in
      let at_limit : leb r.max_attempts r.attempts ≡ true = ground (arith, full) in
      verify_otp-found r guess s v.active ∙ rw (fresh, lasting, at_limit) refl

  -- Below its limit a wrong guess is counted.
  check-tried :
      (r : DeliveryOtp) (guess : String) (s : Store)
      → IsOpen o k ty r s
      → r.attempts < r.max_attempts
      → o.verify_otp_hash guess r.code_hash ≡ false
      → IsOpen o k ty (tried r) (check_otp o r guess s).1
  unfolding find_active find_otp
  check-tried r guess s v room wrong =
      let triable : IsTriable o r = record {
        fresh = not_consumed r s v;
        lasting = v.lasting;
        room = room;
      } in
      subst (IsOpen o k ty (tried r)) (sym (check-wrong o r r guess s triable v.stored wrong))
        (record {
          active = newest-tried k ty s.delivery_tables.otps r v.active v.stored;
          stored = found-counted r r s v.stored;
          lasting = v.lasting;
        })

  try_all-locks :
      (r : DeliveryOtp) (guesses : List String) (s : Store)
      → IsOpen o k ty r s
      → AllWrong o r.code_hash guesses
      → r.max_attempts ≤ r.attempts + length guesses
      → (guess : String)
      → (verify_otp o k ty guess (try_all o k ty guesses s)).0 ≡ err (app_error otp_locked 422)
  try_all-locks r [] s v wrong full guess = rw (verify-locked r guess s v (omega arith)) refl
  try_all-locks r (g ∷ gs) s v wrong full guess =
      elim (Bool-cases (leb r.max_attempts r.attempts)) [
        | inl at_limit ↦
            rw (verify-locked r g s v (ground (arith, at_limit)))
              (try_all-locks r gs s v wrong.1 (ground (arith, at_limit)) guess)
        | inr below ↦ rw (verify_otp-found r g s v.active) (
            try_all-locks (tried r) gs (check_otp o r g s).1
              (check-tried r g s v (ground (arith, below)) wrong.0) wrong.1 (omega arith) guess)
      ]

-- Where nothing else is committed during the requests, as many wrong guesses as an open code has
-- attempts left, or more, lock it: the next guess, even the right one, is refused with OTP_LOCKED.
pub verify_otp-locks :
    (o : OtpOutside) (k : ℕ) (ty : DeliveryOtpType) (r : DeliveryOtp) (guesses : List String)
    (guess : String) (s : Store)
    → ((t : Store) → o.pause t ≡ (ok tt, t))
    → IsOpen o k ty r s
    → AllWrong o r.code_hash guesses
    → r.max_attempts ≤ r.attempts + length guesses
    → (verify_otp o k ty guess (try_all o k ty guesses s)).0 ≡ err (app_error otp_locked 422)
verify_otp-locks o k ty r guesses guess s idle v wrong full =
    try_all-locks o idle k ty r guesses s v wrong full guess

-- Requests that have all read the same row, and check one guess after the other.
abbrev pub check_all : OtpOutside → DeliveryOtp → List String → Store → Store
check_all o r [] s = s
check_all o r (guess ∷ rest) s = check_all o r rest (check_otp o r guess s).1

-- Requests that have read a row while it could still be tried are not held to its limit: where they
-- check wrong guesses one after the other, each is counted as an attempt, however many they are.
pub check_all-counts :
    (o : OtpOutside) (r x : DeliveryOtp) (guesses : List String) (s : Store)
    → IsTriable o r
    → find_otp r.id s ≡ some x
    → AllWrong o r.code_hash guesses
    → (y : DeliveryOtp) × (find_otp r.id (check_all o r guesses s) ≡ some y)
      × (y.attempts ≡ x.attempts + length guesses)
check_all-counts o r x [] s v stored wrong = (x, stored, omega arith)
check_all-counts o r x (g ∷ gs) s v stored wrong =
    let (y, found, count) =
      check_all-counts o r (tried x) gs (counted r s) v (found-counted r x s stored) wrong.1 in
    rw (check-wrong o r x g s v stored wrong.0) ((y, found, omega arith))
