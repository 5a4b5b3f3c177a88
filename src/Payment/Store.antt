-- ===== src/Payment/Store.antt =====
-- The tables of the database, and calls that read and write them and may throw.
pub use doot_backend.Errors.{
  ErrorCode, idempotency_conflict, payment_not_allowed, forbidden, payment_already_exists,
  internal_error, payment_not_found, payment_invalid_transition, payment_invalid_amount,
  refund_not_allowed, payment_gateway_error, refund_exceeds_paid, refund_not_found,
  refund_invalid_transition, payment_gateway_not_configured, delivery_not_found, webhook_malformed,
  payment_gateway_mismatch, delivery_invalid_transition, otp_not_allowed, otp_not_found,
  otp_invalid, otp_expired, otp_locked, otp_generation_cooldown, sms_not_configured,
  sms_delivery_failed, orchestration_in_progress, orchestration_failed,
  delivery_not_ready_for_orchestration, orchestration_not_found, booking_in_progress,
  booking_not_found, booking_not_allowed, booking_failed, booking_unknown,
  provider_booking_reconciliation_required, payment_required, cancellation_in_progress,
  cancellation_not_allowed, cancellation_unknown, provider_booking_unknown,
  provider_booking_rejected, provider_booking_unavailable, provider_operation_unavailable,
  provider_cancellation_rejected,
}
use doot_backend.Base.{ℕ, ◌≡◌, refl, ap, Bool, true, false, Option, none, some, List, if◌then◌else◌}
use doot_backend.Delivery.Tables.{DeliveryTables}
use doot_backend.Payment.Types.{Payment, Attempt, Refund, LedgerEntry, CreateKey}

pub record Store : Type 0 where
  pub payments : List Payment
  pub attempts : List Attempt
  pub refunds : List Refund
  pub ledger : List LedgerEntry
  pub create_keys : List CreateKey
  pub delivery_tables : DeliveryTables

-- The unique columns of the payment tables.
pub data UniqueColumn : Type 0 where
  primary_key delivery_id gateway_order_id attempt_number refund_idempotency_key
        ledger_idempotency_key create_key correlation_reference cancellation_key :
      UniqueColumn

-- What a call may throw: an `AppError` (src/core/errors/app-error.ts) by its code and HTTP status,
-- the database's error P2002 on a unique column or P2025 on a missing row, or any other error.
pub data Failure : Type 0 where
  app_error : ErrorCode → ℕ → Failure
  unique_violation : UniqueColumn → Failure
  row_missing : Failure
  other_error : Failure

pub data Result (A : Type 0) : Type 0 where
  ok : A → Result A
  err : Failure → Result A

-- A call on the store. What was written before a throw stays, unless a transaction undoes it.
abbrev pub Db : Type 0 → Type 0
Db A = Store → Result A × Store

module _ {A : Type 0} where
  abbrev pub answer : A → Db A
  answer a s = (ok a, s)

  abbrev pub throw : Failure → Db A
  throw e s = (err e, s)

  abbrev pub read : (Store → A) → Db A
  read f s = (ok (f s), s)

  -- `if (!o) throw e`
  abbrev pub or_throw : Option A → Failure → Db A
  or_throw none e s = (err e, s)
  or_throw (some a) e s = (ok a, s)

  -- `try { m } catch (e) { handler(e) }`
  abbrev pub catching : Db A → (Failure → Db A) → Db A
  catching m handler s = let (r, t) = m s in elim r [ ok a ↦ (ok a, t) | err e ↦ handler e t ]

  -- A transaction is undone when it throws. Each is one atomic step of the model.
  abbrev pub with_transaction : Db A → Db A
  with_transaction m s = let (r, t) = m s in elim r [ ok a ↦ (ok a, t) | err e ↦ (err e, s) ]

infixl 5 ◌>>=◌ ◌>>◌
abbrev pub ◌>>=◌ : {A B : Type 0} → Db A → (A → Db B) → Db B
◌>>=◌ m f s = let (r, t) = m s in elim r [ ok a ↦ f a t | err e ↦ (err e, t) ]

abbrev pub ◌>>◌ : {A B : Type 0} → Db A → Db B → Db B
m >> k = m >>= λ _. k

-- `if (b) throw e`
abbrev pub throw_if : Bool → Failure → Db (Unit {0})
throw_if b e s = (if b then err e else ok tt, s)

-- What follows a call that answers.
pub >>=-ok :
    {A B : Type 0}
    → (m : Db A) (f : A → Db B) (s t : Store) (a : A) → m s ≡ (ok a, t)
    → (m >>= f) s ≡ f a t
>>=-ok {A} {B} m f s t a e =
    ap
      (λ x.
        let (r, u) = x in elim r as (λ _. Result B × Store) [ ok b ↦ f b u | err e' ↦ (err e', u) ])
      e

-- A chain that answers went through its first call.
pub >>=-inv :
    {A B : Type 0}
    → (m : Db A) (f : A → Db B) (s u : Store) (b : B) → (m >>= f) s ≡ (ok b, u)
    → (a : A) × (t : Store) × (m s ≡ (ok a, t)) × (f a t ≡ (ok b, u))
>>=-inv {A} {B} m f s u b e = go (m s) refl e
  where
    go :
        (x : Result A × Store)
        → m s ≡ x
        → (let (r, t) = x in
            elim r as (λ _. Result B × Store) [ ok a ↦ f a t | err e' ↦ (err e', t) ])
          ≡ (ok b, u)
        → (a : A) × (t : Store) × (m s ≡ (ok a, t)) × (f a t ≡ (ok b, u))
    go (ok a, t) h k = (a, t, h, k)
    go (err e', t) h k = cc k

pub answer-inv : {A : Type 0} → (a b : A) (s t : Store) → answer a s ≡ (ok b, t) → (a ≡ b) × (s ≡ t)
answer-inv a b s t e = (cc e, cc e)

pub or_throw-inv :
    {A : Type 0}
    → (o : Option A) (e : Failure) (b : A) (s t : Store) → or_throw o e s ≡ (ok b, t)
    → (o ≡ some b) × (s ≡ t)
or_throw-inv none e b s t h = cc h
or_throw-inv (some a) e b s t h = (cc h, cc h)

pub throw_if-inv :
    (b : Bool) (e : Failure) (s t : Store) → throw_if b e s ≡ (ok tt, t) → (b ≡ false) × (s ≡ t)
throw_if-inv true e s t h = cc h
throw_if-inv false e s t h = (refl, cc h)
