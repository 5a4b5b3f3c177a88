-- ===== src/Cancellation/Records.antt =====
-- The rows of cancellations and their idempotency keys:
-- src/modules/cancellation/cancellation.repository.ts, with what `cancel` of
-- src/modules/cancellation/cancellation.service.ts is given.
use doot_backend.Base.{
  ℕ, ◌+◌, Bool, true, false, not, ◌&&◌, Option, none, some, is_some, String, List, [], ◌∷◌, ◌==◌,
  if◌then◌else◌, any,
}
use doot_backend.Base.Table.{latest_by}
use text.Mathlib.Text.{◌==◌ as str_eq}
use doot_backend.Delivery.{UserRole}
use doot_backend.Delivery.Tables.{
  ProviderBooking, ProviderBookingStatus, CancellationStatus, processing, cancelled, rejected,
  unknown, DeliveryCancellation, CancellationResponse, CancellationKey,
}
use doot_backend.Delivery.Lifecycle.{write_tables}
use doot_backend.Cancellation.Outcome.{Reply}
use doot_backend.Payment.Service.Outside
use doot_backend.Payment.Service.Outside.{Draws}
use doot_backend.Payment.Store.{
  Store, unique_violation, correlation_reference, cancellation_key, row_missing, Db, answer, read,
  catching, ◌>>=◌, ◌>>◌, throw_if,
}

pub record CancelRequest : Type 0 where
  pub delivery_id : ℕ
  pub user_id : ℕ
  pub role : UserRole
  pub reason_code : String
  pub reason_message : Option String
  pub idempotency_key : Option String
  pub request_hash : String

-- What `cancel` takes from outside: what the payment service takes, the clock, the id that is drawn,
-- whether the booking's provider is there and eligible, the order to name to it (a Shiprocket order
-- is read from the quote), its reply, and what others commit between two steps.
pub record CancelOutside : Type 1 where
  pub payments : Outside.Outside
  pub draws : Draws
  pub now : ℕ
  pub cancellation_id : String
  pub provider_eligible : ProviderBooking → Bool
  pub order_to_cancel : ProviderBooking → Option String
  pub cancel_booking : String → Db Reply
  pub pause : Db (Unit {0})

abbrev pub has_status : CancellationStatus → CancellationStatus → Bool
has_status processing processing = true
has_status unknown unknown = true
has_status cancelled cancelled = true
has_status rejected rejected = true
has_status CancellationStatus.requested CancellationStatus.requested = true
has_status _ _ = false

unfoldable pub find_latest_cancellation : ℕ → Store → Option DeliveryCancellation
find_latest_cancellation k s =
    latest_by (λ c. c.created_at) (λ c. c.delivery_id == k) s.delivery_tables.cancellations

unfoldable pub find_processing : ℕ → Store → Option DeliveryCancellation
find_processing k s =
    latest_by (λ c. c.created_at) (λ c. c.delivery_id == k && has_status processing c.status)
      s.delivery_tables.cancellations

abbrev attempt_of : Option DeliveryCancellation → ℕ
attempt_of none = 0
attempt_of (some c) = c.attempt_number

-- `getNextAttemptNumber`, the number of the latest reference and one.
unfoldable pub get_next_cancellation_attempt : ℕ → Store → ℕ
unfolding find_latest_cancellation
get_next_cancellation_attempt k s = attempt_of (find_latest_cancellation k s) + 1

abbrev booking_id_of : Option ProviderBooking → Option ℕ
booking_id_of none = none
booking_id_of (some b) = some b.id

abbrev pub booking_status_of : Option ProviderBooking → Option ProviderBookingStatus
booking_status_of none = none
booking_status_of (some b) = some b.status

abbrev processing_row : CancelOutside → ℕ → Option ProviderBooking → ℕ → DeliveryCancellation
processing_row o k b n = record {
  id = o.cancellation_id;
  delivery_id = k;
  provider_booking_id = booking_id_of b;
  attempt_number = n;
  status = processing;
  created_at = o.now;
}

-- `create`: the reference of an attempt stands once.
unfoldable pub create_cancellation :
    CancelOutside → ℕ → Option ProviderBooking → ℕ → Db DeliveryCancellation
create_cancellation o k b n = do
  taken ←
      read (λ s.
        any (λ c. c.delivery_id == k && c.attempt_number == n) s.delivery_tables.cancellations)
  throw_if taken (unique_violation correlation_reference)
  write_tables (λ t. record t { cancellations = processing_row o k b n ∷ t.cancellations })
  answer (processing_row o k b n)

abbrev pub with_status :
    String → CancellationStatus → List DeliveryCancellation → List DeliveryCancellation
with_status k status [] = []
with_status k status (c ∷ cs) =
    let rest = with_status k status cs in
    if str_eq c.id k then record c { status = status } ∷ rest else c ∷ rest

-- `finalize`
unfoldable pub finalize_cancellation : DeliveryCancellation → CancellationStatus → Db (Unit {0})
finalize_cancellation c status = do
  found ← read (λ s. any (λ x. str_eq x.id c.id) s.delivery_tables.cancellations)
  throw_if (not found) row_missing
  write_tables (λ t. record t { cancellations = with_status c.id status t.cancellations })

abbrev find_key : ℕ → String → List CancellationKey → Option CancellationKey
find_key user key [] = none
find_key user key (c ∷ cs) =
    if c.customer_id == user && str_eq c.key key then some c else find_key user key cs

-- An empty key counts as none.
unfoldable pub find_idempotency : ℕ → Option String → Store → Option CancellationKey
find_idempotency user none s = none
find_idempotency user (some key) s =
    if str_eq key "" then none else find_key user key s.delivery_tables.cancellation_keys

abbrev key_row : CancelRequest → String → CancellationResponse → CancellationKey
key_row input key response = record {
  customer_id = input.user_id;
  key = key;
  request_hash = input.request_hash;
  delivery_id = input.delivery_id;
  response_payload = response;
}

abbrev pub save_key : CancelRequest → CancellationResponse → Option String → Db (Unit {0})
save_key input response none = answer tt
save_key input response (some key) =
    if str_eq key ""
    then answer tt
    else catching
        (do
          taken ←
              read (λ s. is_some (find_key input.user_id key s.delivery_tables.cancellation_keys))
          throw_if taken (unique_violation cancellation_key)
          write_tables (λ t. record t {
            cancellation_keys = key_row input key response ∷ t.cancellation_keys;
          }))
        (λ _. answer tt)

-- `saveIdempotency`; an error is swallowed.
unfoldable pub save_idempotency : CancelRequest → CancellationResponse → Db (Unit {0})
save_idempotency input response = save_key input response input.idempotency_key
