-- ===== src/Booking/Attempts.antt =====
-- When an attempt to book starts: src/modules/booking/booking.service.ts.
use doot_backend.Base.{
  ℕ, ◌≡◌, refl, sym, ap, ◌∙◌, true, not, Option, none, some, is_some, [], ◌∷◌, arith,
}
use doot_backend.Base.Table.{update, find-update}
use doot_backend.Delivery.{DeliveryStatus, option_ready, includes, DeliveryRow}
use doot_backend.Delivery.Tables.{ProviderBooking}
use doot_backend.Delivery.Lifecycle.{
  delivery_id_of, moved_row, move_from, moved_event, in_statuses, Transition, find_delivery_row,
  move_row, record_event, move_found, run_transition,
}
use doot_backend.Delivery.Trail.Moves.{same_status_refl, in_statuses-inv}
use doot_backend.Booking.{to_booking, create_booking_attempt, begin_booking}
use doot_backend.Payment.Store.{
  Store, Failure, app_error, booking_in_progress, Result, ok, err, Db, >>=-ok, ◌>>=◌, ◌>>◌,
  row_missing, answer, or_throw, with_transaction, throw_if,
}

-- What `beginBooking` does with the result of the transition.
abbrev started : ℕ → ℕ → ℕ → ℕ → Option DeliveryRow → Db ProviderBooking
started new_id k n request moved =
    throw_if (not (is_some moved)) (app_error booking_in_progress 409)
    >> create_booking_attempt new_id k n request

abbrev moved_store : Transition → DeliveryStatus → Store → Store
moved_store input from s = record s {
  delivery_tables = record s.delivery_tables {
    deliveries =
        update delivery_id_of input.delivery_id (move_from from input.to_status)
          s.delivery_tables.deliveries;
    status_events = moved_event input from ∷ s.delivery_tables.status_events;
  };
}

found_moved :
    (input : Transition) (s : Store) (d : DeliveryRow)
    → find_delivery_row input.delivery_id s ≡ some d
    → find_delivery_row input.delivery_id (moved_store input d.status s)
      ≡ some (moved_row input.to_status d)
unfolding find_delivery_row
found_moved input s d found =
    let step =
      find-update delivery_id_of input.delivery_id input.delivery_id
        (move_from d.status input.to_status) s.delivery_tables.deliveries (λ x. ground arith) in
    ground (arith, step, found, same_status_refl d.status)

answer_found :
    (o : Option DeliveryRow) (row : DeliveryRow) (u : Store)
    → o ≡ some row
    → (or_throw o row_missing >>= λ r. answer (some r)) u ≡ (ok (some row), u)
answer_found none row u h = cc h
answer_found (some d) row u h = cc h

move_found-ok :
    (input : Transition) (s : Store) (d : DeliveryRow)
    → find_delivery_row input.delivery_id s ≡ some d
    → move_found input (some d) s
      ≡ (ok (some (moved_row input.to_status d)), moved_store input d.status s)
unfolding move_found move_row record_event
move_found-ok input s d found =
    let now = moved_store input d.status s in
    rw (found, same_status_refl d.status)
      (answer_found (find_delivery_row input.delivery_id now) (moved_row input.to_status d) now
        (found_moved input s d found))

-- A transition of a delivery in one of the expected statuses, and of one in another status.
run-ok :
    (input : Transition) (s : Store) (d : DeliveryRow)
    → find_delivery_row input.delivery_id s ≡ some d
    → includes input.expected_from_statuses d.status ≡ true
    → run_transition input s
      ≡ (ok (some (moved_row input.to_status d)), moved_store input d.status s)
unfolding run_transition
run-ok input s d found expected = rw (found, expected) (move_found-ok input s d found)

run-none :
    (input : Transition) (s : Store)
    → in_statuses input.expected_from_statuses (find_delivery_row input.delivery_id s) ≡ none
    → run_transition input s ≡ (ok none, s)
unfolding run_transition move_found
run-none input s absent = rw absent refl

with_transaction-err :
    {A : Type 0}
    → (m : Db A) (s t : Store) (e : Failure) → m s ≡ (err e, t)
    → with_transaction m s ≡ (err e, s)
with_transaction-err {A} m s t e h =
    ap
      (λ x.
        let (r, u) = x in
        elim r as (λ _. Result A × Store) [ ok a ↦ (ok a, u) | err e' ↦ (err e', s) ])
      h

with_transaction-inv :
    {A : Type 0}
    → (m : Db A) (s t : Store) (a : A) → with_transaction m s ≡ (ok a, t)
    → m s ≡ (ok a, t)
with_transaction-inv {A} m s t a h = go (m s) refl h
  where
    go :
        (x : Result A × Store)
        → m s ≡ x
        → (let (r, u) = x in
            elim r as (λ _. Result A × Store) [ ok b ↦ (ok b, u) | err e ↦ (err e, s) ])
          ≡ (ok a, t)
        → m s ≡ (ok a, t)
    go (ok b, u) e k = e ∙ k
    go (err e', u) e k = cc k

-- An attempt that cannot move the delivery is refused, and nothing is written.
begin_booking-refused :
    (new_id k n request : ℕ) (s : Store)
    → in_statuses (option_ready ∷ []) (find_delivery_row k s) ≡ none
    → begin_booking new_id k n request s ≡ (err (app_error booking_in_progress 409), s)
unfolding begin_booking
begin_booking-refused new_id k n request s absent =
    with_transaction-err (run_transition (to_booking k) >>= started new_id k n request) s s
      (app_error booking_in_progress 409)
      (>>=-ok (run_transition (to_booking k)) (started new_id k n request) s s none
        (run-none (to_booking k) s absent))

create_attempt-keeps :
    (new_id k n request j : ℕ) (s : Store)
    → find_delivery_row j (create_booking_attempt new_id k n request s).1 ≡ find_delivery_row j s
unfolding create_booking_attempt find_delivery_row
create_attempt-keeps new_id k n request j s = ground arith

-- A delivery whose attempt has started is found in the status BOOKING.
begin_booking-moved :
    (new_id k n request : ℕ) (s t : Store) (b : ProviderBooking) (d : DeliveryRow)
    → find_delivery_row k s ≡ some d
    → includes (option_ready ∷ []) d.status ≡ true
    → begin_booking new_id k n request s ≡ (ok b, t)
    → find_delivery_row k t ≡ some (moved_row DeliveryStatus.booking d)
unfolding begin_booking
begin_booking-moved new_id k n request s t b d found ready h =
    let now = moved_store (to_booking k) d.status s in
    let chain : Db ProviderBooking = run_transition (to_booking k) >>= started new_id k n request in
    let ran =
      >>=-ok (run_transition (to_booking k)) (started new_id k n request) s now
        (some (moved_row DeliveryStatus.booking d)) (run-ok (to_booking k) s d found ready) in
    let made : create_booking_attempt new_id k n request now ≡ (ok b, t) =
      sym ran ∙ with_transaction-inv chain s t b h in
    ap (λ x. find_delivery_row k x.1) (sym made)
    ∙ create_attempt-keeps new_id k n request k now
    ∙ found_moved (to_booking k) s d found

begin_from :
    (new_id k n request : ℕ) (s t : Store) (b : ProviderBooking) (o : Option DeliveryRow)
    → in_statuses (option_ready ∷ []) (find_delivery_row k s) ≡ o
    → begin_booking new_id k n request s ≡ (ok b, t)
    → in_statuses (option_ready ∷ []) (find_delivery_row k t) ≡ none
begin_from new_id k n request s t b none absent h =
    cc (begin_booking-refused new_id k n request s absent, h)
begin_from new_id k n request s t b (some d) there h =
    let (found, ready) = in_statuses-inv (option_ready ∷ []) (find_delivery_row k s) d there in
    rw (begin_booking-moved new_id k n request s t b d found ready h) refl

-- Of two confirmations of a delivery that have both passed their checks, one books: after an attempt
-- has started, the start of another is refused with BOOKING_IN_PROGRESS, and its transaction leaves
-- no trace.
pub begin_booking-once :
    (new_id other_id k n m request other_request : ℕ) (s t : Store) (b : ProviderBooking)
    → begin_booking new_id k n request s ≡ (ok b, t)
    → begin_booking other_id k m other_request t ≡ (err (app_error booking_in_progress 409), t)
begin_booking-once new_id other_id k n m request other_request s t b h =
    begin_booking-refused other_id k m other_request t (
      begin_from new_id k n request s t b (in_statuses (option_ready ∷ []) (find_delivery_row k s))
        refl h)
