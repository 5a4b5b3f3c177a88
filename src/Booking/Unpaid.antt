-- ===== src/Booking/Unpaid.antt =====
-- No booking is made without a payment: `confirm` of src/modules/booking/booking.service.ts.
use doot_backend.Base.{
  ℕ, ◌≡◌, refl, ◌≢◌, inl, inr, Bool, false, ◌||◌, Option, none, some, is_some, List, arith,
  Bool-cases, Option-cases,
}
use doot_backend.Base.Table.{find-id}
use doot_backend.Delivery.{
  DeliveryStatus, option_ready, same_status, DeliveryRow, UserRole, admin, customer,
  load_authorized_delivery, find_delivery,
}
use doot_backend.Delivery.Tables.{ProviderBooking, ProviderBookingStatus}
use doot_backend.Delivery.Lifecycle.{load_delivery}
use doot_backend.Booking.{
  BookingOutside, ConfirmAnswer, is_paid, status_is, find_active_booking, find_latest_booked,
  find_latest_booking, confirm_ready, confirm_fresh, confirm_open, booked_again, confirm_loaded,
  confirm,
}
use doot_backend.Payment.Repository.Queries.{find_by_delivery_id}
use doot_backend.Payment.Store.{
  Store, ok, Db, read, or_throw, app_error, delivery_not_found, ◌>>=◌, >>=-ok,
}

confirm_fresh-unpaid :
    (o : BookingOutside) (d : DeliveryRow) (s : Store)
    → is_paid (find_by_delivery_id d.id s) ≡ false
    → ((confirm_fresh o d s).1 ≡ s) × ((a : ConfirmAnswer) → (confirm_fresh o d s).0 ≢ ok a)
unfolding confirm_fresh confirm_ready
confirm_fresh-unpaid o d s unpaid =
    elim (Bool-cases
      (is_some (find_active_booking d.id s) || same_status d.status DeliveryStatus.booking)) [
        | inl busy ↦ rw busy ((refl, λ a h. cc h))
        | inr idle ↦ elim (Bool-cases (same_status d.status option_ready)) [
          | inl ready ↦ rw (idle, ready, unpaid) ((refl, λ a h. cc h))
          | inr early ↦ rw (idle, early) ((refl, λ a h. cc h))
        ]
      ]

abbrev is_left_unknown : Option ProviderBooking → Bool
is_left_unknown none = false
is_left_unknown (some b) = status_is ProviderBookingStatus.unknown b.status

confirm_open-unpaid :
    (o : BookingOutside) (d : DeliveryRow) (latest : Option ProviderBooking) (s : Store)
    → is_left_unknown latest ≡ false
    → is_paid (find_by_delivery_id d.id s) ≡ false
    → ((confirm_open o d latest s).1 ≡ s)
      × ((a : ConfirmAnswer) → (confirm_open o d latest s).0 ≢ ok a)
unfolding confirm_open
confirm_open-unpaid o d none s known unpaid = confirm_fresh-unpaid o d s unpaid
confirm_open-unpaid o d (some b) s known unpaid = rw known (confirm_fresh-unpaid o d s unpaid)

loaded-id :
    (rows : List DeliveryRow) (k user : ℕ) (role : UserRole) (d : DeliveryRow)
    → load_authorized_delivery rows k user role ≡ some d
    → d.id ≡ k
unfolding load_authorized_delivery
loaded-id rows k user admin d h = find-id (λ x. x.id) k rows d h
loaded-id rows k user customer d h = elim (Option-cases (find_delivery k rows)) [
  | inl absent ↦ ground (arith, absent, h)
  | inr (x, found) ↦ ground (arith, found, h, find-id (λ y. y.id) k rows x found)
]

-- The call throws and leaves the database as it was.
abbrev pub IsRefused : Db ConfirmAnswer → Store → Type 0
IsRefused m s = ((m s).1 ≡ s) × ((a : ConfirmAnswer) → (m s).0 ≢ ok a)

pass-IsRefused :
    {A : Type 0}
    → (m : Db A) (f : A → Db ConfirmAnswer) (s : Store) (a : A) → m s ≡ (ok a, s)
    → IsRefused (f a) s
    → IsRefused (m >>= f) s
pass-IsRefused m f s a h refused = rw (>>=-ok m f s s a h) refused

module _ (o : BookingOutside) (k : ℕ) (s : Store) (idle : (t : Store) → o.pause t ≡ (ok tt, t))
    (fresh : find_latest_booked k s ≡ none)
    (known : is_left_unknown (find_latest_booking k s) ≡ false) where
  opened-IsRefused :
      (d : DeliveryRow) (existing : Option ProviderBooking)
      → existing ≡ none
      → d.id ≡ k
      → is_paid (find_by_delivery_id k s) ≡ false
      → IsRefused (confirm_loaded o k d existing) s
  unfolding confirm_loaded
  opened-IsRefused d existing none_is own unpaid =
      rw none_is (elim (Bool-cases (same_status d.status DeliveryStatus.booked)) [
        | inl done ↦ rw done (
            pass-IsRefused o.pause (λ _. booked_again o k d none) s tt (idle s)
              (unfold booked_again in rw fresh ((refl, λ a h. cc h))))
        | inr open_ ↦ rw open_ (
            pass-IsRefused o.pause (λ _. read (find_latest_booking k) >>= confirm_open o d) s tt
              (idle s) (confirm_open-unpaid o d (find_latest_booking k s) s known (rw own unpaid)))
      ])

  loaded-IsRefused :
      (user : ℕ) (role : UserRole) (found : Option DeliveryRow)
      → load_authorized_delivery s.delivery_tables.deliveries k user role ≡ found
      → is_paid (find_by_delivery_id k s) ≡ false
      → IsRefused
          (or_throw found (app_error delivery_not_found 404) >>= λ d.
            o.pause >>= λ _. read (find_latest_booked k) >>= confirm_loaded o k d)
          s
  loaded-IsRefused user role none loaded unpaid = (refl, λ a h. cc h)
  loaded-IsRefused user role (some d) loaded unpaid =
      pass-IsRefused o.pause (λ _. read (find_latest_booked k) >>= confirm_loaded o k d) s tt
        (idle s)
        (opened-IsRefused d (find_latest_booked k s) fresh
          (loaded-id s.delivery_tables.deliveries k user role d loaded) unpaid)

-- Without a PAID payment of the delivery, a request to confirm it throws and leaves the database as it
-- was, where the delivery has no booking that is booked, its latest booking is not left unknown, and
-- nothing else is committed during the request.
pub confirm-unpaid :
    (o : BookingOutside) (k user : ℕ) (role : UserRole) (s : Store)
    → ((t : Store) → o.pause t ≡ (ok tt, t))
    → find_latest_booked k s ≡ none
    → is_left_unknown (find_latest_booking k s) ≡ false
    → is_paid (find_by_delivery_id k s) ≡ false
    → IsRefused (confirm o k user role) s
unfolding confirm load_delivery
confirm-unpaid o k user role s idle fresh known unpaid =
    loaded-IsRefused o k s idle fresh known user role
      (load_authorized_delivery s.delivery_tables.deliveries k user role) refl unpaid
