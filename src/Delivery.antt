-- ===== src/Delivery.antt =====
-- The life of a delivery, and who may load one: src/modules/delivery/delivery.transitions.ts and
-- src/modules/delivery/delivery-access.ts.
pub mod Diagram
pub mod Lifecycle
pub mod Tables
pub mod Trail
mod Tests
use doot_backend.Base.{
  ℕ, List, [], ◌∷◌, Bool, true, false, not, ltb, ◌==◌, if◌then◌else◌, any, Option, none, some,
  String,
}
use doot_backend.Base.Table.{find}

pub data DeliveryStatus : Type 0 where
  created orchestrating option_ready booking booked driver_assigned pickup_otp_pending picked_up
        in_transit delivery_otp_pending delivered cancelled failed :
      DeliveryStatus

-- `STATUS_RANK`, which also tells the statuses apart.
abbrev pub status_rank : DeliveryStatus → ℕ
status_rank created = 0
status_rank orchestrating = 1
status_rank option_ready = 2
status_rank booking = 3
status_rank booked = 4
status_rank driver_assigned = 5
status_rank pickup_otp_pending = 6
status_rank picked_up = 7
status_rank in_transit = 8
status_rank delivery_otp_pending = 9
status_rank delivered = 10
status_rank cancelled = 11
status_rank failed = 12

-- `a === b`
abbrev pub same_status : DeliveryStatus → DeliveryStatus → Bool
same_status a b = status_rank a == status_rank b

-- `list.includes(s)`
abbrev pub includes : List DeliveryStatus → DeliveryStatus → Bool
includes list s = any (λ t. same_status t s) list

-- `TERMINAL_STATUSES`
abbrev terminal_statuses : List DeliveryStatus
terminal_statuses = delivered ∷ cancelled ∷ failed ∷ []

-- `ALLOWED_TRANSITIONS`; a status with no entry allows nothing.
abbrev pub allowed_transitions : DeliveryStatus → List DeliveryStatus
allowed_transitions created = orchestrating ∷ cancelled ∷ []
allowed_transitions orchestrating = option_ready ∷ failed ∷ cancelled ∷ []
allowed_transitions option_ready = booking ∷ cancelled ∷ []
allowed_transitions booking = booked ∷ failed ∷ []
allowed_transitions booked = driver_assigned ∷ pickup_otp_pending ∷ cancelled ∷ []
allowed_transitions driver_assigned = pickup_otp_pending ∷ cancelled ∷ []
allowed_transitions pickup_otp_pending = picked_up ∷ cancelled ∷ []
allowed_transitions picked_up = in_transit ∷ []
allowed_transitions in_transit = delivery_otp_pending ∷ []
allowed_transitions delivery_otp_pending = delivered ∷ []
allowed_transitions _ = []

unfoldable pub is_terminal_delivery_status : DeliveryStatus → Bool
is_terminal_delivery_status status = includes terminal_statuses status

unfoldable pub can_transition_delivery : DeliveryStatus → DeliveryStatus → Bool
unfolding is_terminal_delivery_status
can_transition_delivery from to =
    if same_status from to
    then true
    else if is_terminal_delivery_status from
    then false
    else includes (allowed_transitions from) to

unfoldable pub is_stale_operational_transition : DeliveryStatus → DeliveryStatus → Bool
unfolding is_terminal_delivery_status
is_stale_operational_transition current target =
    if is_terminal_delivery_status current
    then not (same_status target current)
    else ltb (status_rank target) (status_rank current)

-- `CANCELLABLE_DELIVERY_STATUSES`
abbrev pub cancellable_delivery_statuses : List DeliveryStatus
cancellable_delivery_statuses =
    created ∷ orchestrating ∷ option_ready ∷ booked ∷ driver_assigned ∷ pickup_otp_pending ∷ []

-- `UserRole`
pub data UserRole : Type 0 where
  customer admin : UserRole

-- A delivery, by the columns that the modelled services read.
pub record DeliveryRow : Type 0 where
  pub id : ℕ
  pub customer_id : ℕ
  pub reference : String
  pub status : DeliveryStatus

abbrev pub find_delivery : ℕ → List DeliveryRow → Option DeliveryRow
find_delivery k rows = find (λ d. d.id) k rows

abbrev owned_by : ℕ → Option DeliveryRow → Option DeliveryRow
owned_by user none = none
owned_by user (some d) = if d.customer_id == user then some d else none

-- src/modules/delivery/delivery-access.ts: an admin sees every delivery, a customer the own ones;
-- `none` stands for the error DELIVERY_NOT_FOUND.
unfoldable pub load_authorized_delivery : List DeliveryRow → ℕ → ℕ → UserRole → Option DeliveryRow
load_authorized_delivery rows delivery_id user_id admin = find_delivery delivery_id rows
load_authorized_delivery rows delivery_id user_id customer =
    owned_by user_id (find_delivery delivery_id rows)
