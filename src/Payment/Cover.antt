-- ===== src/Payment/Cover.antt =====
-- The invariant of the payment tables: the refunds of a payment never exceed it, its refunded amount
-- is the sum of the refunds that succeeded, and its status agrees with them.
pub mod Rows
pub mod Steps
pub mod Settling
pub mod Rules
pub mod Reasoning
pub mod Ledger
pub mod Refunds
pub mod Settlement
pub mod Finalize
pub mod Success
pub mod Request
pub mod Status
pub mod Create
pub mod Requests
pub mod Events
pub mod History
use doot_backend.Base.{ℕ, ◌≤◌, ◌<◌, ◌≡◌, Bool, true, none, some, List, [], ◌∷◌}
use doot_backend.Base.Table.{find, total}
use doot_backend.Payment.Types.{PaymentStatus, RefundStatus, Payment, Refund}
use doot_backend.Payment.Transitions.{payment_in}
use doot_backend.Payment.Store.{Store}
use doot_backend.Payment.Repository.Queries.{payment_id_of, amount_in, active_statuses}

-- What is reserved or paid back of the payment with the id, and what is paid back.
abbrev pub active : ℕ → List Refund → ℕ
active k rs = total (amount_in active_statuses k) rs

abbrev pub paid_back : ℕ → List Refund → ℕ
paid_back k rs = total (amount_in (RefundStatus.success ∷ []) k) rs

abbrev pub unpaid_statuses : List PaymentStatus
unpaid_statuses =
    PaymentStatus.created ∷ PaymentStatus.pending ∷ PaymentStatus.failed ∷ PaymentStatus.expired
    ∷ []

pub record IsCovered (rs : List Refund) (p : Payment) : Type 0 where
  pub capped : active p.id rs ≤ p.amount
  pub counted : p.refunded_amount ≡ paid_back p.id rs
  pub unpaid : payment_in unpaid_statuses p.status ≡ true → active p.id rs ≡ 0
  pub whole : p.status ≡ PaymentStatus.paid → p.refunded_amount ≡ 0
  pub full : p.status ≡ PaymentStatus.refunded → p.refunded_amount ≡ p.amount

abbrev pub IsSound : List Payment → List Refund → Type 0
IsSound ps rs = (k : ℕ) (p : Payment) → find payment_id_of k ps ≡ some p → IsCovered rs p

-- No refund is active on a payment that is not there.
abbrev pub HasNoOrphan : List Payment → List Refund → Type 0
HasNoOrphan ps rs = (k : ℕ) → find payment_id_of k ps ≡ none → active k rs ≡ 0

pub record IsValid (s : Store) : Type 0 where
  pub sound : IsSound s.payments s.refunds
  pub owned : HasNoOrphan s.payments s.refunds
