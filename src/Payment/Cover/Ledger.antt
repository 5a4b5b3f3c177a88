-- ===== src/Payment/Cover/Ledger.antt =====
-- The invariant through writes of the ledger, and the row that a repair sets.
use doot_backend.Base.{
  ℕ, ◌≤◌, ◌≡◌, refl, inl, inr, some, List, [], ◌∷◌, arith, ◌==◌, Bool-cases, is_some,
}
use doot_backend.Base.Table.{find, update, find-update}
use doot_backend.Payment.Types.{Payment, Refund, LedgerKey}
use doot_backend.Payment.Store.{Failure, app_error, unique_violation, answer, throw, catching, ◌>>◌}
use doot_backend.Payment.Repository.Queries.{
  payment_id_of, entry_id_of, find_ledger_by_idempotency_key,
}
use doot_backend.Payment.Repository.Writes.{patch_payment}
use doot_backend.Payment.Repository.RefundWrites.{create_ledger_entry, NewLedgerEntry}
use doot_backend.Payment.Service.Outside.{Draws}
use doot_backend.Payment.Service.Settlement.{
  refund_entry, on_ledger_conflict, ensure_refund_ledger_entry, refunded_patch, refunded_status,
}
use doot_backend.Payment.Cover.{active, paid_back, IsCovered, IsSound}
use doot_backend.Payment.Cover.Rules.{Keeps, query-Keeps, >>-Keeps, catching-Keeps}

pub create_ledger_entry-Keeps :
    (k : ℕ) (input : NewLedgerEntry) → Keeps (create_ledger_entry k input)
unfolding create_ledger_entry
create_ledger_entry-Keeps k input s v = elim (Bool-cases (is_some (find entry_id_of k s.ledger))) [
  | inl used ↦ rw used v
  | inr fresh ↦
      rw fresh
        (elim (Bool-cases (is_some (find_ledger_by_idempotency_key input.idempotency_key s))) [
          | inl taken ↦ rw taken v
          | inr free ↦ rw free (record { sound = v.sound; owned = v.owned })
        ])
]

on_ledger_conflict-Keeps : (key : LedgerKey) (e : Failure) → Keeps (on_ledger_conflict key e)
unfolding on_ledger_conflict
on_ledger_conflict-Keeps key (unique_violation column) =
    query-Keeps (find_ledger_by_idempotency_key key) (λ _. answer tt)
      (throw (unique_violation column)) (λ _ s v. v) (λ s v. v)
on_ledger_conflict-Keeps key (app_error code status) = λ s v. v
on_ledger_conflict-Keeps key _ = λ s v. v

pub ensure_refund_ledger_entry-Keeps :
    (c : Draws) (p : Payment) (r : Refund) (key : LedgerKey)
    → Keeps (ensure_refund_ledger_entry c p r key)
unfolding ensure_refund_ledger_entry
ensure_refund_ledger_entry-Keeps c p r key =
    let write = create_ledger_entry c.ledger_id (refund_entry p r key) in
    query-Keeps (find_ledger_by_idempotency_key key) (λ _. answer tt)
      (catching (write >> answer tt) (on_ledger_conflict key)) (λ _ s v. v)
      (catching-Keeps (write >> answer tt) (on_ledger_conflict key)
        (>>-Keeps write (answer tt) (create_ledger_entry-Keeps c.ledger_id (refund_entry p r key))
          (λ s v. v))
        (on_ledger_conflict-Keeps key))

-- Changing one payment's row to another covered row.
pub replace-IsSound :
    (ps : List Payment) (rs : List Refund) (p : Payment) (g : Payment → Payment)
    → find payment_id_of p.id ps ≡ some p
    → ((x : Payment) → (g x).id ≡ x.id)
    → IsCovered rs (g p)
    → IsSound ps rs
    → IsSound (update payment_id_of p.id g ps) rs
replace-IsSound ps rs p g e keep covered h l q looked =
    let at = find-update payment_id_of l p.id g ps keep in
    elim (Bool-cases (l == p.id)) [
      | inl hit ↦ let q_is : q ≡ g p = ground (arith, at, e, looked) in rw q_is covered
      | inr miss ↦ h l q (ground (arith, at))
    ]

-- What is paid back is active.
pub paid_back-le-active : (k : ℕ) (rs : List Refund) → paid_back k rs ≤ active k rs
paid_back-le-active k [] = omega arith
paid_back-le-active k (r ∷ rs) = ground (arith, paid_back-le-active k rs)

-- A paid payment whose row is set to what its refunds say.
pub repaired-IsCovered :
    (rs : List Refund) (p : Payment) (double : ℕ)
    → IsCovered rs p
    → IsCovered rs (
        patch_payment
          (refunded_patch p.id
            (refunded_status (record { paise = paid_back p.id rs; double = double }) p.amount)
            (paid_back p.id rs))
          p)
repaired-IsCovered rs p double h =
    let less = paid_back-le-active p.id rs in
    record {
      capped = h.capped;
      counted = refl;
      unpaid = λ u. ground arith;
      whole = λ u. ground arith;
      full = λ u. ground (arith, h.capped);
    }
