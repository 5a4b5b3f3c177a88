-- ===== src/Payment/Cover/Steps.antt =====
-- The invariant through `updateRefundStatus` and `createRefund`.
use doot_backend.Base.{
  ℕ, ◌+◌, ◌≤◌, ◌≡◌, refl, inl, inr, true, some, List, [], ◌∷◌, arith, Bool-cases, Option-cases,
  is_some,
}
use doot_backend.Base.Table.{find, find-id}
use doot_backend.Payment.Types.{PaymentStatus, RefundStatus, Payment, Refund}
use doot_backend.Payment.Transitions.{payment_in, refund_in}
use doot_backend.Payment.Store.{Store}
use doot_backend.Payment.Repository.Queries.{
  payment_id_of, refund_id_of, amount_in, active_statuses, find_refund_by_id,
  find_refund_by_idempotency_key,
}
use doot_backend.Payment.Repository.RefundWrites.{
  RefundPatch, patch_refund, update_refund_status, NewRefund, refund_row, create_refund,
}
use doot_backend.Payment.Cover.{active, IsValid}
use doot_backend.Payment.Cover.Rules.{Keeps}
use doot_backend.Payment.Cover.Rows.{
  refund-HasNoOrphan, reserve-HasNoOrphan, lower-IsCovered, reserve-IsCovered,
}

-- A patch that changes no amount upwards.
abbrev IsLowering : RefundPatch → Type 0
IsLowering d =
    (k : ℕ) (r : Refund)
    → refund_in d.from_statuses r.status ≡ true
    → (amount_in active_statuses k (patch_refund d r) ≤ amount_in active_statuses k r)
      × (amount_in (RefundStatus.success ∷ []) k (patch_refund d r)
          ≡ amount_in (RefundStatus.success ∷ []) k r)

pub update_refund_status-IsValid : (d : RefundPatch) → IsLowering d → Keeps (update_refund_status d)
unfolding update_refund_status find_refund_by_id
update_refund_status-IsValid d low s v =
    elim (Option-cases (find refund_id_of d.refund_id s.refunds)) [
      | inl absent ↦ rw (absent, update_refund_status, find_refund_by_id) v
      | inr (r, found) ↦ elim (Bool-cases (refund_in d.from_statuses r.status)) [
        | inl hit ↦
            rw (found, update_refund_status, find_refund_by_id)
              (rw hit (record {
                sound = λ k p e.
                    let (less, same) = low p.id r hit in
                    lower-IsCovered s.refunds d.refund_id (patch_refund d) r p found less same
                      (v.sound k p e);
                owned =
                    refund-HasNoOrphan s.payments s.refunds d.refund_id (patch_refund d) r found
                      (λ k. (low k r hit).0) v.owned;
              }))
        | inr miss ↦ rw (found, update_refund_status, find_refund_by_id) (rw miss v)
      ]
    ]

-- The payment that a refund is reserved on is found once.
same_row :
    (ps : List Payment) (j k : ℕ) (p q : Payment)
    → find payment_id_of j ps ≡ some p
    → find payment_id_of k ps ≡ some q
    → q.id ≡ p.id
    → q ≡ p
same_row ps j k p q e f h =
    let a = find-id payment_id_of j ps p e in
    let b = find-id payment_id_of k ps q f in ground (arith, a, b)

pub create_refund-IsValid :
    (new_id now : ℕ) (input : NewRefund) (p : Payment) (s : Store)
    → find payment_id_of input.payment_id s.payments ≡ some p
    → input.payment_id ≡ p.id
    → input.status ≡ some RefundStatus.requested
    → payment_in (PaymentStatus.paid ∷ PaymentStatus.partially_refunded ∷ []) p.status ≡ true
    → active p.id s.refunds + input.amount ≤ p.amount
    → IsValid s
    → IsValid (create_refund new_id now input s).1
unfolding create_refund
create_refund-IsValid new_id now input p s e own st paid fits v =
    elim (Bool-cases (is_some (find refund_id_of new_id s.refunds))) [
      | inl used ↦ rw used v
      | inr fresh ↦
          rw fresh
            (elim (Bool-cases (is_some (find_refund_by_idempotency_key input.idempotency_key s))) [
              | inl dup ↦ rw dup v
              | inr free ↦ rw free (record {
                sound = λ k q f.
                    reserve-IsCovered s.refunds (refund_row new_id now input) p q (v.sound k q f)
                      (rw st refl) own (same_row s.payments input.payment_id k p q e f) paid fits;
                owned =
                    reserve-HasNoOrphan s.payments s.refunds (refund_row new_id now input) p e
                      v.owned;
              })
            ])
    ]
