-- ===== src/Payment/Cover/Settlement.antt =====
-- The invariant through the repair of a settled refund.
use doot_backend.Base.{
  ℕ, ◌≡◌, refl, sym, inl, inr, true, false, Option, none, some, List, [], ◌∷◌, Bool-cases,
  Option-cases, get_or, or_else,
}
use mathlib.Core.Path.{subst}
use doot_backend.Base.Table.{find, update, total, find-id}
use doot_backend.Payment.Number.{Number}
use doot_backend.Payment.Types.{PaymentStatus, Payment, Refund, LedgerKey, LedgerEntry}
use doot_backend.Payment.Transitions.{payment_in, can_transition_payment}
use doot_backend.Payment.Store.{Store, ok, answer}
use doot_backend.Payment.Repository.Queries.{
  payment_id_of, find_by_id, find_ledger_by_idempotency_key, sum_successful_refund_amounts,
}
use doot_backend.Payment.Repository.Writes.{patch_payment, update_payment_status}
use doot_backend.Payment.Service.Outside.{Draws}
use doot_backend.Payment.Service.Settlement.{
  ensure_refund_ledger_entry, refunded_patch, refunded_status, agrees, must_agree, enter_ledger,
  check_repaired, record_settled, repair_payment, reconcile_successful_refund_record,
  reconcile_again,
}
use doot_backend.Payment.Cover.{paid_back, IsValid}
use doot_backend.Payment.Cover.Rules.{Keeps, bind-IsValid, >>-Keeps}
use doot_backend.Payment.Cover.Rows.{payment-HasNoOrphan}
use doot_backend.Payment.Cover.Ledger.{
  ensure_refund_ledger_entry-Keeps, replace-IsSound, repaired-IsCovered,
}

abbrev pub paid_statuses : List PaymentStatus
paid_statuses = PaymentStatus.paid ∷ PaymentStatus.partially_refunded ∷ []

must_agree-Keeps :
    (p : Option Payment) (total : Number) (status : PaymentStatus)
    → Keeps (must_agree p total status)
must_agree-Keeps none total status s v = v
must_agree-Keeps (some p) total status s v = v

-- What the update of a refunded amount does to the payments.
pub refunded-update :
    (k : ℕ) (to : PaymentStatus) (n : ℕ) (p : Payment) (s : Store)
    → find payment_id_of k s.payments ≡ some p
    → payment_in paid_statuses p.status ≡ true
    → update_payment_status (refunded_patch k to n) s ≡ (
      ok (some (patch_payment (refunded_patch k to n) p)),
      record s {
        payments = update payment_id_of k (patch_payment (refunded_patch k to n)) s.payments;
      },
    )
unfolding update_payment_status find_by_id
refunded-update k to n p s e hit = rw (e, update_payment_status, find_by_id) (rw hit refl)

pub refunded_update_miss :
    (k : ℕ) (to : PaymentStatus) (n : ℕ) (p : Payment) (s : Store)
    → find payment_id_of k s.payments ≡ some p
    → payment_in paid_statuses p.status ≡ false
    → update_payment_status (refunded_patch k to n) s ≡ (ok none, s)
unfolding update_payment_status find_by_id
refunded_update_miss k to n p s e miss = rw (e, update_payment_status, find_by_id) (rw miss refl)

check_repaired-Keeps :
    (k : ℕ) (total : Number) (status : PaymentStatus) (p : Option Payment)
    → Keeps (check_repaired k total status p)
check_repaired-Keeps k total status (some p) s v = v
check_repaired-Keeps k total status none s v = must_agree-Keeps (find_by_id k s) total status s v

abbrev target : Payment → Store → PaymentStatus
target p s = refunded_status (sum_successful_refund_amounts p.id s) p.amount

update_repaired-IsValid :
    (p : Payment) (s : Store)
    → find payment_id_of p.id s.payments ≡ some p
    → IsValid s
    → IsValid
        (update_payment_status (refunded_patch p.id (target p s) (paid_back p.id s.refunds)) s).1
unfolding sum_successful_refund_amounts
update_repaired-IsValid p s e v =
    let n = paid_back p.id s.refunds in
    elim (Bool-cases (payment_in paid_statuses p.status)) [
      | inl hit ↦ rw (refunded-update p.id (target p s) n p s e hit) (record {
        sound =
            replace-IsSound s.payments s.refunds p
              (patch_payment (refunded_patch p.id (target p s) n)) e (λ x. refl)
              (repaired-IsCovered s.refunds p (sum_successful_refund_amounts p.id s).double
                (v.sound p.id p e))
              v.sound;
        owned =
            payment-HasNoOrphan s.payments s.refunds p.id
              (patch_payment (refunded_patch p.id (target p s) n)) (λ x. refl) v.owned;
      })
      | inr miss ↦ rw (refunded_update_miss p.id (target p s) n p s e miss) v
    ]

-- The repair sets the row to what the refunds of the payment say.
repair_payment-IsValid :
    (p : Payment) (s : Store)
    → find payment_id_of p.id s.payments ≡ some p
    → IsValid s
    → IsValid (repair_payment p (sum_successful_refund_amounts p.id s) (target p s) s).1
unfolding repair_payment sum_successful_refund_amounts
repair_payment-IsValid p s e v =
    let n = sum_successful_refund_amounts p.id s in
    elim (Bool-cases (agrees p n (target p s))) [
      | inl same ↦ rw same v
      | inr differs ↦ rw differs (elim (Bool-cases (can_transition_payment p.status (target p s))) [
        | inr blocked ↦ rw blocked v
        | inl open_ ↦ rw open_ (
            bind-IsValid (update_payment_status (refunded_patch p.id (target p s) n.paise))
              (check_repaired p.id n (target p s)) s (update_repaired-IsValid p s e v)
              (check_repaired-Keeps p.id n (target p s)))
      ])
    ]

enter_ledger-Keeps :
    (c : Draws) (p : Payment) (r : Refund) (key : LedgerKey) → Keeps (enter_ledger c p r key)
enter_ledger-Keeps c p r key s =
    let q = get_or (find_by_id p.id s) p in
    >>-Keeps (ensure_refund_ledger_entry c q r key) (answer r)
      (ensure_refund_ledger_entry-Keeps c q r key) (λ t w. w) s

pub reconcile_successful_refund_record-Keeps :
    (c : Draws) (r : Refund) (known : Option LedgerEntry) (key : LedgerKey)
    → Keeps (reconcile_successful_refund_record c r known key)
unfolding reconcile_successful_refund_record find_by_id sum_successful_refund_amounts
reconcile_successful_refund_record-Keeps c r (some entry) key s v = v
reconcile_successful_refund_record-Keeps c r none key s v =
    elim (Option-cases (find payment_id_of r.payment_id s.payments)) [
      | inl absent ↦ rw absent v
      | inr (p, e) ↦
          let own = find-id payment_id_of r.payment_id s.payments p e in
          let e' = subst (λ j. find payment_id_of j s.payments ≡ some p) (sym own) e in
          rw e (
            bind-IsValid (repair_payment p (sum_successful_refund_amounts p.id s) (target p s))
              (λ _. enter_ledger c p r key) s (repair_payment-IsValid p s e' v)
              (λ _. enter_ledger-Keeps c p r key))
    ]

pub reconcile_again-Keeps :
    (c : Draws) (r : Refund) (known : Option LedgerEntry) (key : LedgerKey)
    → Keeps (reconcile_again c r known key)
unfolding reconcile_again
reconcile_again-Keeps c r known key s v =
    reconcile_successful_refund_record-Keeps c r
      (or_else known (find_ledger_by_idempotency_key key s)) key s v

pub record_settled-Keeps :
    (c : Draws) (p : Payment) (r : Refund) (n : Number) (key : LedgerKey) (q : Option Payment)
    → Keeps (record_settled c p r n key q)
record_settled-Keeps c p r n key (some q) s v =
    >>-Keeps (ensure_refund_ledger_entry c q r key) (answer r)
      (ensure_refund_ledger_entry-Keeps c q r key) (λ t w. w) s v
record_settled-Keeps c p r n key none s v =
    bind-IsValid (must_agree (find_by_id p.id s) n (refunded_status n p.amount))
      (λ _. enter_ledger c p r key) s
      (must_agree-Keeps (find_by_id p.id s) n (refunded_status n p.amount) s v)
      (λ _. enter_ledger-Keeps c p r key)
