-- ===== src/Payment/Entries.antt =====
-- The ledger entry of a refund, through each part of `markRefundSuccessful`.
use mathlib.Core.Path.{subst}
use text.Mathlib.TextPositions.{eq_refl}
use doot_backend.Base.Table.{find}
use doot_backend.Base.{
  ℕ, if◌then◌else◌, ◌≡◌, refl, sym, ◌∙◌, inl, inr, true, not, Option, none, some, ◌∷◌, arith,
  Bool-cases, Option-cases, is_some, get_or,
}
use doot_backend.Payment.Number.{Number, number_of, plus, is_refund_within_paid_amount}
use doot_backend.Payment.Types.{RefundStatus, Payment, Refund, LedgerKey, LedgerEntry, same_key}
use doot_backend.Payment.Transitions.{same_refund_status, can_transition_payment}
use doot_backend.Payment.Store.{
  Store, Failure, Result, UniqueColumn, unique_violation, app_error, row_missing, other_error,
  payment_not_found, refund_exceeds_paid, payment_invalid_transition, refund_not_found,
  refund_invalid_transition, ok, err, Db, answer, throw, read, or_throw, catching, throw_if, ◌>>=◌,
  ◌>>◌, >>=-inv, answer-inv,
}
use doot_backend.Payment.Repository.Queries.{
  entry_id_of, find_by_id, find_refund_by_id, find_ledger_by_idempotency_key,
  sum_successful_refund_amounts,
}
use doot_backend.Payment.Repository.Writes.{update_payment_status}
use doot_backend.Payment.Repository.RefundWrites.{
  NewLedgerEntry, ledger_row, create_ledger_entry, update_refund_status,
}
use doot_backend.Payment.Service.Outside.{Draws}
use doot_backend.Payment.Service.Settlement.{
  refund_entry, on_ledger_conflict, ensure_refund_ledger_entry, refund_patch_of, refunded_patch,
  refunded_status, must_agree, repair_payment, enter_ledger, reconcile_successful_refund_record,
  reconcile_again, Settling, record_settled, settle_payment, after_refund_update, settle_refund,
  finalize_after_lock,
}

-- The ledger has an entry with the key.
abbrev pub IsEntered : LedgerKey → Store → Type 0
IsEntered key s = is_some (find_ledger_by_idempotency_key key s) ≡ true

-- When the call answers, the entry is there.
abbrev Enters : {A : Type 0} → LedgerKey → Db A → Type 0
Enters {A} key m = (s t : Store) (a : A) → m s ≡ (ok a, t) → IsEntered key t

module _ {A B : Type 0} (key : LedgerKey) where
  bind-Enters : (m : Db A) (f : A → Db B) → ((a : A) → Enters key (f a)) → Enters key (m >>= f)
  bind-Enters m f h s u b e = let (a, t, first, second) = >>=-inv m f s u b e in h a t u b second

  then-Enters : (m : Db A) (b : B) → Enters key m → Enters key (m >> answer b)
  then-Enters m b h s u x e =
      let (a, t, first, second) = >>=-inv m (λ _. answer b) s u x e in
      subst (IsEntered key) (answer-inv b x t u second).1 (h s t a first)

  query_from :
      (f : B → Db A) (n : Db A) (s t : Store) (a : A) (o : Option B)
      → ((b : B) → o ≡ some b → f b s ≡ (ok a, t) → IsEntered key t)
      → Enters key n
      → (elim o as (λ _. Db A) [ some b ↦ f b | none ↦ n ]) s ≡ (ok a, t)
      → IsEntered key t
  query_from f n s t a none hf hn e = hn s t a e
  query_from f n s t a (some b) hf hn e = hf b refl e

  query-Enters :
      (q : Store → Option B) (f : B → Db A) (n : Db A)
      → ((s t : Store) (a : A) (b : B) → q s ≡ some b → f b s ≡ (ok a, t) → IsEntered key t)
      → Enters key n
      → Enters key (read q >>= λ o. elim o as (λ _. Db A) [ some b ↦ f b | none ↦ n ])
  query-Enters q f n hf hn s t a e = query_from f n s t a (q s) (λ b. hf s t a b) hn e

-- An entry that was found is there when nothing is written.
found-IsEntered :
    {A : Type 0}
    → (key : LedgerKey) (s t : Store) (a b : A) (x : LedgerEntry)
    → find_ledger_by_idempotency_key key s ≡ some x
    → answer b s ≡ (ok a, t)
    → IsEntered key t
found-IsEntered key s t a b x found e =
    subst (IsEntered key) (answer-inv b a s t e).1 (rw found refl)

same_key_refl : (k : LedgerKey) → same_key k k ≡ true
same_key_refl (LedgerKey.payment_paid a) = ground arith
same_key_refl (LedgerKey.refund a) = ground arith
same_key_refl (LedgerKey.given a) = eq_refl a

create_ledger_entry-Enters :
    (k : ℕ) (input : NewLedgerEntry) → Enters input.idempotency_key (create_ledger_entry k input)
unfolding create_ledger_entry find_ledger_by_idempotency_key
create_ledger_entry-Enters k input s t a e =
    elim (Bool-cases (is_some (find entry_id_of k s.ledger))) [
      | inl used ↦
          let ran : create_ledger_entry k input s
              ≡ (err (unique_violation UniqueColumn.primary_key), s) =
            rw used refl in
          cc (sym ran ∙ e)
      | inr fresh ↦
          elim (Bool-cases (is_some (find_ledger_by_idempotency_key input.idempotency_key s))) [
            | inl taken ↦
                let ran : create_ledger_entry k input s
                    ≡ (err (unique_violation UniqueColumn.ledger_idempotency_key), s) =
                  rw fresh (rw taken refl) in
                cc (sym ran ∙ e)
            | inr free ↦
                let ran : create_ledger_entry k input s ≡ (
                  ok (ledger_row k input),
                  record s { ledger = ledger_row k input ∷ s.ledger },
                ) =
                  rw fresh (rw free refl) in
                let same =
                  (answer-inv (ledger_row k input) a
                    (record s { ledger = ledger_row k input ∷ s.ledger }) t (sym ran ∙ e)).1 in
                subst (IsEntered input.idempotency_key) same
                  (rw (same_key_refl input.idempotency_key) refl)
          ]
    ]

on_ledger_conflict-Enters : (key : LedgerKey) (e : Failure) → Enters key (on_ledger_conflict key e)
unfolding on_ledger_conflict
on_ledger_conflict-Enters key (unique_violation column) =
    query-Enters key (find_ledger_by_idempotency_key key) (λ _. answer tt)
      (throw (unique_violation column)) (λ s t a x found e. found-IsEntered key s t a tt x found e)
      (λ s t a e. cc e)
on_ledger_conflict-Enters key (app_error code status) = λ s t a e. cc e
on_ledger_conflict-Enters key row_missing = λ s t a e. cc e
on_ledger_conflict-Enters key other_error = λ s t a e. cc e

catching-Enters :
    {A : Type 0}
    → (key : LedgerKey) (m : Db A) (f : Failure → Db A) → Enters key m
    → ((e : Failure) → Enters key (f e))
    → Enters key (catching m f)
catching-Enters {A} key m f h k s t a e = go (m s) refl e
  where
    go :
        (x : Result A × Store)
        → m s ≡ x
        → (let (r, u) = x in
            elim r as (λ _. Result A × Store) [ ok b ↦ (ok b, u) | err e' ↦ f e' u ])
          ≡ (ok a, t)
        → IsEntered key t
    go (ok b, u) at same = h s t a (at ∙ same)
    go (err e', u) at same = k e' u t a same

ensure_refund_ledger_entry-Enters :
    (c : Draws) (p : Payment) (r : Refund) (key : LedgerKey)
    → Enters key (ensure_refund_ledger_entry c p r key)
unfolding ensure_refund_ledger_entry
ensure_refund_ledger_entry-Enters c p r key =
    let write = create_ledger_entry c.ledger_id (refund_entry p r key) in
    query-Enters key (find_ledger_by_idempotency_key key) (λ _. answer tt)
      (catching (write >> answer tt) (on_ledger_conflict key))
      (λ s t a x found e. found-IsEntered key s t a tt x found e)
      (catching-Enters key (write >> answer tt) (on_ledger_conflict key)
        (then-Enters key write tt (create_ledger_entry-Enters c.ledger_id (refund_entry p r key)))
        (on_ledger_conflict-Enters key))

module _ (c : Draws) (key : LedgerKey) where
  enter_ledger-Enters : (p : Payment) (r : Refund) → Enters key (enter_ledger c p r key)
  enter_ledger-Enters p r s =
      let q = get_or (find_by_id p.id s) p in
      then-Enters key (ensure_refund_ledger_entry c q r key) r
        (ensure_refund_ledger_entry-Enters c q r key) s

  -- An entry that was found is there, and else the repair writes it.
  reconcile_again-Enters : (r : Refund) → Enters key (reconcile_again c r none key)
  unfolding reconcile_again reconcile_successful_refund_record
  reconcile_again-Enters r s t a e = elim (Option-cases (find_ledger_by_idempotency_key key s)) [
    | inr (x, found) ↦
        let ran : reconcile_again c r none key s ≡ (ok r, s) = rw found refl in
        subst (IsEntered key) (answer-inv r a s t (sym ran ∙ e)).1 (rw found refl)
    | inl absent ↦
        let repaired = λ (p : Payment). read (sum_successful_refund_amounts p.id) >>= λ n.
        repair_payment p n (refunded_status n p.amount) >>= λ _. enter_ledger c p r key in
        let ran : reconcile_again c r none key s
            ≡ (read (find_by_id r.payment_id) >>= λ o.
                  or_throw o (app_error payment_not_found 404) >>= repaired)
                s =
          rw absent refl in
        bind-Enters key (read (find_by_id r.payment_id))
          (λ o. or_throw o (app_error payment_not_found 404) >>= repaired)
          (λ o. bind-Enters key (or_throw o (app_error payment_not_found 404)) repaired (λ p.
            bind-Enters key (read (sum_successful_refund_amounts p.id))
              (λ n. repair_payment p n (refunded_status n p.amount) >>= λ _. enter_ledger c p r key)
              (λ n.
                bind-Enters key (repair_payment p n (refunded_status n p.amount))
                  (λ _. enter_ledger c p r key) (λ _. enter_ledger-Enters p r))))
          s t a (sym ran ∙ e)
  ]

  record_settled-Enters :
      (p : Payment) (r : Refund) (n : Number) (q : Option Payment)
      → Enters key (record_settled c p r n key q)
  record_settled-Enters p r n (some q) =
      then-Enters key (ensure_refund_ledger_entry c q r key) r
        (ensure_refund_ledger_entry-Enters c q r key)
  record_settled-Enters p r n none =
      bind-Enters key (read (find_by_id p.id))
        (λ o. must_agree o n (refunded_status n p.amount) >>= λ _. enter_ledger c p r key)
        (λ o.
          bind-Enters key (must_agree o n (refunded_status n p.amount))
            (λ _. enter_ledger c p r key) (λ _. enter_ledger-Enters p r))

  settle_payment-Enters :
      (p : Payment) (r : Refund) (n : Number) → Enters key (settle_payment c p r n key)
  unfolding settle_payment
  settle_payment-Enters p r n =
      bind-Enters key
        (update_payment_status (refunded_patch p.id (refunded_status n p.amount) n.paise))
        (record_settled c p r n key) (record_settled-Enters p r n)

  -- A success by now is repaired, and anything else throws.
  after_refund_update-Enters :
      (p : Payment) (k : ℕ) (n : Number) (o : Option Refund)
      → Enters key (after_refund_update c p k n none key o)
  unfolding after_refund_update
  after_refund_update-Enters p k n (some r) = settle_payment-Enters p r n
  after_refund_update-Enters p k n none =
      let refused = app_error refund_invalid_transition 409 in
      let checked = λ (r : Refund).
        throw_if (not (same_refund_status r.status RefundStatus.success)) refused
        >> reconcile_again c r none key in
      bind-Enters key (read (find_refund_by_id k)) (λ o. or_throw o refused >>= checked)
        (λ o. bind-Enters key (or_throw o refused) checked (λ r.
          bind-Enters key
            (throw_if (not (same_refund_status r.status RefundStatus.success)) refused)
            (λ _. reconcile_again c r none key) (λ _. reconcile_again-Enters r)))

  settle_refund-Enters :
      (input : Settling) (k : ℕ) (r : Refund) → Enters key (settle_refund c input k r none key)
  unfolding settle_refund
  settle_refund-Enters input k r =
      let over = λ (p : Payment).
        throw_if
          (not (
            is_refund_within_paid_amount p.amount (number_of p.refunded_amount)
              (number_of r.amount)))
          (app_error refund_exceeds_paid 409) in
      let barred = λ (p : Payment).
        throw_if
          (not (
            can_transition_payment p.status
              (refunded_status (plus (number_of p.refunded_amount) (number_of r.amount)) p.amount)))
          (app_error payment_invalid_transition 409) in
      let update =
        update_refund_status
          (refund_patch_of c r.id input.gateway_refund_id input.gateway_refund_reference) in
      let rest = λ (p : Payment).
        update
        >>= after_refund_update c p r.id (plus (number_of p.refunded_amount) (number_of r.amount))
            none key in
      bind-Enters key (read (find_by_id k))
        (λ o. or_throw o (app_error payment_not_found 404) >>= λ p.
          over p >>= λ _. barred p >>= λ _. rest p)
        (λ o.
          bind-Enters key (or_throw o (app_error payment_not_found 404))
            (λ p. over p >>= λ _. barred p >>= λ _. rest p)
            (λ p.
              bind-Enters key (over p) (λ _. barred p >>= λ _. rest p)
                (λ _.
                  bind-Enters key (barred p) (λ _. rest p)
                    (λ _.
                      bind-Enters key update
                        (after_refund_update c p r.id
                          (plus (number_of p.refunded_amount) (number_of r.amount)) none key)
                        (after_refund_update-Enters p r.id
                          (plus (number_of p.refunded_amount) (number_of r.amount)))))))

-- Under the lock, with no ledger entry of the refund known from before it, the part of
-- `markRefundSuccessful` that settles the refund answers only when the ledger has the refund's entry:
-- the money is never marked as paid back without it, on the repairing branches either.
pub finalize_after_lock-IsEntered :
    (c : Draws) (input : Settling) (before r : Refund) (s t : Store)
    → finalize_after_lock c input before none s ≡ (ok r, t)
    → IsEntered (LedgerKey.refund before.id) t
unfolding finalize_after_lock
finalize_after_lock-IsEntered c input before r s t =
    let key = LedgerKey.refund before.id in
    let settle = λ (q : Refund).
      if same_refund_status q.status RefundStatus.success
      then reconcile_again c q none key
      else settle_refund c input before.payment_id q none key in
    bind-Enters key (read (find_refund_by_id input.refund_id))
      (λ o. or_throw o (app_error refund_not_found 404) >>= settle)
      (λ o. bind-Enters key (or_throw o (app_error refund_not_found 404)) settle (λ q.
        elim (Bool-cases (same_refund_status q.status RefundStatus.success)) [
          | inl done ↦ rw done (reconcile_again-Enters c key q)
          | inr open_ ↦ rw open_ (settle_refund-Enters c key input before.payment_id q)
        ]))
      s t r
