-- ===== src/Payment/Replay.antt =====
-- `createPaymentForDelivery` called twice under one key.
use text.Mathlib.Text.{◌==◌ as str_eq}
use doot_backend.Base.{String, ◌∷◌, ◌==◌}
use doot_backend.Payment.Types.{CustomerPayment, Payment, to_customer_payment_dto}
use doot_backend.Payment.Store.{Store}
use doot_backend.Payment.Repository.Queries.{find_latest_attempt}
use doot_backend.Payment.Service.Outside.{Outside}
use doot_backend.Payment.Service.Create.{CreateRequest, key_row}

abbrev answer_of : Payment → Store → CustomerPayment
answer_of payment s = to_customer_payment_dto payment (find_latest_attempt payment.id s)

abbrev with_answer : CreateRequest → Payment → String → Store → Store
with_answer input payment key s = record s {
  create_keys = key_row input key (answer_of payment s) ∷ s.create_keys;
}
