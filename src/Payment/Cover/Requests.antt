-- ===== src/Payment/Cover/Requests.antt =====
-- The invariant through `createPaymentForDelivery`.
use doot_backend.Base.{
  inl, inr, not, ◌&&◌, Option, none, some, String, [], ◌∷◌, ◌==◌, ltb, Bool-cases, is_some,
}
use text.Mathlib.Text.{◌==◌ as str_eq}
use doot_backend.Delivery.{option_ready, same_status, DeliveryRow, load_authorized_delivery}
use doot_backend.Pricing.{resolve_customer_payable_amount}
use doot_backend.Payment.Types.{
  PaymentStatus, GatewayCode, Payment, CustomerPayment, to_customer_payment_dto, CreateKey,
}
use doot_backend.Payment.Transitions.{payment_in}
use doot_backend.Payment.Store.{
  Store, app_error, idempotency_conflict, payment_not_allowed, forbidden, payment_invalid_amount,
  internal_error, delivery_not_found, payment_gateway_not_configured, answer, read, or_throw,
  with_transaction, ◌>>=◌, ◌>>◌, throw_if,
}
use doot_backend.Payment.Repository.Queries.{
  find_by_id, find_by_delivery_id, find_latest_attempt, find_create_idempotency,
}
use doot_backend.Payment.Repository.Writes.{create_payment, save_create_idempotency}
use doot_backend.Payment.Service.Outside.{Draws, Outside}
use doot_backend.Payment.Service.Checkout.{needs_checkout_completion, ensure_gateway_checkout}
use doot_backend.Payment.Service.Create.{
  CreateRequest, SelectedOption, Surroundings, Pricing, price_of, resolve_authoritative_pricing,
  gateway_ready, key_row, persist_create_idempotency, respond, checkout_of, new_payment_of,
  insert_payment, complete_checkout, create_or_reuse, is_admin, create_priced, create_payment_fresh,
  replay, stored_answer, replay_or_create, create_payment_for_delivery,
}
use doot_backend.Payment.Cover.{IsValid}
use doot_backend.Payment.Cover.Rules.{
  Keeps, >>=-Keeps, >>-Keeps, with_transaction-Keeps, or_throw-Keeps, throw_if-Keeps,
}
use doot_backend.Payment.Cover.Request.{IsFairOutside}
use doot_backend.Payment.Cover.Create.{create_payment-Keeps, ensure_gateway_checkout-Keeps}

save_create_idempotency-Keeps : (x : CreateKey) → Keeps (save_create_idempotency x)
unfolding save_create_idempotency
save_create_idempotency-Keeps x s v =
    elim (Bool-cases (is_some (find_create_idempotency x.customer_id x.key s))) [
      | inl taken ↦ rw taken v
      | inr free ↦ rw free (record { sound = v.sound; owned = v.owned })
    ]

module _ (input : CreateRequest) where
  persist-Keeps :
      (response : CustomerPayment) (key : Option String)
      → Keeps (persist_create_idempotency input response key)
  persist-Keeps response none = λ s v. v
  persist-Keeps response (some key) = λ s v. elim (Bool-cases (str_eq key "")) [
    | inl empty ↦ rw empty v
    | inr given ↦ rw given (save_create_idempotency-Keeps (key_row input key response) s v)
  ]

  respond-Keeps : (payment : Payment) → Keeps (respond input payment)
  unfolding respond
  respond-Keeps payment s =
      let response = to_customer_payment_dto payment (find_latest_attempt payment.id s) in
      let keep = persist_create_idempotency input response input.idempotency_key in
      >>-Keeps keep (answer response) (persist-Keeps response input.idempotency_key) (λ t w. w) s

  module _ (o : Outside) (fair : IsFairOutside o) (c : Draws) (code : GatewayCode)
      (delivery : DeliveryRow) (pricing : Pricing) where
    insert_payment-Keeps : Keeps (insert_payment c code input delivery pricing)
    unfolding insert_payment
    insert_payment-Keeps =
        let row = new_payment_of code input delivery pricing in
        >>=-Keeps (create_payment c.payment_id row)
          (λ created. read (find_by_id created.id) >>= λ refreshed.
            or_throw refreshed (app_error internal_error 500))
          (create_payment-Keeps c.payment_id row)
          (λ created s. or_throw-Keeps (find_by_id created.id s) (app_error internal_error 500) s)

    complete_checkout-Keeps :
        (p : Payment) → Keeps (complete_checkout o c code input delivery pricing p)
    complete_checkout-Keeps p s v = elim (Bool-cases (needs_checkout_completion p)) [
      | inl more ↦
          rw more
            (ensure_gateway_checkout-Keeps o fair c code (checkout_of input delivery pricing p) s v)
      | inr done ↦ rw done v
    ]

    create_or_reuse-Keeps :
        (existing : Option Payment)
        → Keeps (create_or_reuse o c code input delivery pricing existing)
    unfolding create_or_reuse
    create_or_reuse-Keeps none =
        let insert = with_transaction (insert_payment c code input delivery pricing) in
        let checkout = λ (p : Payment).
          ensure_gateway_checkout o c code (checkout_of input delivery pricing p) in
        >>=-Keeps insert (λ p. checkout p >>= respond input)
          (with_transaction-Keeps (insert_payment c code input delivery pricing)
            insert_payment-Keeps)
          (λ p.
            >>=-Keeps (checkout p) (respond input)
              (ensure_gateway_checkout-Keeps o fair c code (checkout_of input delivery pricing p))
              respond-Keeps)
    create_or_reuse-Keeps (some p) = λ s v.
        elim (Bool-cases (
          payment_in (PaymentStatus.created ∷ PaymentStatus.pending ∷ PaymentStatus.paid ∷ [])
            p.status)) [
              | inr other ↦ rw other v
              | inl open_ ↦ rw open_ (
                  >>=-Keeps (complete_checkout o c code input delivery pricing p) (respond input)
                    (complete_checkout-Keeps p) respond-Keeps s v)
            ]

  price_of-Keeps : (option : SelectedOption) → Keeps (price_of option)
  unfolding price_of
  price_of-Keeps option =
      let quote = option.quote_snapshot in
      throw_if-Keeps (str_eq quote.currency "") (app_error payment_not_allowed 422) _ (
        throw_if-Keeps (not (ltb 0 (resolve_customer_payable_amount quote)))
          (app_error payment_invalid_amount 422) _
          (throw_if-Keeps (not (str_eq quote.currency "INR")) (app_error payment_not_allowed 422) _
            (λ s v. v)))

  resolve-Keeps : (w : Surroundings) → Keeps (resolve_authoritative_pricing w)
  unfolding resolve_authoritative_pricing
  resolve-Keeps w =
      >>=-Keeps (or_throw w.selected (app_error payment_not_allowed 422)) price_of
        (or_throw-Keeps w.selected (app_error payment_not_allowed 422)) price_of-Keeps

  replay-Keeps : (cached : CreateKey) → Keeps (replay input cached)
  replay-Keeps cached =
      throw_if-Keeps _ (app_error idempotency_conflict 409) (answer cached.response_payload)
        (λ s v. v)

  stored_answer-Keeps : (key : Option String) → Keeps (stored_answer input key)
  stored_answer-Keeps none = λ s v. v
  stored_answer-Keeps (some key) =
      λ s v. elim (Bool-cases (str_eq key "")) [ inl empty ↦ rw empty v | inr given ↦ rw given v ]

module _ (o : Outside) (fair : IsFairOutside o) (c : Draws) (w : Surroundings)
    (input : CreateRequest) where
  create_priced-Keeps :
      (delivery : DeliveryRow) (pricing : Pricing)
      → Keeps (create_priced o c w input delivery pricing)
  create_priced-Keeps delivery pricing =
      throw_if-Keeps (not (gateway_ready w.gateway_code w.cashfree_configured))
        (app_error payment_gateway_not_configured 503)
        (read (find_by_delivery_id input.delivery_id)
          >>= create_or_reuse o c w.gateway_code input delivery pricing)
        (λ s.
          create_or_reuse-Keeps input o fair c w.gateway_code delivery pricing
            (find_by_delivery_id input.delivery_id s) s)

  create_payment_fresh-Keeps : Keeps (create_payment_fresh o c w input)
  unfolding create_payment_fresh
  create_payment_fresh-Keeps =
      let loaded =
        load_authorized_delivery w.deliveries input.delivery_id input.user_id input.role in
      let stranger =
        λ (d : DeliveryRow). not (d.customer_id == input.user_id) && not (is_admin input.role) in
      let priced =
        λ (d : DeliveryRow). resolve_authoritative_pricing w >>= create_priced o c w input d in
      let permitted =
        λ (d : DeliveryRow). throw_if (stranger d) (app_error forbidden 403) >> priced d in
      >>=-Keeps (or_throw loaded (app_error delivery_not_found 404))
        (λ d.
          throw_if (not (same_status d.status option_ready)) (app_error payment_not_allowed 422)
          >> permitted d)
        (or_throw-Keeps loaded (app_error delivery_not_found 404))
        (λ d.
          throw_if-Keeps (not (same_status d.status option_ready))
            (app_error payment_not_allowed 422) (permitted d)
            (throw_if-Keeps (stranger d) (app_error forbidden 403) (priced d) (
              >>=-Keeps (resolve_authoritative_pricing w) (create_priced o c w input d)
                (resolve-Keeps input w) (create_priced-Keeps d))))

  replay_or_create-Keeps : (cached : Option CreateKey) → Keeps (replay_or_create o c w input cached)
  replay_or_create-Keeps (some cached) = replay-Keeps input cached
  replay_or_create-Keeps none = create_payment_fresh-Keeps

  -- `createPaymentForDelivery` keeps the payments covered on every branch, whatever the gateway
  -- answers or throws, so long as what others commit while it waits keeps the payments covered and
  -- moves no refund to another payment.
  pub create_payment_for_delivery-Keeps :
      (s : Store) → IsValid s → IsValid (create_payment_for_delivery o c w input s).1
  unfolding create_payment_for_delivery
  create_payment_for_delivery-Keeps =
      >>=-Keeps (stored_answer input input.idempotency_key) (replay_or_create o c w input)
        (stored_answer-Keeps input input.idempotency_key) replay_or_create-Keeps
