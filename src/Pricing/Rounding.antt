-- ===== src/Pricing/Rounding.antt =====
-- The sums and the rounding of a price: src/modules/pricing/customer-delivery-pricing.ts.
use doot_backend.Base.{ℕ, ◌+◌, ◌*◌, ◌≤◌, ◌≡◌, arith}
use doot_backend.Pricing.{round_currency, calculate_customer_delivery_pricing}

round_currency_bounds :
    (v : ℕ) → (v ≤ round_currency v * 100 + 49) × (round_currency v * 100 ≤ v + 50)
unfolding round_currency
round_currency_bounds v = (omega arith, omega arith)

round_currency_exact : (n : ℕ) → round_currency (n * 100) ≡ n
unfolding round_currency
round_currency_exact n = omega arith

ruleset rounding = (arith, round_currency_exact)

-- What the customer pays is the provider's quote, the platform fee and the tax, with nothing lost:
-- the subtotal and the total are not rounded again.
pub pricing_accounts :
    (quote percent : ℕ)
    → let p = calculate_customer_delivery_pricing quote percent in
      (p.subtotal ≡ quote + p.platform_fee_amount)
      × (p.customer_payable_amount ≡ quote + p.platform_fee_amount + p.gst_amount)
unfolding calculate_customer_delivery_pricing
pricing_accounts quote percent = grind rounding

-- The payable amount is within 1.09 paise of the exact price, which is the quote raised by the fee
-- and then by 18% tax (all in ten-thousandths of a paisa).
pub payable_error :
    (quote percent : ℕ)
    → let payable = (calculate_customer_delivery_pricing quote percent).customer_payable_amount in
      (quote * (100 + percent) * 118 ≤ payable * 10000 + 10900)
      × (payable * 10000 ≤ quote * (100 + percent) * 118 + 10900)
unfolding calculate_customer_delivery_pricing round_currency
payable_error quote percent = omega arith

-- A higher quote or a higher fee never lowers any part of the price.
pub pricing_mono :
    (q q' p p' : ℕ)
    → q ≤ q'
    → p ≤ p'
    → let low = calculate_customer_delivery_pricing q p in
      let high = calculate_customer_delivery_pricing q' p' in
      (low.platform_fee_amount ≤ high.platform_fee_amount)
      × (low.gst_amount ≤ high.gst_amount)
      × (low.customer_payable_amount ≤ high.customer_payable_amount)
unfolding calculate_customer_delivery_pricing round_currency
pricing_mono q q' p p' h k = let m : q * p ≤ q' * p' = grind arith in omega arith
