-- ===== src/Pricing/Tests.antt =====
-- The price of a quote of 249.99 at a 10% fee, and instances of the theorems.
use doot_backend.Base.{◌+◌, ◌*◌, ◌≤◌, ◌≡◌, refl, none, some, arith}
use doot_backend.Pricing.{
  QuoteSnapshot, calculate_customer_delivery_pricing, round_currency,
  enrich_quote_snapshot_with_customer_pricing, resolve_customer_payable_amount,
}
use doot_backend.Pricing.Rounding.{pricing_accounts, payable_error, pricing_mono}
use doot_backend.Pricing.Snapshots.{resolve-enrich}

quote_24999 : (calculate_customer_delivery_pricing 24999 10).customer_payable_amount ≡ 32449
unfolding calculate_customer_delivery_pricing round_currency
quote_24999 = refl

pricing_accounts_example :
    let p = calculate_customer_delivery_pricing 24999 10 in
    (p.subtotal ≡ 24999 + p.platform_fee_amount)
    × (p.customer_payable_amount ≡ 24999 + p.platform_fee_amount + p.gst_amount)
pricing_accounts_example = pricing_accounts 24999 10

payable_error_example :
    let payable = (calculate_customer_delivery_pricing 24999 10).customer_payable_amount in
    (24999 * (100 + 10) * 118 ≤ payable * 10000 + 10900)
    × (payable * 10000 ≤ 24999 * (100 + 10) * 118 + 10900)
payable_error_example = payable_error 24999 10

pricing_mono_example :
    let low = calculate_customer_delivery_pricing 100 5 in
    let high = calculate_customer_delivery_pricing 101 7 in
    (low.platform_fee_amount ≤ high.platform_fee_amount)
    × (low.gst_amount ≤ high.gst_amount)
    × (low.customer_payable_amount ≤ high.customer_payable_amount)
pricing_mono_example = pricing_mono 100 101 5 7 (omega arith) (omega arith)

abbrev stale_snapshot : QuoteSnapshot
stale_snapshot = record {
  amount = 10000;
  currency = "INR";
  provider_quote_id = some "q-1";
  quoted_at = none;
  provider_quote_amount = some 10000;
  platform_fee_percent = some 25;
  platform_fee_amount = some 2500;
  gst_amount = some 2250;
  customer_payable_amount = some 14750;
  provider_metadata = none;
}

resolve-enrich_example :
    let t = enrich_quote_snapshot_with_customer_pricing stale_snapshot 10 in
    let p = calculate_customer_delivery_pricing 10000 10 in
    (resolve_customer_payable_amount t ≡ p.customer_payable_amount)
    × (t.amount ≡ 10000)
    × (t.platform_fee_percent ≡ some 10)
resolve-enrich_example = resolve-enrich stale_snapshot 10
