-- ===== src/Pricing/Snapshots.antt =====
-- Prices stored in a quote snapshot, and read from it: src/modules/pricing/customer-delivery-pricing.ts.
use doot_backend.Base.{ℕ, ◌≡◌, refl, some}
use doot_backend.Pricing.{
  QuoteSnapshot, calculate_customer_delivery_pricing, enrich_quote_snapshot_with_customer_pricing,
  resolve_customer_payable_amount,
}

-- Enriching a snapshot freezes the price: whatever fee the snapshot was priced with before, the
-- amount that payment resolves is the price at the fee of this call, and the quote is kept.
pub resolve-enrich :
    (s : QuoteSnapshot) (percent : ℕ)
    → let t = enrich_quote_snapshot_with_customer_pricing s percent in
      let p = calculate_customer_delivery_pricing s.amount percent in
      (resolve_customer_payable_amount t ≡ p.customer_payable_amount)
      × (t.amount ≡ s.amount)
      × (t.platform_fee_percent ≡ some percent)
unfolding enrich_quote_snapshot_with_customer_pricing resolve_customer_payable_amount
    calculate_customer_delivery_pricing
resolve-enrich s percent = (refl, refl, refl)
