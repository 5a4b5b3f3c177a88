-- ===== src/Pricing.antt =====
-- Customer prices: src/modules/pricing/customer-delivery-pricing.ts.
-- An amount is a whole number of paise (the columns are Decimal(12, 2)), and a fee percentage is
-- whole (platformServiceFeePercentSchema). So `Math.round(v * 100) / 100` rounds a number of
-- hundredths of a paisa to paise, halves upwards.
pub mod Rounding
pub mod Snapshots
mod Tests
use doot_backend.Base.{ℕ, ◌+◌, ◌*◌, ◌/◌, Option, none, some, String}

abbrev pub legacy_default_platform_fee_percent : ℕ
legacy_default_platform_fee_percent = 10

abbrev pub gst_percent : ℕ
gst_percent = 18

pub record CustomerDeliveryPricing : Type 0 where
  pub provider_quote_amount : ℕ
  pub platform_fee_percent : ℕ
  pub platform_fee_amount : ℕ
  pub subtotal : ℕ
  pub gst_percent : ℕ
  pub gst_amount : ℕ
  pub customer_payable_amount : ℕ

-- From hundredths of a paisa to paise.
unfoldable pub round_currency : ℕ → ℕ
round_currency value = (value + 50) / 100

unfoldable pub calculate_customer_delivery_pricing : ℕ → ℕ → CustomerDeliveryPricing
calculate_customer_delivery_pricing quote percent =
    let fee = round_currency (quote * percent) in
    let sub = round_currency ((quote + fee) * 100) in
    let gst = round_currency (sub * gst_percent) in
    record {
      provider_quote_amount = quote;
      platform_fee_percent = percent;
      platform_fee_amount = fee;
      subtotal = sub;
      gst_percent = gst_percent;
      gst_amount = gst;
      customer_payable_amount = round_currency ((sub + gst) * 100);
    }

-- `QuoteSnapshot` of src/modules/booking/booking.types.ts; the metadata is carried as its text.
pub record QuoteSnapshot : Type 0 where
  pub amount : ℕ
  pub currency : String
  pub provider_quote_id : Option String
  pub quoted_at : Option String
  pub provider_quote_amount : Option ℕ
  pub platform_fee_percent : Option ℕ
  pub platform_fee_amount : Option ℕ
  pub gst_amount : Option ℕ
  pub customer_payable_amount : Option ℕ
  pub provider_metadata : Option String

unfoldable pub enrich_quote_snapshot_with_customer_pricing : QuoteSnapshot → ℕ → QuoteSnapshot
enrich_quote_snapshot_with_customer_pricing snapshot percent =
    let pricing = calculate_customer_delivery_pricing snapshot.amount percent in
    record snapshot {
      provider_quote_amount = some pricing.provider_quote_amount;
      platform_fee_percent = some pricing.platform_fee_percent;
      platform_fee_amount = some pricing.platform_fee_amount;
      gst_amount = some pricing.gst_amount;
      customer_payable_amount = some pricing.customer_payable_amount;
    }

-- Every number of the model is finite, so `Number.isFinite` always holds.
unfoldable pub resolve_customer_payable_amount : QuoteSnapshot → ℕ
resolve_customer_payable_amount snapshot = elim (snapshot.customer_payable_amount) [
  | some payable ↦ payable
  | none ↦
      (calculate_customer_delivery_pricing snapshot.amount
        legacy_default_platform_fee_percent).customer_payable_amount
]
