-- ===== src/Payment/Service.antt =====
-- The payment service, src/modules/payment/payment.service.ts: the transactions of a refund, and
-- the calls made of them.
pub mod Outside
pub mod RefundSteps
pub mod Settlement
pub mod Refunds
pub mod Status
pub mod Checkout
pub mod Create
