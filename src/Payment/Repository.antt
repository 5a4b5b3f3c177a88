-- ===== src/Payment/Repository.antt =====
-- The payment repository, src/modules/payment/payment.repository.ts: what it reads, and what it
-- writes.
pub mod Queries
pub mod Writes
pub mod RefundWrites
