-- ===== src/Payment.antt =====
-- Payments and refunds: src/modules/payment.
pub mod Apart
pub mod Types
pub mod Transitions
pub mod Number
pub mod Store
pub mod Repository
pub mod Service
pub mod Webhook
pub mod Cover
pub mod Diagram
pub mod Replay
pub mod Room
pub mod Captures
pub mod Entries
pub mod Tests
