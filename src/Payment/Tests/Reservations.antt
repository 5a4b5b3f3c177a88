-- ===== src/Payment/Tests/Reservations.antt =====
-- Instances of the theorems on reservations.
