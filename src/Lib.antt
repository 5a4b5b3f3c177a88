-- ===== src/Lib.antt =====
-- doot-backend runs deliveries through courier providers: it prices a quote, takes the customer's
-- payment, books the courier, follows the parcel, checks the codes at both doors, and refunds what is
-- cancelled. This library models the parts that hold its money rules and its state machines:
--   * Delivery: the status diagram of a delivery, src/modules/delivery/delivery.transitions.ts and
--     delivery-access.ts. Delivery.Diagram reads the transition table as a graph. Delivery.Tables is
--     the rows about deliveries (prisma/schema.prisma), Delivery.Lifecycle the creation and the
--     transitions of delivery.repository.ts and delivery-lifecycle.service.ts, Delivery.Trail what
--     may become of a delivery and its event log while calls run.
--   * Otp: src/modules/otp, the codes for pickup and delivery: the table, the outcome of an SMS
--     (src/infrastructure/sms/sms-outcome.ts), and in Otp.Service the four handlers of otp.service.ts.
--   * Tracking: src/modules/tracking, how polls and webhooks of providers are stored and move a
--     delivery. Driver: the move that follows an assignment, src/modules/driver/driver.service.ts.
--   * Orchestration: `orchestrate` of src/modules/orchestration/orchestration.service.ts with its
--     requests, in Fallback the tiers of orchestration.fallback-policy.ts, and in Compatibility and
--     Suitability whether a parcel suits a provider, orchestration.eligibility.ts.
--   * Booking: `confirm` of src/modules/booking/booking.service.ts, with the reading of a provider's
--     answer in Outcome.
--   * Pricing: src/modules/pricing/customer-delivery-pricing.ts, what the customer pays for a quote.
--   * Payment: src/modules/payment. Types and Transitions are the rows and the transition tables;
--     Number is the JavaScript numbers that stand for amounts; Store is the tables of the database
--     and the calls on them; Repository is
--     payment.repository.ts; Service is payment.service.ts, one child module for each of its parts
--     (RefundSteps, Settlement, Refunds, Status, Checkout, Create) with Outside for what it takes
--     from elsewhere; Webhook is webhook/payment-webhook.service.ts. Cover is the invariant of the
--     tables (the payments are covered when `IsValid` holds of the tables), Room the amounts that
--     reservations leave, Entries the ledger entries of settled refunds, Captures and Replay the calls
--     that come twice, Diagram the transition tables as graphs, Apart that refunds leave the tables
--     about deliveries alone.
--   * Cancellation: src/modules/cancellation, which deliveries may be cancelled, how a provider's
--     answer is read, the refund that follows, which is a client of the payment service, and in
--     Records and Service the rows and the handler `cancel` of cancellation.service.ts, a client of
--     all of these.
--   * Errors: the codes of src/core/errors/error-codes.ts that the services throw.
--   * Operations: the services that move deliveries together, as a relation between databases.
-- A function has the name of its TypeScript original in the spelling of this library
-- (`markPaymentPaid` is `mark_payment_paid`); a part of a function, such as a branch, a handler or the
-- body of a transaction, is a function of its own beside it.
--
-- How the code is read:
--   * Ids are UUIDs that the code only compares: numbers here. An id that the database draws for a
--     new row is an argument (`Draws` and the records named Outside), and an insert of the payment
--     service with a taken id fails on the primary key.
--   * Money in a column is a whole number of paise, as the columns are Decimal(12, 2). Where the code
--     adds, subtracts and compares amounts of refunds as JavaScript numbers, the model does too, with
--     their rounding (Payment.Number): such a number is kept with the whole paise that a column stores
--     of it, and it is off from them by less than half a paisa, as it is for the sums of some thousand
--     amounts of a Decimal(12, 2). The rows of a query are added in the order of the table's list.
--     The price of a quote is computed exactly. Coordinates are whole ten-millionths of a degree.
--   * Times are milliseconds and an argument of the call. Logs are left out, and so are the reasons
--     and the metadata of status events.
--   * A call is a function from the tables to an answer or a failure, with the tables after it:
--     what was written before a throw stays unless a transaction undoes it. A transaction is atomic.
--     The wait for a row lock, the pauses between the statements of a call and the calls of the
--     gateway or a provider are functions of its record named Outside, which may change the tables in
--     any way that the theorem at hand allows. Other places where a call could be interleaved are not
--     modelled.
--   * A unique column is checked where a row is written. In PostgreSQL a failed statement also aborts
--     its transaction; the handlers inside a transaction are modelled as they are written.
--   * Keys of ledger entries, texts built from an id, are data (`LedgerKey`). A booking's and a
--     cancellation's correlation reference, built from the delivery's reference and the number of the
--     attempt, is that number.
-- The modelled code has no loops: the tables are lists, and queries recurse on them. The fuel in
-- Payment.Number bounds the search for a number's step (64 doublings, to 2 ^ 57 rupees) and for the
-- decimals that a number prints with (38 from the second on, more than any number here has).
--
-- Not modelled: HTTP routes and validation, the gateway's and the providers' HTTP clients, the
-- signature check and event matching of webhooks, the answers and the scoring of providers in an
-- orchestration and the checks of the chosen option by a confirmation (both parameters), the
-- idempotency keys of creating a delivery and of confirming, the rows of driver assignments, the
-- listings, the simulator src/modules/dev-delivery-simulate, and the other modules of src/modules
-- (accounts, administration, ratings).
pub mod Base
pub mod Errors
pub mod Delivery
pub mod Pricing
pub mod Otp
pub mod Payment
pub mod Cancellation
pub mod Tracking
pub mod Driver
pub mod Orchestration
pub mod Booking
pub mod Operations
