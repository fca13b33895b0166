-- ===== src/Lib.antt =====
-- LuminaRail backend: the money-moving core of the NGN to USDC on-ramp, modelled from its
-- TypeScript services (src/modules, src/workers).
--
-- Parts and files.
-- - Base: shared names, Boolean tests, tables as lists (lookup, update of the first row that
--   passes).
-- - Int: a Decimal column as a whole number of its smallest unit; `Decimal` is a request's
--   number, which may be NaN or infinite.
-- - Store: the enumerations and rows of prisma/schema.prisma (Store/Status, Store/Rows), the
--   calls of the database client (Store/Table), the settings (Store/Config), and actions
--   (Store/Action): a service method reads and writes a `World` and returns or throws. What was
--   written before a throw stays; `transaction` (prisma.$transaction) restores the tables, while
--   the audit log and the telemetry's map, which are written outside of it, stay.
-- - Machine: the four status machines (src/modules/orders/orders.state-machine.ts,
--   src/modules/payments/payment.state-machine.ts,
--   src/modules/settlements/settlements.state-machine.ts,
--   src/modules/refunds/refund.state-machine.ts), and histories of allowed changes
--   (Machine/Walk).
-- - Liquidity: src/modules/liquidity. Telemetry is treasury-telemetry.service.ts; Service and
--   Payout are liquidity.service.ts; Held, Invariant and Safety carry the invariant; Trace runs
--   sequences of calls; Repeat calls the consumption twice.
-- - Settlement: src/modules/settlements/settlements.service.ts. Service is creation and lookup,
--   Marks the changes of status; Creation, Claims and Flow carry their theorems.
-- - Refund: src/modules/refunds/refunds.service.ts. Create is createRefund, Execute is
--   executeRefund and processAutomaticRefund around a provider whose answer is an argument;
--   Bound, Uncaptured, Retry and Refused carry their theorems.
-- - Quote, Order: src/modules/quotes/quotes.service.ts (a quote's expiry and use, in Service;
--   Once) and src/modules/orders/orders.service.ts; Order/Changes is about an order's status.
-- - Payment: src/modules/payments/payments.service.ts (getPaymentById and verifyPayment, in
--   Verify); Outcome is about what a verified payment does to its order.
-- - Stellar: src/stellar. Encode is the two parsers of soroban/transaction.service.ts, with Digits about
--   them; Confirmation is soroban/confirmation.service.ts; Policy and Engine are
--   policy/settlement-policy.engine.ts over the small monad of Check, which ends at the first check that
--   fails, and the policy's part of signer/kms-transaction.signer.ts; Authorized and Approval are about
--   an approval.
-- - Workers: src/workers. Cleanup is reservation-cleanup.worker.ts; Reconcile is
--   reconciliation.daemon.ts (Settlement and Sweep for settlements, Payment and PaymentSweep for payments;
--   Keeping, Reports, Outcome, Thrown, Paid and Stranded carry the theorems); Settle is settlement.worker.ts (Flow for one
--   order, Sweep for the scan; Once, Marked and Completes carry the theorems). What the RPC, the
--   provider or the executor would answer is a function that the worker is given.
-- - Webhook: src/modules/webhooks/webhooks.service.ts, in Service; Events and Once are about the
--   deliveries of one event.
-- - Lock: src/infrastructure/locks/distributed-lock.service.ts, in Service, over the in-memory Redis of
--   src/infrastructure/redis/redis.mock.ts, in Redis. Live and Owners say who owns a key;
--   Refinement relates the service to an abstract map of owners, Exclusion and Trace are about
--   sequences of calls. Guard is how the workers and executeRefund use it: the answer for a lock is an
--   argument, with its log entries and its exception.
-- - A Tests file beside each part has concrete instances of its theorems.
--
-- Conventions. Ids, keys, hashes, references and error texts are only compared, so they are numbers;
-- a wallet address is a text, because the code trims and validates it. The clock is read once for a
-- call and is its argument `now`, in milliseconds. `fresh` stands for uuid() and for the ids made of
-- the time and random digits. The Decimal arithmetic is exact: decimal.js rounds at 20 significant
-- digits, which sums and differences of 18-digit columns do not reach; a refund's requested amount may
-- have more, and is compared exactly. A row lock (FOR UPDATE) changes no
-- data; a method in one transaction is one step, and where the code reads before it locks, the part
-- behind the lock is a definition of its own, so that a stale read can be stated. Every loop is over
-- a list, except the polling of Stellar/Confirmation, which counts the attempts that are left, so that
-- its fuel is the bound that the source sets itself. An exception of an RPC or provider client is one
-- value among its answers.
--
-- Not modelled: HTTP routing and validation schemas, the audit log's `details`, JSON payloads, the
-- Stellar SDK, building and simulating a transaction, the payment providers' wire formats (their
-- answers are arguments), foreign keys, and failures of the database itself.
pub mod Base
pub mod Int
pub mod Store
pub mod Machine
pub mod Liquidity
pub mod Lock
pub mod Order
pub mod Payment
pub mod Quote
pub mod Refund
pub mod Settlement
pub mod Stellar
pub mod Webhook
pub mod Workers
