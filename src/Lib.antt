-- ===== src/Lib.antt =====
-- x402-XEC: payments in eCash for HTTP resources. A server issues an invoice and answers 402; a
-- wallet pays it on chain and sends a settlement proof, which the server checks against its own
-- store and a Chronik index before it serves the resource; or a payer signs an authorization,
-- which a facilitator verifies and debits from a funding output.
--
-- Parts and files:
-- - packages/x402-xec-core/src/schemas.ts, canonicalize.ts, resource.ts, invoice.ts:
--   Core/Schemas, Core/Canonical, Core/Resource, Core/Invoice. JSON is a data type; a zod
--   schema is a function to Option; SHA-256 and the URL parser are the parameter Platform.
-- - packages/x402-xec-core/src/invoice-store.ts: Core/InvoiceStore. The maps of the class are
--   the fields of Store, each method a function of it: issue, issue_with_allocation,
--   commit_paid and the getters. The lock makes a method one step; Histories has every order of
--   steps.
-- - packages/x402-xec-core/src/chronik.ts, cashaddr.ts: Core/Chronik, Core/CashAddr. The index
--   that is asked and the address library are parameters.
-- - packages/x402-xec-core/src/settlement-verifier.ts: Core/SettlementVerifier.
--   verifySettlementProof is gather_evidence, which reads the store, and commit_evidence, which
--   may find another store, since other requests run between.
-- - packages/x402-xec-core/src/nonce-store.ts, authorization.ts: Core/NonceStore,
--   Core/Authorization. The nonce store is a parameter of verify_authorization.
-- - packages/x402-xec-facilitator/src/ledger.ts, schemas.ts, facilitator.ts:
--   Facilitator/Ledger, Facilitator/Request, Facilitator/Service.
-- - packages/x402-xec-core/src/sqlite-invoice-store.ts: Core/SqliteStore. The table is a list
--   of rows, a method a function of it, since BEGIN IMMEDIATE runs a transaction alone; the
--   engine says whether a statement runs and which UNIQUE constraint fails.
--   Core/SettlementContract is what both stores promise of commitPaid, a relation and a record
--   that clients take.
-- - packages/x402-xec-core/src/approval-context.ts: Core/ApprovalContext.
-- - packages/x402-xec-agent-bridge/src/bridge.ts, types.ts, errors.ts: AgentBridge/Bridge. A
--   Run holds what one call draws from outside, with what other calls do to the replay cache at
--   its two awaits; the time to live of an intent and the timestamps of tonalli-core are
--   natural numbers.
-- - packages/x402-xec-transactions/src/index.ts: Transactions.
-- - packages/x402-xec-payments/src/index.ts: Payments/Preparer.
-- - packages/x402-xec-payments/src/chronik-utxo-provider.ts: Payments/ChronikUtxos.
-- - packages/x402-xec-axios/src/interceptor.ts: Axios/Interceptor. Its Retry runs a request
--   through the exchange of axios, which is a parameter on any state.
-- - packages/x402-xec-agent-bridge/src/replay-cache.ts: AgentBridge/ReplayCache, its History
--   and Exclusion.
-- - packages/x402-xec-payments/src/payment-policy.ts, live-payment-orchestrator.ts:
--   Payments/Policy, Payments/Orchestrator. The preparer, the approval provider and the
--   broadcaster are parameters, and execute returns the calls that it makes of the last two.
-- - Common holds strings as lists of code units, decimals, dictionaries and results; Tests the
--   runs at concrete inputs.
--
-- Numbers: amounts are bigints that the schemas demand to be positive, so natural numbers
-- without a bound; times and heights are JavaScript numbers that are read through
-- safe_nonnegative, the test for a safe integer; a derivation index of the in-memory store is
-- counted up by add_one, which rounds as JavaScript does from 2^53 on, and one of the SQLite
-- store by SQL, in 64-bit integers, of which node:sqlite returns no unsafe one, so as a natural
-- number. Fuel stands in two places: a request of the interceptor has as much as requests may
-- be sent, and two are enough, as its termination shows; and to_decimal has one more than the
-- number, which is enough since a division by ten makes it smaller (Common/Decimal reads every
-- number back). Every other loop is over a list or a text. Rejected promises and thrown errors
-- are results. Messages of errors are left out where the code does not read them.
--
-- Not modelled: the opening of the SQLite file, the express middleware, the wallet adapter and
-- the broadcast provider of the payments package, the xpub allocator, the examples, and all
-- network and file access. What a library does is a parameter: SQLite (Engine), ecash-lib, the
-- schemas of tonalli-core, zod's messages.
pub mod Common
pub mod AgentBridge
pub mod Axios
pub mod Core
pub mod Facilitator
pub mod Payments
pub mod Tests
pub mod Transactions
