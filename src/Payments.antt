-- ===== src/Payments.antt =====
-- packages/x402-xec-payments: what a client pays, and what it needs to do so.
pub mod ChronikUtxos
pub mod Policy
pub mod Preparer
pub mod Orchestrator
