-- ===== src/Facilitator.antt =====
-- packages/x402-xec-facilitator: the ledger of credit and the verification service.
pub mod Ledger
pub mod Request
pub mod Service
