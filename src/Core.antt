-- ===== src/Core.antt =====
-- packages/x402-xec-core.
pub mod Json
pub mod Canonical
pub mod Schemas
pub mod Resource
pub mod Invoice
pub mod InvoiceStore
pub mod ApprovalContext
pub mod SettlementContract
pub mod SqliteStore
pub mod Chronik
pub mod CashAddr
pub mod SettlementVerifier
pub mod NonceStore
pub mod Authorization
