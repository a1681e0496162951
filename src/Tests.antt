-- ===== src/Tests.antt =====
-- The theorems at concrete inputs.
mod Fixtures
mod Store
mod Bridges
mod Contract
mod Funding
mod Preparing
mod Discovery
mod Paying
mod Settlement
mod Sqlite
pub mod Facilitator
pub mod Invoices
pub mod Agents
pub mod Chain
