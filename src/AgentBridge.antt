-- ===== src/AgentBridge.antt =====
-- packages/x402-xec-agent-bridge: what keeps an agent from authorizing a payment twice.
pub mod Bridge
pub mod ReplayCache
