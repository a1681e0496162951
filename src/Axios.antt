-- ===== src/Axios.antt =====
-- packages/x402-xec-axios: a client that pays when a server answers 402.
pub mod Interceptor
