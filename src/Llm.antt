-- ===== src/Llm.antt =====
-- backend/app/llm: the price table, the routing tables and their configuration, and the router.
pub mod Contract
pub mod Pricing
pub mod Routes
pub mod Router
mod Samples
