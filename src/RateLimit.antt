-- ===== src/RateLimit.antt =====
-- backend/app/core/rate_limit.py: the window counters, the limiter over them, and the concurrency
-- gate around the hashing.
pub mod Window
pub mod Limiter
pub mod Redis
pub mod Gate
mod Samples
