-- ===== src/Runtime.antt =====
-- backend/app/ops_runtime.py: the bounded primitives of the API process.
pub mod RateLimiter
pub mod Breaker
pub mod Ledger
pub mod Metrics
pub mod Publisher
