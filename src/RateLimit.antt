-- ===== src/RateLimit.antt =====
-- app/ratelimit: the circuit breaker, the token bucket and the adaptive rate.
pub mod Breaker
pub mod Bucket
pub mod Adaptive
pub mod Retry
mod Tests
mod Examples
