-- ===== src/Quota.antt =====
-- The limiters that guard the quotas of the odds and fixture providers.
pub mod RequestLimiter
pub mod TokenBucket
mod Tests
