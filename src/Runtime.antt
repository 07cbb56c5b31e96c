-- ===== src/Runtime.antt =====
-- The runtime (runtime/src): the limiter of tasks that run at the same time.
pub mod TaskLimiter
mod Tests
