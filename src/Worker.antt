-- ===== src/Worker.antt =====
-- internal/worker, internal/middleware and internal/retry.
pub mod Middleware
pub mod Chain
pub mod Retry
pub mod Pool
pub mod Settling
pub mod Quiet
pub mod Changing
pub mod Recording
pub mod Attempts
pub mod Channel
