-- ===== src/Serve.antt =====
-- The serve layer, less its HTTP glue.
pub mod RateLimit
pub mod Scheduler
pub mod Broadcast
pub mod Driven
pub mod Lifecycle
