-- ===== src/Triggers.antt =====
-- The triggers that start runs: by the clock, by a call from outside, by hand.
pub mod Cron
pub mod Webhook
pub mod Manual
