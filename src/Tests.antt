-- ===== src/Tests.antt =====
-- Runs at concrete inputs, and the theorems at them.
mod Merge
mod Loop
mod Rules
mod Services
mod Scheduler
mod Ir
mod Broadcast
mod Replay
mod Triggers
mod Webhook
mod Tools
mod Hash
mod Driven
