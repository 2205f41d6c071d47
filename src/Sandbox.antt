-- ===== src/Sandbox.antt =====
-- core/sandbox: the deadline of a container, and the removal of orphaned containers.
pub mod Watchdog
pub mod Reaper
pub mod Spec
mod Samples
