-- ===== src/Tests.antt =====
-- The theorems at concrete inputs, and small runs of the definitions.
pub mod Config
mod Scheduler
mod Limits
mod Runs
mod Workers
mod Logs
mod Files
mod Restarts
mod Together
mod Goroutines
