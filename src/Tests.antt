-- ===== src/Tests.antt =====
-- Concrete inputs at which the theorems' hypotheses hold.
pub mod Demo
mod Handlers
mod Queue
mod Dispatch
mod Screen
mod Startup
mod Hook
mod Util
mod Events
mod Interleave
pub mod Shared
mod Exclusion
mod Shutdown
mod History
mod Exit
