-- ===== src/Restart.antt =====
-- The rolling restart of a rack: internal/controller/reconciler_restart.go. Its parts are the
-- modules below.
pub mod Sizes
pub mod Selection
pub mod InFlight
pub mod Budget
pub mod Block
pub mod PodRestart
pub mod Batch
pub mod Rolling
