-- ===== src/Workloads.antt =====
-- pkg/workloads: what runs the workloads.
pub mod Manager
pub mod Processes
pub mod Process
pub mod CrdWatcher
