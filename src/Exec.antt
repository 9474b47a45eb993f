-- ===== src/Exec.antt =====
-- Running the commands: src/exec.
pub mod DependencyMap
pub mod Scheduler
