-- ===== src/Samples.antt =====
-- Runs on small inputs, and the theorems of the other modules at concrete values.
pub mod Files
pub mod Processes
pub mod Runs
pub mod Names
pub mod Sessions
pub mod Texts
pub mod Tracers
pub mod Reports
pub mod Starts
pub mod Programs
pub mod Stops
