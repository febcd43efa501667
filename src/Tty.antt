-- ===== src/Tty.antt =====
-- timeout/activity_source_tty.go: the source `tty`, which looks for processes that a user works with.
-- What /proc says of a process is a parameter.
pub mod Host
pub mod Paths
pub mod Processes
pub mod Cpu
pub mod Policy
pub mod Scan
mod Tests
