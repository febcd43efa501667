-- ===== src/Proc.antt =====
-- timeout/procutil.go: what /proc says of processes and of the system.
pub mod Numbers
pub mod Stat
pub mod Clock
mod Tests
