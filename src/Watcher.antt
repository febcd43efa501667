-- ===== src/Watcher.antt =====
-- timeout/cli-watcher.go and the activity sources: the CLI watcher.
pub mod Path
pub mod Durations
pub mod Config
pub mod Sources
pub mod Load
pub mod Loop
mod Tests
