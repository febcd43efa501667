-- ===== src/Utf8.antt =====
-- output/utf8stream/utf8-stream-filter.go, over a model of Go's `unicode/utf8`.
pub mod Runes
pub mod Filter
pub mod Shared
pub mod Sequences
mod Write
pub mod Total
pub mod Output
pub mod Pending
pub mod Stream
pub mod Stall
mod Tests
