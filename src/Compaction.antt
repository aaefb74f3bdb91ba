-- ===== src/Compaction.antt =====
-- internal/compaction: which items of a history a compaction covers, keeps, replaces and drops.
pub mod Item
pub mod Tokens
pub mod Keep
pub mod Cover
pub mod Elide
pub mod Record
pub mod Window
pub mod Summary
pub mod Samples
