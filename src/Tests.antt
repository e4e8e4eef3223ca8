-- ===== src/Tests.antt =====
-- Tests on concrete inputs, the code's own ones among them, and one use of each theorem.
mod Data
mod Prune
mod Journal
mod Chunks
mod Snapshots
mod Backup
mod Reliable
mod Play
mod Cache
mod Walk
mod Timer
mod Strings
