-- ===== src/Find.antt =====
-- find/find.go: waiting for pixels to match, to change and to settle.
pub mod Poll
pub mod Read
pub mod Streak
mod Run
pub mod Settled
pub mod Prompt
pub mod Awaited
pub mod Image
pub mod Locate
pub mod Color
mod Examples
