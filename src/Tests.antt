-- ===== src/Tests.antt =====
-- The theorems at concrete inputs.
pub mod Data
mod Requests
mod Messages
mod Routes
mod Dialogues
mod Runs
mod Sending
mod Texts
mod Starting
mod Configured
mod Stored
mod Handled
mod Licensed
