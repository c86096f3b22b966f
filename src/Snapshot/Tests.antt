-- ===== src/Snapshot/Tests.antt =====
-- Runs of the snapshot API on concrete data.
mod Coding
pub mod Data
mod Accounts
mod Saving
mod Serving
