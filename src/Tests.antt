-- ===== src/Tests.antt =====
-- Tests, and the theorems at concrete inputs, over a platform and a host held in memory.
mod Desk
mod Model
mod Consents
mod Safe
mod VaultModel
mod Vaults
mod Notation
mod Groups
mod Seals
mod Disk
mod Sidecars
mod Migrations
mod Resumes
mod Rollbacks
mod Disposals
mod Logs
mod Calls
mod Plans
