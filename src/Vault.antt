-- ===== src/Vault.antt =====
-- agent_personal_vault/vault.py
pub mod Shape
pub mod Host
pub mod Encrypted
pub mod Payload
pub mod Store
pub mod NextShape
pub mod SortedShape
pub mod Revision
pub mod Refused
pub mod History
pub mod Context
pub mod Secrecy
pub mod Hints
pub mod Planning
pub mod PlanningSecrecy
