-- ===== src/Consent.antt =====
-- agent_personal_vault/consent.py
pub mod Record
pub mod State
pub mod Find
pub mod Grant
pub mod Create
pub mod Resolve
pub mod Consume
pub mod Use
pub mod Migration
pub mod Prune
pub mod Retention
pub mod Inversion
pub mod Conditions
pub mod FindLaws
pub mod Normal
pub mod Once
pub mod Stored
pub mod StoredRequests
pub mod ForToken
pub mod Redaction
pub mod Pruning
pub mod PruneFile
