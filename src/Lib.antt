-- ===== src/Lib.antt =====
-- Agent Personal Vault: a local store of personal values whose raw access an agent obtains one key
-- at a time, with a consent token that a person has granted.
--
-- The program. A vault file holds one JSON object with the values, in plain or in an encrypted
-- envelope (agent_personal_vault/vault.py, crypto_store.py). Beside it stand two sidecars: the consent
-- file with grants and requests (consent.py), and the audit log (audit.py). A raw value is read only
-- after `prepare_consent_consumption` has found an unused and unexpired grant for exactly that action,
-- key and purpose, and has marked it as used; each such step first records itself in the audit log.
-- Without consent an agent is shown a context that says which fields are filled. Parsed JSON values are
-- held to the limits of resource_limits.py.
--
-- Which file models which part. The names of definitions are the source's; a leading underscore and the
-- name of a class are left off.
--   Schemas             schemas.py: the profile's fields, their order and defaults
--   Limits, Limits/     resource_limits.py: the worklist of `validate_json_resources` is `drain`, whose
--                       counter `remaining` is the source's own count of nodes
--   Crypto, Crypto/     crypto_store.py: the profiles; Envelope and Codec hold the fields of an
--                       envelope, its components, checks, associated data and key; Store holds the two
--                       encryptions and decryptions
--   Vault/              vault.py: Shape and Payload read a store (`validate_store_shape`,
--                       `_read_normalized_store`), Store creates and writes one (`write_store`,
--                       `load_store`), Context is what an agent is shown, Hints
--                       and Planning the hints for a task; Encrypted puts crypto_store.py
--                       below the vault
--   Consent/            consent.py: Record and State check and normalize records and the file, Grant and
--                       Create make them, Resolve approves or denies a request, Find, Use and Consume
--                       use a token, Prune and Retention remove old records
--   Audit, Audit/       audit.py: events and their redaction, `write_audit_event`, Operation is the class
--                       `AuditOperation`, Log reads, Summary counts, Sweep and Retention prune
--   Files, Files/       private_io.py as an interface: the files beside a vault, their reading and
--                       writing, and JSON files
--   Guard, Guard/       migration_guard.py: `kdf_write_guard`
--   Privacy, Privacy/   privacy.py: `prune_private_metadata` and `dispose_private_state`
--   Sidecar, Sidecar/   sidecar_store.py: Read and Write are the operations, Profile what they find of
--                       the vault; consent.py and audit.py use them in Consent/Migration and
--                       Audit/Migration
--   Migration,          kdf_migration.py: Journal is the journal and its validation, Targets, Checks and
--   Migration/          Staging prepare, Resume, Rollback and Upgrade are the commands; Loops and Held say
--                       what a loop reads and what the files of a migration hold
--   Mcp, Mcp/           mcp_server.py: the tools and the check of a call's arguments
--   Result, Exec        exceptions as values; a method is a function from the state to a result and the
--                       state after it, which comes back beside an error too
--   Python/             texts, words and JSON values as Python has them; Sorted is the key order of
--                       `json.dumps(..., sort_keys=True)`
--   Prelude             the names, tests and lemmas that the modules share
--   Tests/              platforms, storages and a cipher in memory, which meet the laws that the
--                       theorems assume, and the theorems at concrete inputs
--
-- What is a parameter. `Platform` is what the code takes from Python's library and the Unicode tables:
-- NFKC, hashes, times as text, JSON text of a line; and the heuristics of `_clean_text`, which are not
-- modelled. `Host` is the storage of the two sidecars with the clock and the random source, `VaultHost`
-- that of the vault file; sidecar_store.py, private_io.py and migration_guard.py provide them. `Files`
-- is the storage below these: private_io.py with the locks, the random source, digests, `splitlines`,
-- `==` of two dicts and the order of a set of names. `Cipher`
-- is key derivation, AES-GCM, base64 and JSON text as bytes. Their laws say what is documented: a write
-- that returns is read back; one that raises, as it may behind the replacement, when the directory is
-- synced, has replaced the whole file or nothing; the text of a log line has no line break; base64 and JSON text
-- read back; an AEAD opens what it sealed. `str.lower`, the reading of one log line by `json.loads`, and what
-- `os.urandom` gives are arguments.
--
-- Locks. A block under a lock of the source is one step, and a history of writes is a sequence of such
-- steps, as the locks exclude one another. A migration guard that is taken raises. Whether the guard is
-- held already is an argument of the operations that take it. A command that stops in the middle of a
-- migration is one whose write raises there: what is proved of the files whatever the command ends in
-- holds of each of its writes.
--
-- Bounds. Numbers are natural numbers without a bound, as Python's are; negative integers occur only as
-- JSON values and limits. A moment is a count of microseconds in UTC, with the overflow of `datetime` as
-- an error. No function runs on fuel but `drain`, where the counter is the source's. Texts are sequences
-- of Unicode scalar values, and a log is UTF-8.
--
-- A dict over the names of a migration's members is a record, as the vault is always there; a dict that
-- is written has its keys in the order in which the source creates them.
--
-- Not modelled. The files of the operating system, the normalization of values in vault.py, the calls
-- behind the tools of mcp_server.py, the listings of consent.py, a lone surrogate in a text, which
-- `json.loads` gives for its escape, and the command line and the graphical interface, which print what
-- the modelled operations return.
pub mod Prelude
pub mod Result
pub mod Exec
pub mod Python
pub mod Limits
pub mod Platform
pub mod Files
pub mod Guard
pub mod Sidecar
pub mod Migration
pub mod Privacy
pub mod Host
pub mod Audit
pub mod Consent
mod Tests
pub mod Schemas
pub mod Crypto
pub mod Vault
pub mod Mcp
