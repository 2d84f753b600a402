-- ===== src/Tests/Disposals.antt =====
-- Disposals, at concrete inputs.
use agent_personal_vault.Prelude.{◌≡◌, refl, true, false, some, none, ◌==◌}
use agent_personal_vault.Result.{ok, err, value_error}
use agent_personal_vault.Exec.{continue}
use agent_personal_vault.Files.{vault, consent, current, backup}
use agent_personal_vault.Guard.{kdf_write_guard}
use agent_personal_vault.Privacy.{
  dispose_confirmation, Disposal, remove_state, dispose_private_state,
}
use agent_personal_vault.Privacy.Disposed.{Gone, dispose_private_state-Gone}
use agent_personal_vault.Tests.Disk.{Disk, disk_files, disk_files-FilesLaws}

-- A vault without an audit log, and a backup of an earlier migration.
abbrev disk : Disk
disk = record {
  files = λ n. elim n [
    | current vault ↦ some "{}"
    | current consent ↦ some "{}"
    | backup vault ↦ some "old"
    | _ ↦ none
  ];
}

abbrev disposal : Disposal
disposal = record { vault_removed = true; consent_removed = true; audit_removed = false }

abbrev disposed_disk : Disk
disposed_disk = (dispose_private_state disk_files false dispose_confirmation disk).1

disposed :
    dispose_private_state disk_files false dispose_confirmation disk ≡ (ok disposal, disposed_disk)
unfolding dispose_private_state kdf_write_guard remove_state continue
disposed = refl

another_phrase :
    dispose_private_state disk_files false "delete" disk
    ≡ (err (value_error "private state disposal requires the exact confirmation phrase"), disk)
unfolding dispose_private_state continue
another_phrase = refl

dispose_private_state-Gone_example :
    ((dispose_confirmation == dispose_confirmation) ≡ true)
    × Gone disk_files disk_files-FilesLaws disk disposed_disk
dispose_private_state-Gone_example =
    dispose_private_state-Gone disk_files disk_files-FilesLaws false dispose_confirmation disk
      disposed_disk disposal disposed
