-- ===== src/Tests/Sidecars.antt =====
-- The theorems of the sidecars and of the migration guard at concrete inputs.
use agent_personal_vault.Prelude.{◌≡◌, ◌≤◌, refl, inl, arith, true, ltb, false, none, some}
use agent_personal_vault.Result.{Error, ok, err, ◌>>=◌}
use agent_personal_vault.Exec.{continue}
use agent_personal_vault.Python.Json.{Json, obj, get}
use agent_personal_vault.Python.Sorted.{sorted_fields, insert}
use agent_personal_vault.Python.Text.{size, utf8_size}
use agent_personal_vault.Crypto.RoundTrip.{encrypt_store_payload-profile}
use agent_personal_vault.Limits.{
  max_private_json_bytes, validate_json_resources, require_text_limit,
}
use agent_personal_vault.Crypto.{argon2id_v2_profile, is_encrypted_payload, encryption_profile}
use agent_personal_vault.Crypto.Equal.{profile_eq}
use agent_personal_vault.Crypto.Store.{encrypt_sidecar_payload, seal_parts}
use agent_personal_vault.Files.{vault, consent, current, journal}
use agent_personal_vault.Files.Load.{read_private_json, read_private_json-reads}
use agent_personal_vault.Guard.{kdf_write_guard}
use agent_personal_vault.Guard.Blocked.{kdf_write_guard_blocks}
use agent_personal_vault.Sidecar.{
  validated_vault_passphrase, vault_uses_encryption, required_passphrase, sidecar_protection,
}
use agent_personal_vault.Sidecar.Profile.{choose_profile, vault_profile}
use agent_personal_vault.Crypto.Codec.{envelope_of}
use agent_personal_vault.Sidecar.Read.{read_sidecar_bytes}
use agent_personal_vault.Sidecar.Write.{write_sidecar_bytes}
use agent_personal_vault.Sidecar.Saved.{Sealed, write_sidecar_bytes-Sealed}
use agent_personal_vault.Sidecar.RoundTrip.{read-write_sidecar_bytes}
use agent_personal_vault.Sidecar.Bounds.{read_sidecar_bytes_bounded}
use agent_personal_vault.Tests.Notation.{dumps_text, loads-dumps_text, loads-one_line}
use agent_personal_vault.Tests.Seals.{
  zeros, cipher, cipher-CipherLaws, profile_store, salt, nonce, envelope, envelope_made,
  envelope_opened, passphrase,
}
use agent_personal_vault.Tests.Disk.{
  Disk, read_option-some, set_file, disk_files, disk_files-FilesLaws,
}

-- An encrypted vault and no sidecar.
abbrev disk : Disk
disk = record { files = λ n. elim n [ current vault ↦ some (dumps_text envelope) | _ ↦ none ] }

abbrev written : Disk
written =
    (write_sidecar_bytes disk_files false (current consent) "one line" "consent" (some passphrase)
      disk).1

envelope_size : ltb max_private_json_bytes (size (dumps_text envelope)) ≡ false
unfolding dumps_text envelope_of seal_parts sorted_fields insert
envelope_size = refl

envelope_valid : validate_json_resources envelope ≡ ok tt
unfolding validate_json_resources envelope_of seal_parts ◌>>=◌ require_text_limit utf8_size
    dumps_text sorted_fields insert
envelope_valid = refl

vault_read : read_private_json disk_files (current vault) disk ≡ ok envelope
vault_read =
    read_private_json-reads disk_files (current vault) disk (dumps_text envelope) envelope
      (rw (envelope_size) refl) (loads-dumps_text envelope) envelope_valid

envelope_facts :
    (is_encrypted_payload envelope ≡ ok true)
    × (encryption_profile cipher.float_equals envelope ≡ ok argon2id_v2_profile)
envelope_facts =
    encrypt_store_payload-profile cipher cipher-CipherLaws profile_store passphrase false
      argon2id_v2_profile salt nonce envelope envelope_made

uses_encryption : vault_uses_encryption disk_files disk ≡ ok true
unfolding vault_uses_encryption is_encrypted_payload ◌>>=◌ get envelope_of seal_parts
uses_encryption = rw (vault_read) refl

passphrase_selected : required_passphrase (some passphrase) none ≡ ok passphrase
unfolding required_passphrase
passphrase_selected = refl

validated : validated_vault_passphrase disk_files envelope (some passphrase) ≡ ok passphrase
unfolding validated_vault_passphrase ◌>>=◌
validated = rw (passphrase_selected, envelope_facts.0, envelope_opened) refl

protection :
    sidecar_protection disk_files (some passphrase) disk
    ≡ ok (record {
      protect = true;
      passphrase = some passphrase;
      profile = some argon2id_v2_profile;
    })
unfolding sidecar_protection ◌>>=◌
protection = rw (vault_read, envelope_facts.0, validated, envelope_facts.1) refl

profile_of_vault : vault_profile disk_files disk ≡ ok (some argon2id_v2_profile)
unfolding vault_profile ◌>>=◌
profile_of_vault = rw (vault_read, envelope_facts.0, envelope_facts.1) refl

abbrev line_envelope : Json
line_envelope = obj (
    envelope_of cipher (some "consent") (
      seal_parts cipher (some "consent") argon2id_v2_profile passphrase (zeros 16) (zeros 12)
        "one line"))

line_made :
    encrypt_sidecar_payload cipher "one line" passphrase "consent" argon2id_v2_profile
      (zeros 16)
      (zeros 12)
    ≡ ok line_envelope
unfolding encrypt_sidecar_payload ◌>>=◌ profile_eq
line_made = refl

line_valid : validate_json_resources line_envelope ≡ ok tt
unfolding validate_json_resources envelope_of seal_parts ◌>>=◌ require_text_limit utf8_size
line_valid = refl

line_size : ltb max_private_json_bytes (size (dumps_text line_envelope)) ≡ false
unfolding dumps_text envelope_of seal_parts
line_size = refl

same_profile_latest : profile_eq argon2id_v2_profile argon2id_v2_profile ≡ true
unfolding profile_eq
same_profile_latest = refl

write_returned :
    (write_sidecar_bytes disk_files false
      (current consent)
      "one line"
      "consent"
      (some passphrase)
      disk).0
    ≡ ok tt
unfolding write_sidecar_bytes continue choose_profile
write_returned =
    rw
      (
        protection, passphrase_selected, line_made, line_valid, line_size, profile_of_vault,
        same_profile_latest,
      )
      refl

write_equation :
    write_sidecar_bytes disk_files false
      (current consent)
      "one line"
      "consent"
      (some passphrase)
      disk
    ≡ (ok tt, written)
write_equation = λ i. (write_returned i, written)

write_sidecar_bytes-Sealed_example :
    Sealed disk_files disk_files-FilesLaws (current consent) "consent" disk written
write_sidecar_bytes-Sealed_example =
    write_sidecar_bytes-Sealed disk_files disk_files-FilesLaws (current consent) "one line"
      "consent" (some passphrase) disk written false uses_encryption write_equation

abbrev sealed : Sealed disk_files disk_files-FilesLaws (current consent) "consent" disk written
sealed =
    write_sidecar_bytes-Sealed disk_files disk_files-FilesLaws (current consent) "one line"
      "consent" (some passphrase) disk written false uses_encryption write_equation

read_back :
    read_sidecar_bytes disk_files
      (current consent)
      "consent"
      (some passphrase)
      max_private_json_bytes
      written
    ≡ ok "one line"
read_back =
    read-write_sidecar_bytes disk_files disk_files-FilesLaws (current consent) "one line" "consent"
      (some passphrase) max_private_json_bytes disk written false sealed.raw write_equation
      (omega arith) (inl (loads-one_line, refl))
      (read_option-some max_private_json_bytes _ _ sealed.stored sealed.bounded)

read-write_sidecar_bytes_example :
    read_sidecar_bytes disk_files
      (current consent)
      "consent"
      (some passphrase)
      max_private_json_bytes
      written
    ≡ ok "one line"
read-write_sidecar_bytes_example =
    read-write_sidecar_bytes disk_files disk_files-FilesLaws (current consent) "one line" "consent"
      (some passphrase) max_private_json_bytes disk written false sealed.raw write_equation
      (omega arith) (inl (loads-one_line, refl))
      (read_option-some max_private_json_bytes _ _ sealed.stored sealed.bounded)

read_sidecar_bytes_bounded_example : size "one line" ≤ max_private_json_bytes
read_sidecar_bytes_bounded_example =
    read_sidecar_bytes_bounded disk_files (current consent) "consent" (some passphrase)
      max_private_json_bytes written "one line" read_back

kdf_write_guard_blocks_example :
    (e : Error) × (kdf_write_guard disk_files false false
        (λ _ w. (ok tt, set_file (current consent) none w))
        (set_file journal (some "{}") disk)
      ≡ (err e, set_file journal (some "{}") disk))
kdf_write_guard_blocks_example =
    kdf_write_guard_blocks disk_files disk_files-FilesLaws false
      (λ _ w. (ok tt, set_file (current consent) none w)) (set_file journal (some "{}") disk) refl
