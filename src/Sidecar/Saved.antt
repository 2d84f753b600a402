-- ===== src/Sidecar/Saved.antt =====
-- What a write of a sidecar in agent_personal_vault/sidecar_store.py leaves, and that it reads back.
use agent_personal_vault.Prelude.{
  ◌≤◌, ◌≡◌, ◌∙◌, sym, subst, ap, inl, inr, String, Bool, true, false, Option, some,
}
use agent_personal_vault.Result.{ok, ok_inj}
use agent_personal_vault.Exec.{Returns-at}
use agent_personal_vault.Python.Json.{Json}
use agent_personal_vault.Limits.{max_private_json_bytes}
use agent_personal_vault.Crypto.{EncryptionProfile, is_encrypted_sidecar_payload, payload_profile}
use agent_personal_vault.Crypto.Recognized.{Recognized, encrypt_sidecar_payload-Recognized}
use agent_personal_vault.Files.{FileName, Files, FilesLaws}
use agent_personal_vault.Files.Laws.{written-content}
use agent_personal_vault.Sidecar.{Protection, vault_uses_encryption}
use agent_personal_vault.Sidecar.Profile.{vault_profile, choose_profile}
use agent_personal_vault.Sidecar.Write.{PreparedSidecarWrite, write_sidecar_bytes}
use agent_personal_vault.Sidecar.Steps.{Committed, Prepared, write-Steps}
use agent_personal_vault.Sidecar.Protects.{sidecar_protection-cases}

module _ {W B : Type 0} (f : Files W B) (laws : FilesLaws f) where
  -- What the file of an encrypted vault's sidecar holds after a write.
  pub record Sealed (path : FileName) (kind : String) (w w' : W) : Type 0 where
    pub raw : B
    pub stored : laws.content path w' ≡ some raw
    pub bounded : f.cipher.len raw ≤ max_private_json_bytes
    pub envelope : Json
    pub reads : f.cipher.loads raw ≡ some envelope
    pub named : is_encrypted_sidecar_payload (some kind) envelope ≡ ok true
    pub profile : EncryptionProfile
    pub profile_found : vault_profile f w ≡ ok (some profile)
    pub same_profile : payload_profile f.cipher.float_equals true envelope ≡ ok profile

  module _ (path : FileName) (payload : B) (kind : String) (passphrase : Option String)
      (w w' : W) where
    chosen_profile : (p q : EncryptionProfile) (w : W) → choose_profile f (some q) w ≡ ok p → q ≡ p
    unfolding choose_profile
    chosen_profile p q w e = ok_inj e

    stored_by :
        (prepared : PreparedSidecarWrite B) (between : W)
        → prepared.path ≡ path
        → Committed f prepared between w'
        → laws.content path w' ≡ some prepared.payload
    stored_by prepared between named c =
        subst (λ v. laws.content path v ≡ some prepared.payload) (sym c.after)
          (subst
            (λ n.
              laws.content n (f.write_private_bytes prepared.path prepared.payload between).1
              ≡ some prepared.payload)
            named (written-content f laws prepared.path prepared.payload between c.wrote))

    -- If the vault is encrypted, a write of a sidecar that returns leaves the text of an envelope of its
    -- kind, of at most `max_private_json_bytes` bytes and under the profile of the vault: never the plain
    -- bytes.
    pub write_sidecar_bytes-Sealed :
        (active : Bool)
        → vault_uses_encryption f w ≡ ok true
        → write_sidecar_bytes f active path payload kind passphrase w ≡ (ok tt, w')
        → Sealed path kind w w'
    write_sidecar_bytes-Sealed active encrypted e =
        let s = Returns-at (write-Steps f active path payload kind passphrase w) e in
        elim (sidecar_protection-cases f passphrase w s.protection s.protects) [
          | inl plain ↦ absurd (both (sym encrypted ∙ plain.plain))
          | inr p ↦
              let (q, chosen, encoded) : Prepared f path payload kind true (some p.validated)
                  (some p.profile) w s.prepared s.between =
                subst
                  (λ (pr : Protection).
                    Prepared f path payload kind pr.protect pr.passphrase pr.profile w s.prepared
                      s.between)
                  p.same s.prepares in
              let found : Recognized f.cipher kind q encoded.envelope =
                encrypt_sidecar_payload-Recognized f.cipher laws.cipher_laws payload
                  encoded.selected kind q encoded.salt encoded.nonce encoded.envelope
                  encoded.encrypted in
              record {
                raw = f.dumps_indented encoded.envelope;
                stored =
                    stored_by s.prepared s.between encoded.named s.committed ∙ ap some encoded.text;
                bounded = encoded.size;
                envelope = encoded.envelope;
                reads = laws.loads-dumps_indented encoded.envelope;
                named = found.named;
                profile = q;
                profile_found =
                    p.profile_found ∙ ap (λ x. ok (some x)) (chosen_profile q p.profile w chosen);
                same_profile = found.profile;
              }
        ]
      where
        both : ok true ≡ ok false → ⊥
        both h = cc
