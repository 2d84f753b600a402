-- ===== src/Sidecar/RoundTrip.antt =====
-- What agent_personal_vault/sidecar_store.py writes to a sidecar, it reads back.
use agent_personal_vault.Prelude.{
  ℕ, ◌≤◌, ◌≡◌, ◌∙◌, refl, sym, subst, ap, ◌⊎◌, inl, inr, String, Bool, true, false, Option, none,
  some, ◌==◌, ltb, arith, if◌then◌else◌,
}
use agent_personal_vault.Result.{ok, err, decode_error, ok_inj, ◌>>=◌}
use agent_personal_vault.Exec.{Returns-at}
use agent_personal_vault.Python.Json.{Json}
use agent_personal_vault.Crypto.{EncryptionProfile, is_encrypted_sidecar_payload}
use agent_personal_vault.Crypto.Store.{decrypt_sidecar_payload}
use agent_personal_vault.Crypto.Recognized.{Recognized, encrypt_sidecar_payload-Recognized}
use agent_personal_vault.Crypto.RoundTrip.{decrypt-encrypt_sidecar_payload}
use agent_personal_vault.Files.{FileName, Files, FilesLaws}
use agent_personal_vault.Files.Laws.{read-written}
use agent_personal_vault.Sidecar.{Protection, needs_passphrase, or_environment, required_passphrase}
use agent_personal_vault.Sidecar.Read.{
  larger, encrypted_limit, open_sidecar, decode_loaded, decode_sidecar, read_sidecar_bytes,
}
use agent_personal_vault.Sidecar.Write.{PreparedSidecarWrite, write_sidecar_bytes}
use agent_personal_vault.Sidecar.Steps.{Committed, Encoded, Prepared, write-Steps}
use agent_personal_vault.Sidecar.Protects.{sidecar_protection-cases}

if_nonempty :
    (b : Bool) (v value : String)
    → (if b then err needs_passphrase else ok value) ≡ ok v
    → (b ≡ false) × (value ≡ v)
if_nonempty true v value e = absurd (cc)
if_nonempty false v value e = (refl, ok_inj e)

-- A passphrase that was selected is selected again.
required-again :
    (explicit default : Option String) (v : String)
    → required_passphrase explicit default ≡ ok v
    → required_passphrase (some v) default ≡ ok v
unfolding required_passphrase
required-again explicit default v e = selected (or_environment explicit default) e
  where
    selected :
        (o : Option String)
        → elim o [
          | none ↦ err needs_passphrase
          | some value ↦ if value == "" then err needs_passphrase else ok value
        ]
          ≡ ok v
        → elim (or_environment (some v) default) [
          | none ↦ err needs_passphrase
          | some value ↦ if value == "" then err needs_passphrase else ok value
        ]
          ≡ ok v
    selected none h = absurd (cc)
    selected (some value) h =
        let (nonempty, same) = if_nonempty (value == "") v value h in
        let v_nonempty : (v == "") ≡ false = subst (λ x. (x == "") ≡ false) same nonempty in
        rw (v_nonempty) (rw (v_nonempty) refl)

module _ {W B : Type 0} (f : Files W B) where
  -- The bytes are no JSON text, or that of a value that is no sidecar's envelope.
  abbrev pub Unmarked : B → Type 0
  Unmarked raw =
      ((f.cipher.loads raw ≡ none) × (f.cipher.loads_error raw ≡ decode_error))
      ⊎ ((j : Json) × (f.cipher.loads raw ≡ some j)
          × (is_encrypted_sidecar_payload none j ≡ ok false))

  decode-plain :
      (kind : String) (passphrase : Option String) (max_bytes : ℕ) (raw : B)
      → Unmarked raw
      → ltb max_bytes (f.cipher.len raw) ≡ false
      → decode_sidecar f kind passphrase max_bytes raw ≡ ok raw
  unfolding decode_sidecar decode_loaded ◌>>=◌
  decode-plain kind passphrase max_bytes raw (inl (h, e)) small = rw (h, e, small) refl
  decode-plain kind passphrase max_bytes raw (inr (j, h, plain)) small = rw (h, plain, small) refl

  decode-envelope :
      (kind : String) (passphrase : Option String) (max_bytes : ℕ) (raw plaintext : B) (j : Json)
      (p : EncryptionProfile) (selected : String)
      → f.cipher.loads raw ≡ some j
      → Recognized f.cipher kind p j
      → required_passphrase passphrase f.default_passphrase ≡ ok selected
      → decrypt_sidecar_payload f.cipher j selected kind ≡ ok plaintext
      → ltb max_bytes (f.cipher.len plaintext) ≡ false
      → decode_sidecar f kind passphrase max_bytes raw ≡ ok plaintext
  unfolding decode_sidecar decode_loaded open_sidecar ◌>>=◌
  decode-envelope kind passphrase max_bytes raw plaintext j p selected h r required opens small =
      rw (h, r.sidecar, r.named, required, opens, small) refl

  read-decode :
      (path : FileName) (kind : String) (passphrase : Option String) (max_bytes : ℕ) (w : W)
      (raw payload : B)
      → f.read_private_bytes path (larger max_bytes (encrypted_limit max_bytes)) w ≡ ok raw
      → decode_sidecar f kind passphrase max_bytes raw ≡ ok payload
      → read_sidecar_bytes f path kind passphrase max_bytes w ≡ ok payload
  unfolding read_sidecar_bytes ◌>>=◌
  read-decode path kind passphrase max_bytes w raw payload reads decodes = rw (reads, decodes) refl

  not_over : (a b : ℕ) → a ≤ b → ltb b a ≡ false
  not_over a b h = ground arith

module _ {W B : Type 0} (f : Files W B) (laws : FilesLaws f) where
  module _ (path : FileName) (payload : B) (kind : String) (passphrase : Option String)
      (max_bytes : ℕ) (w w' : W) where
    -- The bytes of a commit, read back.
    read-committed :
        (prepared : PreparedSidecarWrite B) (between : W) (limit : ℕ) (raw : B)
        → prepared.path ≡ path
        → Committed f prepared between w'
        → f.read_private_bytes path limit w' ≡ ok raw
        → raw ≡ prepared.payload
    read-committed prepared between limit raw named c reads =
        read-written f laws prepared.path prepared.payload raw limit between c.wrote (
          subst (λ v. f.read_private_bytes prepared.path limit v ≡ ok raw) c.after
            (subst (λ n. f.read_private_bytes n limit w' ≡ ok raw) (sym named) reads))

    decode-Encoded :
        (p : EncryptionProfile) (validated : String) (between : W)
        (prepared : PreparedSidecarWrite B)
        → required_passphrase passphrase f.default_passphrase ≡ ok validated
        → Encoded f path kind (some validated) p payload w between prepared
        → ltb max_bytes (f.cipher.len payload) ≡ false
        → decode_sidecar f kind passphrase max_bytes prepared.payload ≡ ok payload
    decode-Encoded p validated between prepared required d small =
        let again = required-again passphrase f.default_passphrase validated required in
        let same : d.selected ≡ validated = ok_inj (sym d.required ∙ again) in
        rw (d.text) (
          decode-envelope f kind passphrase max_bytes _ payload d.envelope p d.selected
            (laws.loads-dumps_indented d.envelope)
            (encrypt_sidecar_payload-Recognized f.cipher laws.cipher_laws payload d.selected kind p
              d.salt d.nonce d.envelope d.encrypted)
            (required ∙ ap ok (sym same))
            (decrypt-encrypt_sidecar_payload f.cipher laws.cipher_laws payload d.selected kind p
              d.salt d.nonce d.envelope (ap f.cipher.len (sym d.drew_salt) ∙ laws.random_size 16 w)
              (ap f.cipher.len (sym d.drew_nonce) ∙ laws.random_size 12 _) d.encrypted)
            small)

    -- If the write of a sidecar returns, and the bytes are within the limit of a read and are either no
    -- JSON text, for which `json.loads` raises `UnicodeDecodeError` or `JSONDecodeError`, or that of a
    -- value that is no sidecar's envelope, then a read of the sidecar as the same kind with the same
    -- passphrase returns the bytes, if the file can be read: whether the vault is plain, missing or
    -- encrypted.
    pub read-write_sidecar_bytes :
        (active : Bool) (raw : B)
        → write_sidecar_bytes f active path payload kind passphrase w ≡ (ok tt, w')
        → f.cipher.len payload ≤ max_bytes
        → Unmarked f payload
        → f.read_private_bytes path (larger max_bytes (encrypted_limit max_bytes)) w' ≡ ok raw
        → read_sidecar_bytes f path kind passphrase max_bytes w' ≡ ok payload
    read-write_sidecar_bytes active raw e small unmarked reads =
        let s = Returns-at (write-Steps f active path payload kind passphrase w) e in
        let fits = not_over f _ _ small in
        elim (sidecar_protection-cases f passphrase w s.protection s.protects) [
          | inl plain ↦
              let (_, same, _) : Prepared f path payload kind false passphrase none w s.prepared
                  s.between =
                subst
                  (λ (pr : Protection).
                    Prepared f path payload kind pr.protect pr.passphrase pr.profile w s.prepared
                      s.between)
                  plain.same s.prepares in
              let held =
                read-committed s.prepared s.between _ raw (ap (λ x. x.path) same) s.committed
                  reads in
              read-decode f path kind passphrase max_bytes w' raw payload reads (
                rw (held ∙ ap (λ x. x.payload) same)
                  (decode-plain f kind passphrase max_bytes payload unmarked fits))
          | inr p ↦
              let (q, _, encoded) : Prepared f path payload kind true (some p.validated)
                  (some p.profile) w s.prepared s.between =
                subst
                  (λ (pr : Protection).
                    Prepared f path payload kind pr.protect pr.passphrase pr.profile w s.prepared
                      s.between)
                  p.same s.prepares in
              let held =
                read-committed s.prepared s.between _ raw encoded.named s.committed reads in
              read-decode f path kind passphrase max_bytes w' raw payload reads (
                rw (held)
                  (decode-Encoded q p.validated s.between s.prepared p.required encoded fits))
        ]
