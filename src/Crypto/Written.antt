-- ===== src/Crypto/Written.antt =====
-- What crypto_store.py reads in an envelope that it wrote.
use agent_personal_vault.Prelude.{
  ℕ, ◌+◌, ◌*◌, ◌/◌, ◌≤◌, String, ◌≡◌, refl, Bool, true, false, not, ◌&&◌, Option, none, some,
  eq_refl, arith, ltb,
}
use agent_personal_vault.Result.{ok, ◌>>=◌}
use agent_personal_vault.Python.Json.{str, obj, Fields, get}
use agent_personal_vault.Crypto.{EncryptionProfile, is_encrypted_payload, payload_profile}
use agent_personal_vault.Crypto.Equal.{is_supported, by_profile}
use agent_personal_vault.Crypto.Cipher.{Cipher, CipherLaws}
use agent_personal_vault.Crypto.Envelope.{
  is_some, Bounds, has_parameters, keys_among, too_long, other_than, below, above,
}
use agent_personal_vault.Crypto.Codec.{
  exactly, ciphertext_bounds, check_envelope, validate_envelope, Parts, decode_component,
  envelope_of, profile_fields,
}

-- The c.len of a component is within its bounds.
abbrev pub fits : Bounds → ℕ → Bool
fits b n = not (other_than b.exact n) && (not (below b.least n) && not (above b.most n))

abbrev text_size : ℕ → ℕ
text_size n = ((n + 2) / 3) * 4

text_size_mono : (n m : ℕ) → n ≤ m → ltb (text_size m) (text_size n) ≡ false
text_size_mono n m h = ground arith

-- The three tests of a component that fits.
abbrev Within : Bounds → ℕ → Type 0
Within b n = (other_than b.exact n ≡ false) × (below b.least n ≡ false) × (above b.most n ≡ false)

fits-Within : (b : Bounds) (n : ℕ) → fits b n ≡ true → Within b n
fits-Within b n h = ground arith

limit-fits :
    (exact most : Option ℕ) (n : ℕ)
    → other_than exact n ≡ false
    → above most n ≡ false
    → too_long (elim exact [ some m ↦ some m | none ↦ most ]) (text_size n) ≡ false
limit-fits none none n e a = refl
limit-fits none (some m) n e a = text_size_mono n m (ground arith)
limit-fits (some m) most n e a = text_size_mono n m (ground arith)

module _ {B : Type 0} (c : Cipher B) (laws : CipherLaws c) where
  -- A component that was written is read back.
  decode_component-written :
      (payload : Fields) (name : String) (b : Bounds) (bytes : B)
      → get name payload ≡ some (str (c.b64encode bytes))
      → fits b (c.len bytes) ≡ true
      → decode_component c payload name b ≡ ok bytes
  unfolding decode_component ◌>>=◌
  decode_component-written payload name b bytes written within =
      let (exact, least, most) = fits-Within b (c.len bytes) within in
      rw
        (
          written,
          laws.b64_size bytes,
          limit-fits b.exact b.most (c.len bytes) exact most,
          laws.b64_round_trip bytes,
          eq_refl (c.b64encode bytes),
          exact,
          least,
          most,
        )
        refl

  abbrev written_by : Option String → B → B → B → EncryptionProfile → Parts B
  written_by kind salt nonce ciphertext p = record {
    profile = p;
    salt = salt;
    nonce = nonce;
    ciphertext = ciphertext;
  }

  -- An envelope as it is written passes the tests of its fields.
  has_parameters-written :
      (kind : Option String) (salt nonce ciphertext : B) (p : EncryptionProfile)
      → is_supported p ≡ true
      → has_parameters kind p (envelope_of c kind (written_by kind salt nonce ciphertext p)) ≡ true
  unfolding has_parameters envelope_of profile_fields get keys_among
  has_parameters-written none salt nonce ciphertext p h =
      by_profile
        (λ q.
          has_parameters none q (envelope_of c none (written_by none salt nonce ciphertext q))
          ≡ true)
        p h refl refl
  has_parameters-written (some kind) salt nonce ciphertext p h =
      by_profile
        (λ q.
          has_parameters (some kind) q
            (envelope_of c (some kind) (written_by (some kind) salt nonce ciphertext q))
          ≡ true)
        p h (rw (eq_refl kind) refl) (rw (eq_refl kind) refl)

  -- It names its profile, and reads as an envelope of a store or of a sidecar.
  pub profile-written :
      (kind : Option String) (salt nonce ciphertext : B) (p : EncryptionProfile)
      → is_supported p ≡ true
      → payload_profile c.float_equals
          (is_some kind)
          (obj (envelope_of c kind (written_by kind salt nonce ciphertext p)))
        ≡ ok p
  unfolding payload_profile envelope_of profile_fields get
  profile-written none salt nonce ciphertext p h =
      by_profile
        (λ q.
          payload_profile c.float_equals false
            (obj (envelope_of c none (written_by none salt nonce ciphertext q)))
          ≡ ok q)
        p h refl refl
  profile-written (some kind) salt nonce ciphertext p h =
      by_profile
        (λ q.
          payload_profile c.float_equals true
            (obj (envelope_of c (some kind) (written_by (some kind) salt nonce ciphertext q)))
          ≡ ok q)
        p h refl refl

  pub encrypted-written :
      (salt nonce ciphertext : B) (p : EncryptionProfile)
      → is_supported p ≡ true
      → is_encrypted_payload (obj (envelope_of c none (written_by none salt nonce ciphertext p)))
        ≡ ok true
  unfolding is_encrypted_payload envelope_of profile_fields get
  encrypted-written salt nonce ciphertext p h =
      by_profile
        (λ q.
          is_encrypted_payload (obj (envelope_of c none (written_by none salt nonce ciphertext q)))
          ≡ ok true)
        p h refl refl

  -- What stands under the name of a component.
  abbrev Component : Option String → Parts B → String → B → Type 0
  Component kind parts name bytes =
      get name (envelope_of c kind parts) ≡ some (str (c.b64encode bytes))

  abbrev Components : Option String → Parts B → Type 0
  Components kind parts =
      Component kind parts "salt" parts.salt
      × Component kind parts "nonce" parts.nonce
      × Component kind parts "ciphertext" parts.ciphertext

  Components-written :
      (kind : Option String) (salt nonce ciphertext : B) (p : EncryptionProfile)
      → is_supported p ≡ true
      → Components kind (written_by kind salt nonce ciphertext p)
  unfolding envelope_of profile_fields get
  Components-written none salt nonce ciphertext p h =
      by_profile (λ q. Components none (written_by none salt nonce ciphertext q)) p h
        (refl, refl, refl) (refl, refl, refl)
  Components-written (some kind) salt nonce ciphertext p h =
      by_profile (λ q. Components (some kind) (written_by (some kind) salt nonce ciphertext q)) p h
        (refl, refl, refl) (refl, refl, refl)

  -- The check of an envelope gives back its parts.
  pub validate-written :
      (kind : Option String) (salt nonce ciphertext : B) (p : EncryptionProfile)
      → is_supported p ≡ true
      → c.len salt ≡ 16
      → c.len nonce ≡ 12
      → fits ciphertext_bounds (c.len ciphertext) ≡ true
      → validate_envelope c kind
          (obj (envelope_of c kind (written_by kind salt nonce ciphertext p)))
        ≡ ok (written_by kind salt nonce ciphertext p)
  unfolding validate_envelope check_envelope ◌>>=◌
  validate-written kind salt nonce ciphertext p h salt_size nonce_size within =
      let (at_salt, at_nonce, at_ciphertext) = Components-written kind salt nonce ciphertext p h in
      let payload = envelope_of c kind (written_by kind salt nonce ciphertext p) in
      rw
        (
          profile-written kind salt nonce ciphertext p h,
          has_parameters-written kind salt nonce ciphertext p h,
          decode_component-written payload "salt" (exactly 16) salt at_salt (rw salt_size refl),
          decode_component-written payload "nonce" (exactly 12) nonce at_nonce (rw nonce_size refl),
          decode_component-written payload "ciphertext" ciphertext_bounds ciphertext at_ciphertext
              within,
        )
        refl
