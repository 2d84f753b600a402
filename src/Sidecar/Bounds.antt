-- ===== src/Sidecar/Bounds.antt =====
-- How much a read of agent_personal_vault/sidecar_store.py returns at most.
use agent_personal_vault.Prelude.{
  ℕ, ◌≤◌, ◌≡◌, subst, String, Bool, true, false, Option, none, some, ltb→ge, if◌then◌else◌,
}
use agent_personal_vault.Result.{
  Error, decode_error, Result, on_decode_error, ok, ok_inj, raise_if-eq_ok, >>=-eq_ok,
}
use agent_personal_vault.Python.Json.{Json}
use agent_personal_vault.Files.{FileName, Files}
use agent_personal_vault.Sidecar.Read.{
  bounded_bytes, plain_bytes, open_sidecar, decode_loaded, decode_sidecar, read_sidecar_bytes,
}

on_decode_error-eq_ok :
    {A : Type 0} (r : Result A) (e : Error) {a : A} → on_decode_error r e ≡ ok a → r ≡ ok a
on_decode_error-eq_ok r decode_error h = h
on_decode_error-eq_ok r e h = absurd (cc)

module _ {W B : Type 0} (f : Files W B) where
  bounded_bytes-le :
      (message : String) (max_bytes : ℕ) (raw b : B)
      → bounded_bytes f message max_bytes raw ≡ ok b
      → f.cipher.len b ≤ max_bytes
  bounded_bytes-le message max_bytes raw b e =
      let (_, small, same) = >>=-eq_ok _ _ e in
      subst (λ x. f.cipher.len x ≤ max_bytes) (ok_inj same) (ltb→ge _ _ (raise_if-eq_ok _ _ small))

  open_sidecar-le :
      (kind : String) (passphrase : Option String) (max_bytes : ℕ) (envelope : Json) (b : B)
      → open_sidecar f kind passphrase max_bytes envelope ≡ ok b
      → f.cipher.len b ≤ max_bytes
  unfolding open_sidecar
  open_sidecar-le kind passphrase max_bytes envelope b e =
      let (_, _, e1) = >>=-eq_ok _ _ e in
      let (_, _, e2) = >>=-eq_ok _ _ e1 in
      let (_, _, e3) = >>=-eq_ok _ _ e2 in
      let (plaintext, _, e4) = >>=-eq_ok _ _ e3 in bounded_bytes-le _ max_bytes plaintext b e4

  decoded-le :
      (kind : String) (passphrase : Option String) (max_bytes : ℕ) (raw b : B) (o : Option Json)
      → decode_loaded f kind passphrase max_bytes raw o ≡ ok b
      → f.cipher.len b ≤ max_bytes
  unfolding decode_loaded
  decoded-le kind passphrase max_bytes raw b (some j) e =
      let (encrypted, _, e1) = >>=-eq_ok _ _ e in split encrypted e1
    where
      split :
          (encrypted : Bool)
          → (if encrypted
              then open_sidecar f kind passphrase max_bytes j
              else plain_bytes f max_bytes raw)
            ≡ ok b
          → f.cipher.len b ≤ max_bytes
      split true h = open_sidecar-le kind passphrase max_bytes j b h
      split false h = bounded_bytes-le _ max_bytes raw b h
  decoded-le kind passphrase max_bytes raw b none e =
      bounded_bytes-le _ max_bytes raw b (on_decode_error-eq_ok _ (f.cipher.loads_error raw) e)

  -- What a read of a sidecar returns has at most as many bytes as the caller admits, whatever the file
  -- holds: plain bytes, other JSON, or an envelope.
  pub read_sidecar_bytes_bounded :
      (path : FileName) (kind : String) (passphrase : Option String) (max_bytes : ℕ) (w : W) (b : B)
      → read_sidecar_bytes f path kind passphrase max_bytes w ≡ ok b
      → f.cipher.len b ≤ max_bytes
  unfolding read_sidecar_bytes decode_sidecar
  read_sidecar_bytes_bounded path kind passphrase max_bytes w b e =
      let (raw, _, e1) = >>=-eq_ok _ _ e in
      decoded-le kind passphrase max_bytes raw b (f.cipher.loads raw) e1
