-- ===== src/Vault/History.antt =====
-- Writes of the vault by several holders of a store, one after the other.
use agent_personal_vault.Prelude.{
  ℕ, zero, suc, ◌+◌, ◌≤◌, inl, inr, ◌≡◌, ◌∙◌, refl, sym, ap, subst, String, false, Option, nat_eq,
  arith,
}
use agent_personal_vault.Result.{Error, Result, ok, err, ok_inj, conflict_error}
use agent_personal_vault.Exec.{continue, Returns-at}
use agent_personal_vault.Python.Json.{obj, Fields}
use agent_personal_vault.Platform.{Platform}
use agent_personal_vault.Crypto.{EncryptionProfile, is_encrypted_payload}
use agent_personal_vault.Vault.Host.{VaultHost, VaultHostLaws, SameVault}
use agent_personal_vault.Vault.Shape.{store_revision}
use agent_personal_vault.Vault.Payload.{find_existing}
use agent_personal_vault.Vault.Store.{WriteOptions, write_store}
use agent_personal_vault.Vault.Revision.{Replaced, write_store-Written}
use agent_personal_vault.Vault.Refused.{write_store_refused, find_existing-SameVault}

-- On the way from `w` to `w'`, `n` writes with this passphrase have returned, and `m` have raised,
-- which may have replaced the file all the same; and any number of others, with whatever passphrase,
-- have left the file as it was. A write holds the lock to its end, so the writes of several processes
-- are a sequence too.
pub data History {W : Type 0} (p : Platform) (h : VaultHost W) (passphrase : Option String) (w : W)
    : ℕ → ℕ → W → Type 0 where
  start : History p h passphrase w zero zero w
  wrote :
      {n m : ℕ} {w' w'' : W} (store : Fields) (options : WriteOptions) (store' : Fields)
      → History p h passphrase w n m w'
      → options.passphrase ≡ passphrase
      → is_encrypted_payload (obj store) ≡ ok false
      → write_store p h store options w' ≡ (ok store', w'')
      → History p h passphrase w (suc n) m w''
  raised :
      {n m : ℕ} {w' w'' : W} (store : Fields) (options : WriteOptions) (e : Error)
      → History p h passphrase w n m w'
      → options.passphrase ≡ passphrase
      → is_encrypted_payload (obj store) ≡ ok false
      → write_store p h store options w' ≡ (err e, w'')
      → History p h passphrase w n (suc m) w''
  refused :
      {n m : ℕ} {w' w'' : W} (store : Fields) (options : WriteOptions) (e : Error)
      → History p h passphrase w n m w'
      → write_store p h store options w' ≡ (err e, w'')
      → SameVault h w' w''
      → History p h passphrase w n m w''

module _ {W : Type 0} (p : Platform) (h : VaultHost W) (laws : VaultHostLaws h)
    (passphrase : Option String) where
  -- The file can be opened and has this revision; no file has revision 0.
  abbrev pub AtRevision : ℕ → W → Type 0
  AtRevision r w =
      (profile : Option EncryptionProfile) × (find_existing h passphrase w ≡ ok (profile, r))

  AtRevision-cast : {m n : ℕ} (w : W) → m ≡ n → AtRevision m w → AtRevision n w
  AtRevision-cast w e at = subst (λ n. AtRevision n w) e at

  -- The passphrase of a write is the one of the history.
  AtRevision-options :
      (q : Option String) (r : ℕ) (w : W) {profile : Option EncryptionProfile}
      → q ≡ passphrase
      → find_existing h q w ≡ ok (profile, r)
      → AtRevision r w
  AtRevision-options q r w {profile} same found =
      (profile, ap (λ q. find_existing h q w) (sym same) ∙ found)

  differs : (r n k : ℕ) → suc n ≤ k → nat_eq (r + k) r ≡ false
  differs r n k moved = ground arith

  same_revision :
      {a b : Option EncryptionProfile} {m n : ℕ} {r : Result (Option EncryptionProfile × ℕ)}
      → r ≡ ok (a, m)
      → r ≡ ok (b, n)
      → n ≡ m
  same_revision e f = ap (λ x. x.1) (ok_inj (sym f ∙ e))

  -- A write that has replaced the file has moved it to the next revision.
  next_revision :
      (r : ℕ) (store : Fields) (options : WriteOptions) {w w' : W}
      → options.passphrase ≡ passphrase
      → AtRevision r w
      → Replaced h options store w w'
      → AtRevision (r + 1) w'
  next_revision r store options same (_, found) d =
      let (_, found') = AtRevision-options options.passphrase d.revision _ same d.before in
      let count = same_revision found found' in
      AtRevision-cast _ (omega arith) (AtRevision-options options.passphrase _ _ same d.after)

  AtRevision-SameVault : (r : ℕ) {w w' : W} → SameVault h w w' → AtRevision r w → AtRevision r w'
  AtRevision-SameVault r same (profile, found) =
      (profile, find_existing-SameVault h passphrase same ∙ found)

  -- When the file has revision `r` at the start of a history of writes, with one passphrase and of
  -- stores that are not themselves encrypted payloads, at the end it has moved on by at least the number
  -- of the writes that returned, and at most by as many more as have raised; writes that left the file as it was may have come between, with whatever passphrase.
  pub revision_counts :
      {w w' : W} {n m : ℕ} (r : ℕ)
      → AtRevision r w
      → History p h passphrase w n m w'
      → (k : ℕ) × (n ≤ k) × (k ≤ n + m) × AtRevision (r + k) w'
  revision_counts r at start = (0, omega arith, omega arith, AtRevision-cast _ (omega arith) at)
  revision_counts r at (wrote store options store' before same plain e) =
      let (k, low, high, found) = revision_counts r at before in
      let written = Returns-at (write_store-Written p h laws store options _ plain) e in
      (
        suc k,
        omega arith,
        omega arith,
        AtRevision-cast _ (omega arith)
            (next_revision (r + k) store options same found written.replaced),
      )
  revision_counts r at (raised store options e before same plain failed) =
      let (k, low, high, found) = revision_counts r at before in
      elim (write_store_refused p h laws store options _ _ e plain failed) [
        | inl kept ↦ (k, low, omega arith, AtRevision-SameVault (r + k) kept found)
        | inr replaced ↦ (
          suc k,
          omega arith,
          omega arith,
          AtRevision-cast _ (omega arith) (next_revision (r + k) store options same found replaced),
        )
      ]
  revision_counts r at (refused store options e before failed kept) =
      let (k, low, high, found) = revision_counts r at before in
      (k, low, high, AtRevision-SameVault (r + k) kept found)

  -- A store that was read at revision `r` is refused, and nothing is written, once another write has returned.
  pub stale_write_conflicts :
      {w w' : W} {n m : ℕ} (r : ℕ) (store : Fields) (options : WriteOptions)
      → AtRevision r w
      → History p h passphrase w (suc n) m w'
      → store_revision store ≡ ok r
      → options.passphrase ≡ passphrase
      → h.ensure_dir w' ≡ ok tt
      → h.write_guard w' ≡ ok tt
      → h.store_lock w' ≡ ok tt
      → write_store p h store options w'
        ≡ (err (conflict_error "vault changed; reload and retry"), w')
  unfolding write_store continue
  stale_write_conflicts {n = n} r store options at before read same dir guard lock =
      let (k, low, _, (profile, found)) = revision_counts r at before in
      rw (dir, read, guard, lock, same, found, differs r n k low) refl
