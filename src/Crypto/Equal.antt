-- ===== src/Crypto/Equal.antt =====
-- Equality of encryption profiles in agent_personal_vault/crypto_store.py: a frozen dataclass is
-- compared field by field.
use agent_personal_vault.Prelude.{
  ℕ, ◌≡◌, refl, sym, subst, inl, inr, Bool, Bool-cases, true, false, ◌&&◌, ◌||◌, Option, none, some,
  ◌==◌, eq_iff, nat_eq, arith, &&-eq_true,
}
use agent_personal_vault.Crypto.{EncryptionProfile, legacy_v1_profile, argon2id_v2_profile}

abbrev pub option_eq : Option ℕ → Option ℕ → Bool
option_eq none none = true
option_eq (some a) (some b) = nat_eq a b
option_eq _ _ = false

unfoldable pub profile_eq : EncryptionProfile → EncryptionProfile → Bool
profile_eq p q =
    (p.name == q.name && p.kdf == q.kdf)
    && ((p.vault_storage == q.vault_storage && p.sidecar_storage == q.sidecar_storage)
        && ((nat_eq p.version q.version && nat_eq p.iterations q.iterations)
            && (option_eq p.memory_kib q.memory_kib && option_eq p.parallelism q.parallelism)))

-- `profile in SUPPORTED_ENCRYPTION_PROFILES`
abbrev pub is_supported : EncryptionProfile → Bool
is_supported p = profile_eq p legacy_v1_profile || profile_eq p argon2id_v2_profile

option_eq-eq : (a b : Option ℕ) → option_eq a b ≡ true → a ≡ b
option_eq-eq none none h = refl
option_eq-eq (some a) (some b) h = ground arith
option_eq-eq none (some b) h = cc
option_eq-eq (some a) none h = cc

nat_eq-eq : (a b : ℕ) → nat_eq a b ≡ true → a ≡ b
nat_eq-eq a b h = ground arith

pub profile_eq-eq : (p q : EncryptionProfile) → profile_eq p q ≡ true → p ≡ q
unfolding profile_eq
profile_eq-eq p q h =
    let (texts, rest) = &&-eq_true _ _ h in
    let (name, kdf) = &&-eq_true _ _ texts in
    let (storages, numbers) = &&-eq_true _ _ rest in
    let (vault, sidecar) = &&-eq_true _ _ storages in
    let (naturals, options) = &&-eq_true _ _ numbers in
    let (version, iterations) = &&-eq_true _ _ naturals in
    let (memory, parallelism) = &&-eq_true _ _ options in
    λ i. record {
      name = (eq_iff p.name q.name).0 name i;
      version = nat_eq-eq p.version q.version version i;
      kdf = (eq_iff p.kdf q.kdf).0 kdf i;
      vault_storage = (eq_iff p.vault_storage q.vault_storage).0 vault i;
      sidecar_storage = (eq_iff p.sidecar_storage q.sidecar_storage).0 sidecar i;
      iterations = nat_eq-eq p.iterations q.iterations iterations i;
      memory_kib = option_eq-eq p.memory_kib q.memory_kib memory i;
      parallelism = option_eq-eq p.parallelism q.parallelism parallelism i;
    }

-- What holds of both profiles holds of a supported one.
pub by_profile :
    (P : EncryptionProfile → Type 0) (p : EncryptionProfile)
    → is_supported p ≡ true
    → P legacy_v1_profile
    → P argon2id_v2_profile
    → P p
by_profile P p h legacy argon2id = elim (Bool-cases (profile_eq p legacy_v1_profile)) [
  | inl e ↦ subst P (sym (profile_eq-eq p legacy_v1_profile e)) legacy
  | inr e ↦ subst P (sym (profile_eq-eq p argon2id_v2_profile (ground arith))) argon2id
]
