-- ===== src/Crypto/Allowed.antt =====
-- What the tests of an envelope's fields in crypto_store.py say of the fields.
use agent_personal_vault.Prelude.{
  ℕ, String, ◌≡◌, ap, subst, Bool, true, not, ◌&&◌, ◌||◌, Option, some, List, eq_iff, arith,
  &&-eq_true, nat_eq,
}
use agent_personal_vault.Python.Json.{pos, Json, int, str, Fields, end, field, get, has}
use agent_personal_vault.Crypto.{EncryptionProfile, storage_of, equals_text}
use agent_personal_vault.Crypto.Envelope.{
  is_some, one_of, keys_among, required_keys, is_exactly, is_exactly_some, has_parameters, is_kind,
}

-- The fields of an envelope are those of a profile: no other field, and its own costs.
pub record Allowed (kind : Option String) (p : EncryptionProfile) (d : Fields) : Type 0 where
  pub only :
      (k : String) → has k d ≡ true → one_of (required_keys (is_some kind) p.version) k ≡ true
  pub storage : get "storage" d ≡ some (str (storage_of (is_some kind) p))
  pub version : get "version" d ≡ some (int (pos p.version))
  pub kdf : get "kdf" d ≡ some (str p.kdf)
  pub cipher : get "cipher" d ≡ some (str "AES-256-GCM")
  pub iterations : get "iterations" d ≡ some (int (pos p.iterations))
  pub memory_kib :
      (n : ℕ) → p.version ≡ 2 → p.memory_kib ≡ some n → get "memory_kib" d ≡ some (int (pos n))
  pub parallelism :
      (n : ℕ) → p.version ≡ 2 → p.parallelism ≡ some n → get "parallelism" d ≡ some (int (pos n))
  pub kind_given : (k : String) → kind ≡ some k → get "kind" d ≡ some (str k)

equals_text-eq : (t : String) (v : Option Json) → equals_text t v ≡ true → v ≡ some (str t)
equals_text-eq t (some (str s)) h = ap (λ u. some (str u)) ((eq_iff s t).0 h)
equals_text-eq t _ h = absurd (cc)

is_exactly-eq : (n : ℕ) (v : Option Json) → is_exactly n v ≡ true → v ≡ some (int (pos n))
is_exactly-eq n (some (int (pos m))) h = ap (λ u. some (int (pos u))) (ground arith)
is_exactly-eq n _ h = absurd (cc)

is_exactly_some-eq :
    (o : Option ℕ) (n : ℕ) (v : Option Json)
    → o ≡ some n
    → is_exactly_some o v ≡ true
    → v ≡ some (int (pos n))
is_exactly_some-eq o n v e h = is_exactly-eq n v (subst (λ u. is_exactly_some u v ≡ true) e h)

is_kind-eq :
    (kind : Option String) (k : String) (d : Fields)
    → kind ≡ some k
    → is_kind kind d ≡ true
    → get "kind" d ≡ some (str k)
is_kind-eq kind k d e h = equals_text-eq k (get "kind" d) (subst (λ u. is_kind u d ≡ true) e h)

keys_among-only :
    (names : List String) (d : Fields) (k : String)
    → keys_among names d ≡ true
    → has k d ≡ true
    → one_of names k ≡ true
unfolding keys_among get
keys_among-only names end k h present = absurd (cc)
keys_among-only names (field j v d) k h present =
    ground (arith, eq_iff j k, keys_among-only names d k)

-- The tests of the fields, each by itself.
record Tests (kind : Option String) (p : EncryptionProfile) (d : Fields) : Type 0 where
  among : keys_among (required_keys (is_some kind) p.version) d ≡ true
  storage : equals_text (storage_of (is_some kind) p) (get "storage" d) ≡ true
  version : is_exactly p.version (get "version" d) ≡ true
  kdf : equals_text p.kdf (get "kdf" d) ≡ true
  cipher : equals_text "AES-256-GCM" (get "cipher" d) ≡ true
  kind_given : is_kind kind d ≡ true
  iterations : is_exactly p.iterations (get "iterations" d) ≡ true
  costs :
      p.version ≡ 2
      → (is_exactly_some p.memory_kib (get "memory_kib" d) ≡ true)
        × (is_exactly_some p.parallelism (get "parallelism" d) ≡ true)

costs_tested :
    (n : ℕ) (a b : Bool) → (not (nat_eq n 2) || (a && b)) ≡ true → n ≡ 2 → (a ≡ true) × (b ≡ true)
costs_tested n a b h e = ground arith

has_parameters-Tests :
    (kind : Option String) (p : EncryptionProfile) (d : Fields)
    → has_parameters kind p d ≡ true
    → Tests kind p d
unfolding has_parameters
has_parameters-Tests kind p d h =
    let (h1, costs) = &&-eq_true _ _ h in
    let (h2, iterations) = &&-eq_true _ _ h1 in
    let (h3, kind_given) = &&-eq_true _ _ h2 in
    let (h4, cipher) = &&-eq_true _ _ h3 in
    let (h5, kdf) = &&-eq_true _ _ h4 in
    let (h6, version) = &&-eq_true _ _ h5 in
    let (h7, storage) = &&-eq_true _ _ h6 in
    let (h8, app) = &&-eq_true _ _ h7 in
    let (among, all) = &&-eq_true _ _ h8 in
    record {
      among = among;
      storage = storage;
      version = version;
      kdf = kdf;
      cipher = cipher;
      kind_given = kind_given;
      iterations = iterations;
      costs = costs_tested p.version _ _ costs;
    }

pub has_parameters-Allowed :
    (kind : Option String) (p : EncryptionProfile) (d : Fields)
    → has_parameters kind p d ≡ true
    → Allowed kind p d
has_parameters-Allowed kind p d h =
    let t = has_parameters-Tests kind p d h in
    record {
      only = λ k. keys_among-only (required_keys (is_some kind) p.version) d k t.among;
      storage = equals_text-eq _ _ t.storage;
      version = is_exactly-eq _ _ t.version;
      kdf = equals_text-eq _ _ t.kdf;
      cipher = equals_text-eq _ _ t.cipher;
      iterations = is_exactly-eq _ _ t.iterations;
      memory_kib = λ n v e. is_exactly_some-eq p.memory_kib n _ e (t.costs v).0;
      parallelism = λ n v e. is_exactly_some-eq p.parallelism n _ e (t.costs v).1;
      kind_given = λ k e. is_kind-eq kind k d e t.kind_given;
    }
