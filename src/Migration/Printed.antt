-- ===== src/Migration/Printed.antt =====
-- The journal of agent_personal_vault/kdf_migration.py reads back.
use agent_personal_vault.Prelude.{
  ℕ, zero, suc, String, ◌≡◌, refl, true, false, Option, none, some, List, [], ◌∷◌, ltb,
}
use agent_personal_vault.Result.{ok, ◌>>=◌}
use agent_personal_vault.Python.Json.{pos, int, str, obj, Fields, end, get, has, to_list}
use agent_personal_vault.Crypto.Envelope.{keys_among}
use agent_personal_vault.Files.{Member, vault, consent, audit, has_member}
use agent_personal_vault.Migration.{Present, Stamp, Staged, Members, preparing, ready, member_name}
use agent_personal_vault.Migration.Journal.{
  original_fields, staged_fields, members_fields, name_items, journal_fields, is_hash, read_stamp,
  read_original, read_staged, read_present, read_members, read_name, read_names, all_hashable,
  validate_journal,
}

-- A digest of 64 lower-case hexadecimal digits, of a file that is not empty.
pub record IsStamp (s : Stamp) : Type 0 where
  pub hash : is_hash s.sha256 ≡ true
  pub positive : ltb 0 s.size ≡ true

abbrev pub IsStaged : Staged → Type 0
IsStaged s = IsStamp s.original × IsStamp s.target × IsStamp s.backup

abbrev pub OptionAll : {A : Type 0} → (A → Type 0) → Option A → Type 0
OptionAll P none = Unit
OptionAll P (some a) = P a

abbrev pub PresentAll : {A : Type 0} → (A → Type 0) → Present A → Type 0
PresentAll P d = P d.of_vault × OptionAll P d.of_consent × OptionAll P d.of_audit

abbrev pub AreMembers : Members → Type 0
AreMembers (preparing d) = PresentAll IsStamp d
AreMembers (ready d) = PresentAll IsStaged d

-- Names of members, none twice.
abbrev pub AreApplied : Fields → List Member → Type 0
AreApplied members [] = Unit
AreApplied members (m ∷ ms) =
    (has (member_name m) members ≡ true) × (has_member m ms ≡ false) × AreApplied members ms

read_stamp-printed :
    (h : String) (n : ℕ)
    → is_hash h ≡ true
    → ltb 0 n ≡ true
    → read_stamp (some (str h)) (some (int (pos n))) ≡ ok (record { sha256 = h; size = n })
read_stamp-printed h zero hash positive = absurd (cc)
read_stamp-printed h (suc n) hash positive = rw (hash) refl

read_original-printed : (s : Stamp) → IsStamp s → read_original (obj (original_fields s end)) ≡ ok s
unfolding read_original keys_among get ◌>>=◌
read_original-printed s is = read_stamp-printed s.sha256 s.size is.hash is.positive

read_staged-printed : (s : Staged) → IsStaged s → read_staged (obj (staged_fields s)) ≡ ok s
unfolding read_staged keys_among get ◌>>=◌
read_staged-printed s (original, target, backup) =
    rw
      (
        read_stamp-printed s.original.sha256 s.original.size original.hash original.positive,
        read_stamp-printed s.target.sha256 s.target.size target.hash target.positive,
        read_stamp-printed s.backup.sha256 s.backup.size backup.hash backup.positive,
      )
      refl

read_preparing-printed :
    (d : Present Stamp)
    → PresentAll IsStamp d
    → read_members false (members_fields (preparing d)) ≡ ok (preparing d)
unfolding read_present get ◌>>=◌
read_preparing-printed d (v, c, a) = go d.of_vault d.of_consent d.of_audit v c a
  where
    go :
        (v : Stamp) (c a : Option Stamp)
        → IsStamp v
        → OptionAll IsStamp c
        → OptionAll IsStamp a
        → read_members false
            (members_fields (preparing (record { of_vault = v; of_consent = c; of_audit = a })))
          ≡ ok (preparing (record { of_vault = v; of_consent = c; of_audit = a }))
    go v none none p _ _ = rw (read_original-printed v p) refl
    go v (some c) none p q _ = rw (read_original-printed v p, read_original-printed c q) refl
    go v none (some a) p _ r = rw (read_original-printed v p, read_original-printed a r) refl
    go v (some c) (some a) p q r =
        rw (read_original-printed v p, read_original-printed c q, read_original-printed a r) refl

read_ready-printed :
    (d : Present Staged)
    → PresentAll IsStaged d
    → read_members true (members_fields (ready d)) ≡ ok (ready d)
unfolding read_present get ◌>>=◌
read_ready-printed d (v, c, a) = go d.of_vault d.of_consent d.of_audit v c a
  where
    go :
        (v : Staged) (c a : Option Staged)
        → IsStaged v
        → OptionAll IsStaged c
        → OptionAll IsStaged a
        → read_members true
            (members_fields (ready (record { of_vault = v; of_consent = c; of_audit = a })))
          ≡ ok (ready (record { of_vault = v; of_consent = c; of_audit = a }))
    go v none none p _ _ = rw (read_staged-printed v p) refl
    go v (some c) none p q _ = rw (read_staged-printed v p, read_staged-printed c q) refl
    go v none (some a) p _ r = rw (read_staged-printed v p, read_staged-printed a r) refl
    go v (some c) (some a) p q r =
        rw (read_staged-printed v p, read_staged-printed c q, read_staged-printed a r) refl

read_name-printed :
    (members : Fields) (m : Member)
    → has (member_name m) members ≡ true
    → read_name members (member_name m) ≡ ok m
read_name-printed members vault h = rw (h) refl
read_name-printed members consent h = rw (h) refl
read_name-printed members audit h = rw (h) refl

read_names-printed :
    (members : Fields) (ms : List Member)
    → AreApplied members ms
    → read_names members (to_list (name_items ms)) ≡ ok ms
unfolding read_names ◌>>=◌
read_names-printed members [] _ = refl
read_names-printed members (m ∷ ms) (there, once, rest) =
    rw (read_name-printed members m there, read_names-printed members ms rest, once) refl

all_hashable-names : (ms : List Member) → all_hashable (to_list (name_items ms)) ≡ true
all_hashable-names [] = refl
all_hashable-names (m ∷ ms) = all_hashable-names ms

members-known :
    (m : Members)
    → (keys_among ("vault" ∷ "consent" ∷ "audit" ∷ []) (members_fields m) ≡ true)
      × (has "vault" (members_fields m) ≡ true)
unfolding keys_among get
members-known (preparing d) = go d.of_vault d.of_consent d.of_audit
  where
    go :
        (v : Stamp) (c a : Option Stamp)
        → let m = preparing (record { of_vault = v; of_consent = c; of_audit = a }) in
          (keys_among ("vault" ∷ "consent" ∷ "audit" ∷ []) (members_fields m) ≡ true)
          × (has "vault" (members_fields m) ≡ true)
    go v none none = (refl, refl)
    go v (some c) none = (refl, refl)
    go v none (some a) = (refl, refl)
    go v (some c) (some a) = (refl, refl)
members-known (ready d) = go d.of_vault d.of_consent d.of_audit
  where
    go :
        (v : Staged) (c a : Option Staged)
        → let m = ready (record { of_vault = v; of_consent = c; of_audit = a }) in
          (keys_among ("vault" ∷ "consent" ∷ "audit" ∷ []) (members_fields m) ≡ true)
          × (has "vault" (members_fields m) ≡ true)
    go v none none = (refl, refl)
    go v (some c) none = (refl, refl)
    go v none (some a) = (refl, refl)
    go v (some c) (some a) = (refl, refl)

-- A journal whose digests are digests and whose sizes are positive, and which has applied each of its
-- members at most once, passes the validation after it was printed, and is read as the same journal.
pub validate-journal_fields :
    (members : Members) (applied : List Member)
    → AreMembers members
    → AreApplied (members_fields members) applied
    → validate_journal (obj (journal_fields (record { members = members; applied = applied })))
      ≡ ok (record { members = members; applied = applied })
unfolding validate_journal journal_fields keys_among get ◌>>=◌
validate-journal_fields (preparing d) applied is names =
    rw
      (
        read_names-printed (members_fields (preparing d)) applied names,
        all_hashable-names applied,
        read_preparing-printed d is,
        (members-known (preparing d)).0,
        (members-known (preparing d)).1,
      )
      refl
validate-journal_fields (ready d) applied is names =
    rw
      (
        (members-known (ready d)).0,
        all_hashable-names applied,
        read_names-printed (members_fields (ready d)) applied names,
        read_ready-printed d is,
      )
      refl
