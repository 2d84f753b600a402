-- ===== src/Migration/Recovery.antt =====
-- `resume_kdf_migration` of agent_personal_vault/kdf_migration.py: what it leaves when it returns, and
-- that the migration stays recoverable wherever it stops.
use agent_personal_vault.Prelude.{
  ◌≡◌, ◌∙◌, refl, sym, ap, subst, String, Bool, true, false, ◌==◌, Option, none, some, List,
  if◌then◌else◌,
}
use agent_personal_vault.Result.{
  ok, require, value_error, ◌>>=◌, ◌>>◌, >>=-eq_ok, require-eq_ok, ok_inj,
}
use agent_personal_vault.Exec.{Returns, continue-Returns, Returns-step, Returns-each, Returns-at}
use agent_personal_vault.Files.{Member, vault, consent, audit, current, next, Files, FilesLaws}
use agent_personal_vault.Migration.{Present, Staged}
use agent_personal_vault.Migration.Targets.{read_file}
use agent_personal_vault.Migration.Checks.{hash_current, is_target, read_candidate, check_member}
use agent_personal_vault.Migration.Resume.{apply_member, apply_if, apply_all}
use agent_personal_vault.Migration.Loops.{entry, collect, collect-back}
use agent_personal_vault.Migration.Held.{
  Every, CurrentIs, IsTarget, Untouched, CurrentIs-content, CurrentIs-Replaced,
}
use agent_personal_vault.Migration.Kept.{
  write_private_bytes-Replaced, record_applied-Untouched, Targets, one_if,
}

some_inj : {A : Type 0} {x y : A} → some x ≡ some y → x ≡ y
some_inj e = cc

module _ {W B : Type 0} (f : Files W B) (laws : FilesLaws f) where
  hash_current-record :
      (m : Member) (s : Staged) (w : W) (h : Staged × String)
      → hash_current f m s w ≡ ok h
      → s ≡ h.0
  hash_current-record m s w h e = let (_, _, e1) = >>=-eq_ok _ _ e in ap (λ x. x.0) (ok_inj e1)

  read_candidate-target :
      (m : Member) (h : Staged × String) (w : W) (b : B)
      → read_candidate f m h w ≡ ok (some b)
      → IsTarget f laws h.0 b
  unfolding read_candidate
  read_candidate-target m h w b e = let (there, _, e1) = >>=-eq_ok _ _ e in split there e1
    where
      split :
          (there : Bool)
          → (if there
              then (read_file f (next m) w >>= λ candidate.
                  require
                    (f.sha256 candidate == h.0.target.sha256)
                    (value_error "migration staging file is invalid")
                  >> ok (some candidate))
              else require (is_target f h) (value_error "migration staging file is missing")
                >> ok none)
            ≡ ok (some b)
          → IsTarget f laws h.0 b
      split true k =
          let (candidate, _, k1) = >>=-eq_ok _ _ k in
          let (_, passed, k2) = >>=-eq_ok _ _ k1 in
          subst (λ x. (f.sha256 x == h.0.target.sha256) ≡ true) (some_inj (ok_inj k2))
            (require-eq_ok _ _ passed)
      split false k = let (_, _, k1) = >>=-eq_ok _ _ k in absurd (no_candidate k1)
        where
          no_candidate : ok none ≡ ok (some b) → ⊥
          no_candidate q = cc

  check_member-target :
      (stand : Bool) (passphrase : String) (m : Member) (h : Staged × String) (w : W) (s : Staged)
      (o : Option B)
      → check_member f stand passphrase m h w ≡ ok (s, o)
      → (h.0 ≡ s) × ((b : B) → o ≡ some b → IsTarget f laws s b)
  unfolding check_member
  check_member-target stand passphrase m h w s o e =
      let (_, _, e1) = >>=-eq_ok _ _ e in
      let (candidate, read, e2) = >>=-eq_ok _ _ e1 in
      let same : h.0 ≡ s = ap (λ x. x.0) (ok_inj e2) in
      let candidate_o : candidate ≡ o = ap (λ x. x.1) (ok_inj e2) in
      (
        same,
        λ b o_b.
            subst (λ x. IsTarget f laws x b) same
              (read_candidate-target m h w b (read ∙ ap ok (candidate_o ∙ o_b))),
      )

  -- The candidates that passed the checks.
  pub checks-Targets :
      (staged : Present Staged) (stand : Bool) (passphrase : String) (w : W)
      (hashes : Present (Staged × String)) (targets : Present (Staged × Option B))
      → collect (λ m s. hash_current f m s) staged w ≡ ok hashes
      → collect (λ m h. check_member f stand passphrase m h) hashes w ≡ ok targets
      → Targets f laws staged targets
  checks-Targets staged stand passphrase w hashes targets e e' m s o listed =
      let (h, at, checked) =
        collect-back (λ m h. check_member f stand passphrase m h) hashes w targets m (s, o) e'
          listed in
      let (s', at', hashed) = collect-back (λ m s. hash_current f m s) staged w hashes m h e at in
      let (same, fits) = check_member-target stand passphrase m h w s o checked in
      (at' ∙ ap some (hash_current-record m s' w h hashed ∙ same), fits)

  -- A round that returned leaves the target.
  apply_member-Returns :
      (staged : Present Staged) (k : Member) (t : Staged × Option B) (applied : List Member) (w : W)
      → Returns
          (λ _ w'. CurrentIs f laws (IsTarget f laws) k t.0 w')
          (apply_member f staged k t applied w)
  unfolding apply_member
  apply_member-Returns staged k t applied w = continue-Returns _ _ _ λ payload _.
      continue-Returns _ _ _ λ _ _. continue-Returns _ _ _ λ b reads_b.
        continue-Returns _ _ _ λ _ passed. Returns-each _ λ ms w' e.
          let (there, _) = laws.read-content (current k) _ _ b reads_b in
          let kept =
            subst (Untouched f laws _) (ap (λ x. x.1) e)
              (record_applied-Untouched f laws staged k applied _) in
          CurrentIs-content f laws (IsTarget f laws) k t.0 _ w' (kept.currents k)
            (record { bytes = b; there = there; holds = require-eq_ok _ _ passed })

  module _ (staged : Present Staged) (targets : Present (Staged × Option B))
      (found : Targets f laws staged targets)
      (listed_in : (m : Member) (s : Staged)
        → entry m staged ≡ some s
        → (o : Option B) × (entry m targets ≡ some (s, o))) where
    -- A target stays one in the rounds of the other members.
    done-keeps :
        (m : Member) (s : Staged)
        → entry m staged ≡ some s
        → (k : Member) (t : Option (Staged × Option B)) (applied : List Member) (w : W)
        → entry k targets ≡ t
        → CurrentIs f laws (IsTarget f laws) m s w
        → CurrentIs f laws (IsTarget f laws) m s (apply_if f staged k t applied w).1
    done-keeps m s here =
        one_if f laws (CurrentIs f laws (IsTarget f laws) m s) staged targets
          (λ k s' b w listed done.
            let (at, fits) = found k s' (some b) listed in
            CurrentIs-Replaced f laws (IsTarget f laws) m k s b w _
              (write_private_bytes-Replaced f laws k b w)
              (λ m_k.
                subst (λ x. IsTarget f laws x b)
                  (some_inj (sym at ∙ ap (λ n. entry n staged) (sym m_k) ∙ here)) (fits b refl))
              done)
          (λ w w' u done. CurrentIs-content f laws (IsTarget f laws) m s w w' (u.currents m) done)

    apply_if-Returns :
        (k : Member) (t : Option (Staged × Option B)) (applied : List Member) (w : W)
        → entry k targets ≡ t
        → Returns
            (λ _ w'.
              (s : Staged) → entry k staged ≡ some s → CurrentIs f laws (IsTarget f laws) k s w')
            (apply_if f staged k t applied w)
    apply_if-Returns k none applied w e = record {
      post = λ s listed. let (o, at) = listed_in k s listed in absurd (none_some (sym e ∙ at));
    }
      where
        none_some : {x : Staged × Option B} → none ≡ some x → ⊥
        none_some h = cc
    apply_if-Returns k (some t) applied w e = Returns-each _ λ ms w' returned s listed.
        let (o, at) = listed_in k s listed in
        let same : t ≡ (s, o) = some_inj (sym e ∙ at) in
        subst (λ x. CurrentIs f laws (IsTarget f laws) k x w') (ap (λ x. x.0) same)
          (Returns-at (apply_member-Returns staged k t applied w) returned)

    after :
        (m k : Member) (t : Option (Staged × Option B)) (applied : List Member) (w w' : W)
        {a : List Member}
        → entry k targets ≡ t
        → apply_if f staged k t applied w ≡ (ok a, w')
        → ((s : Staged) → entry m staged ≡ some s → CurrentIs f laws (IsTarget f laws) m s w)
        → (s : Staged) → entry m staged ≡ some s
        → CurrentIs f laws (IsTarget f laws) m s w'
    after m k t applied w w' at e done s listed =
        subst (CurrentIs f laws (IsTarget f laws) m s) (ap (λ x. x.1) e)
          (done-keeps m s listed k t applied w at (done s listed))

    -- The loop, when it returns, has left every target.
    pub apply_all-Returns :
        (applied : List Member) (w : W)
        → Returns
            (λ _ w'. Every (CurrentIs f laws (IsTarget f laws)) staged w')
            (apply_all f staged targets applied w)
    apply_all-Returns applied w =
        Returns-step (apply_if f staged vault (some targets.of_vault) applied w) _ λ a1 w1 e1.
          Returns-step (apply_if f staged consent targets.of_consent a1 w1) _ λ a2 w2 e2.
            Returns-each (apply_if f staged audit targets.of_audit a2 w2) λ a3 w3 e3 m.
              elim m
                as (λ n.
                  (s : Staged)
                  → entry n staged ≡ some s
                  → CurrentIs f laws (IsTarget f laws) n s w3) [
                    | vault ↦ after vault audit targets.of_audit a2 w2 w3 refl e3 (
                        after vault consent targets.of_consent a1 w1 w2 refl e2 (
                          Returns-at (apply_if-Returns vault (some targets.of_vault) applied w refl)
                            e1))
                    | consent ↦
                        after consent audit targets.of_audit a2 w2 w3 refl e3
                          (Returns-at (apply_if-Returns consent targets.of_consent a1 w1 refl) e2)
                    | audit ↦ Returns-at (apply_if-Returns audit targets.of_audit a2 w2 refl) e3
                  ]
