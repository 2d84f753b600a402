-- ===== src/Consent/Once.antt =====
-- A consent token is consumed at most once, and only for what it was granted for.
use mathlib.Core.Bool.{false≢true}
use mathlib.Core.Path.{ap₂}
use agent_personal_vault.Prelude.{
  not, ℕ, String, ◌≡◌, ◌≢◌, ◌∙◌, refl, sym, ap, subst, true, false, none, some, List, ◌∷◌, All,
  All-split, ◌==◌, leb,
}
use agent_personal_vault.Result.{ok_inj, ok, Gives-at}
use agent_personal_vault.Exec.{Returns-at}
use agent_personal_vault.Python.Json.{
  Json, null, truthy, str, arr, obj, Fields, of_list, get, get_or_null, get-put,
}
use agent_personal_vault.Platform.{Platform, PlatformLaws, whole_second}
use agent_personal_vault.Host.{Host, HostLaws, SameConsent}
use agent_personal_vault.Audit.Operation.{AuditOperation}
use agent_personal_vault.Consent.State.{
  require_list, load_state, normalize_grant, normalize_records,
}
use agent_personal_vault.Consent.Find.{Found, replace_found, find_grant}
use agent_personal_vault.Consent.Use.{Selection}
use agent_personal_vault.Consent.Consume.{with_grant, prepare_consent_consumption}
use agent_personal_vault.Consent.Conditions.{Selects, select_grant-Selects}
use agent_personal_vault.Consent.ForToken.{FirstForToken, find_grant-FirstForToken}
use agent_personal_vault.Consent.Inversion.{Consumed, Holds-SameConsent, spent, consumption-Returns}
use agent_personal_vault.Consent.Stored.{
  require_list-HasGrants, normalize_state-StoredGrants, load_state-HasGrants,
}
use agent_personal_vault.Consent.FindLaws.{some_inj, find_grant-SplitAt, find_grant-split}
use agent_personal_vault.Consent.Normal.{
  HasNoId, normalize_grant-SameBut, is_grant_of-eq, normalize_records-StoredSplit,
  normalize_records-IsOther,
}

module _ {W : Type 0} (p : Platform) (h : Host W) (laws : HostLaws h) where
  -- A consumption that returns found, in the grants of the consent file, the first one that belongs to
  -- the token, by the digest that it stores, or by its id if it stores none; and that grant was unused
  -- and not expired, for exactly the action, the key and the purpose that were given.
  pub consumption_needs_grant :
      (consent_id action key purpose actor : String) (w w' : W) (result : Fields)
      (op : AuditOperation)
      → prepare_consent_consumption p h consent_id action key purpose actor w
        ≡ (ok (result, op), w')
      → (s : Selection) × (selects : Selects p h consent_id action key purpose w s) × FirstForToken
          consent_id selects.first.digest selects.grants s.found
        × (leb s.expires_at (whole_second (h.now w).0) ≡ false)
  consumption_needs_grant consent_id action key purpose actor w w' result op e =
      let c = Returns-at (consumption-Returns p h laws consent_id action key purpose actor w) e in
      let s = select_grant-Selects p h consent_id action key purpose w c.selected c.selects in
      (
        c.selected,
        s,
        find_grant-FirstForToken consent_id s.first.digest s.grants c.selected.found s.first.finds,
        c.in_time,
      )

-- Every grant in the consent file is kept by its digest alone, as in every file that this version
-- has written.
abbrev pub IsDigested : {W : Type 0} → Platform → Host W → W → Type 0
IsDigested p h w =
    (state : Fields) (grants : List Json)
    → load_state p h w ≡ ok state
    → require_list (get_or_null "grants" state) ≡ ok grants
    → All HasNoId grants

module _ {W : Type 0} (p : Platform) (plaws : PlatformLaws p) (h : Host W) (laws : HostLaws h) where
  -- What the file shows of the grants behind a consumption.
  abbrev used_grants : Selection → ℕ → List Json
  used_grants s used_at = replace_found s.found (spent p s used_at)

  -- The search in the stored form of those grants ends at the grant that was used.
  pub find_grant-used :
      (consent_id digest : String) (s : Selection) (used_at : ℕ) (grants stored : List Json)
      → All HasNoId grants
      → find_grant consent_id digest grants ≡ ok (some s.found)
      → normalize_records p (normalize_grant p) (used_grants s used_at) ≡ ok stored
      → (f : Found) × (find_grant consent_id digest stored ≡ ok (some f))
        × (get "used_at" f.record_found ≡ some (str (p.isoformat used_at)))
  find_grant-used consent_id digest s used_at grants stored no_ids finds normal =
      let at = find_grant-SplitAt consent_id digest grants finds in
      let no_ids' : All HasNoId (replace_found s.found s.found.record_found) =
        subst (All HasNoId) at.whole no_ids in
      let parts =
        All-split HasNoId s.found.before (obj s.found.record_found ∷ s.found.after) no_ids' in
      let used = spent p s used_at in
      let used_same : (key : String)
          → ("used_at" == key) ≡ false
          → get key used ≡ get key s.found.record_found =
        λ key other.
          rw (get-put "used_at" key (str (p.isoformat used_at)) s.found.record_found, other) refl in
      let split =
        Gives-at (normalize_records-StoredSplit p s.found.before used s.found.after) normal in
      let same =
        Gives-at (normalize_grant-SameBut p used (used_same "id" refl ∙ parts.1.0))
          split.r_stored in
      let matches =
        is_grant_of-eq p consent_id digest s.found.record_found split.r'
          (same "token_digest" refl ∙ used_same "token_digest" refl)
          (same "id" refl ∙ used_same "id" refl)
        ∙ at.matches in
      let others =
        Gives-at (normalize_records-IsOther p consent_id digest s.found.before parts.0 at.others)
          split.before_stored in
      (
        record { before = split.before'; record_found = split.r'; after = split.after' },
        ap (find_grant consent_id digest) split.whole
            ∙ find_grant-split consent_id digest split.before' split.r' split.after' others matches,
        same "used_at" refl
            ∙ rw (get-put "used_at" "used_at" (str (p.isoformat used_at)) s.found.record_found)
                refl,
      )

  marked-used :
      (r : Fields) (t : String)
      → get "used_at" r ≡ some (str t)
      → (t == "") ≡ false
      → truthy p.zero_float (get_or_null "used_at" r) ≡ true
  marked-used r t e nonempty =
      subst (λ o. truthy p.zero_float (elim o [ none ↦ null | some v ↦ v ]) ≡ true) (sym e)
        (ap not nonempty)

  -- A selection at the file that a consumption has left cannot be of the same token.
  Selects-used :
      {consent_id action key purpose action' key' purpose' : String} {w w' w'' : W}
      {result : Fields} {s' : Selection}
      → IsDigested p h w
      → Consumed p h laws consent_id action key purpose result w w'
      → SameConsent h w' w''
      → ¬ Selects p h consent_id action' key' purpose' w'' s'
  Selects-used {consent_id} {action} {key} {purpose} {w = w} {w'' = w''} {s' = s'} digested c same
        again =
      let s = select_grant-Selects p h consent_id action key purpose w c.selected c.selects in
      let used = used_grants c.selected c.used_at in
      let held = Holds-SameConsent c.holds same in
      let (stored, normal, has_stored) =
        Gives-at
          (normalize_state-StoredGrants p used
            (with_grant c.selected (spent p c.selected c.used_at))
            (rw (get-put "grants" "grants" (arr (of_list used)) c.selected.state) refl))
          held.normalizes in
      let has' =
        Gives-at
          (load_state-HasGrants p h stored held.stored w'' held.exists held.content has_stored)
          again.loads in
      let listed : again.grants ≡ stored =
        ok_inj (sym again.lists ∙ require_list-HasGrants stored s'.state has') in
      let digests : again.first.digest ≡ s.first.digest =
        ok_inj (sym again.first.digests ∙ s.first.digests) in
      let (f, finds, used_mark) =
        find_grant-used consent_id s.first.digest c.selected c.used_at s.grants stored
          (digested _ s.grants s.loads s.lists) s.first.finds normal in
      let found : s'.found ≡ f =
        some_inj
          (ok_inj (sym again.first.finds ∙ ap₂ (find_grant consent_id) digests listed ∙ finds)) in
      let mark = ap (λ g. get "used_at" g.record_found) found ∙ used_mark in
      false≢true (
        sym again.permits.unused
        ∙ marked-used s'.found.record_found _ mark (plaws.isoformat_ne c.used_at))

  -- A token that was consumed is not consumed again, for whatever action, key and purpose, while
  -- the consent file stays as the consumption has left it; before, every grant in the file was kept
  -- by its digest alone.
  pub consumption_once :
      (consent_id action key purpose actor : String) (w w' : W) (result : Fields)
      (op : AuditOperation)
      → IsDigested p h w
      → prepare_consent_consumption p h consent_id action key purpose actor w
        ≡ (ok (result, op), w')
      → (action' key' purpose' actor' : String) (w'' : W) → SameConsent h w' w''
      → (again : Fields × AuditOperation)
      → (prepare_consent_consumption p h consent_id action' key' purpose' actor' w'').0 ≢ ok again
  consumption_once consent_id action key purpose actor w w' result op digested e action' key'
        purpose' actor' w'' same again e' =
      let c = Returns-at (consumption-Returns p h laws consent_id action key purpose actor w) e in
      let c' =
        Returns-at (consumption-Returns p h laws consent_id action' key' purpose' actor' w'') (λ i.
          (
            e' i,
            (prepare_consent_consumption p h consent_id action' key' purpose' actor' w'').1,
          )) in
      Selects-used digested c same
        (select_grant-Selects p h consent_id action' key' purpose' w'' c'.selected c'.selects)
