-- ===== src/Tests/Plans.antt =====
-- Planning hints at concrete inputs.
use agent_personal_vault.Prelude.{String, ◌≡◌, refl, false, none, [], ◌∷◌}
use agent_personal_vault.Vault.Planning.{
  Numbered, map_list, contains, replace_from, select_hints, specific_first, selected_hints,
  agent_context_for,
}
use agent_personal_vault.Vault.PlanningSecrecy.{agent_context_for_hides_values}
use agent_personal_vault.Tests.Desk.{platform}
use agent_personal_vault.Tests.Vaults.{store_of, draft, drafts-FilledAlike}

abbrev name_of : Numbered → String
name_of h = h.1.name

-- `name kana` is not taken for `name` too.
kana_selected :
    map_list name_of (selected_hints (λ s. s) "email and name kana")
    ≡ "full_name_kana" ∷ "email" ∷ []
unfolding selected_hints specific_first select_hints contains replace_from
kana_selected = refl

agent_context_for_hides_values_example :
    agent_context_for platform (λ s. s) (store_of "hanako@example.test") false none "email"
    ≡ agent_context_for platform (λ s. s) draft false none "email"
agent_context_for_hides_values_example =
    agent_context_for_hides_values platform (λ s. s) draft (store_of "hanako@example.test") false
      none "email" drafts-FilledAlike
