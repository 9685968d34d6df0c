-- ===== src/Model/Tests.antt =====
-- Scopes at concrete inputs.
use foundryvtt_rest_api_rela.Base.{[], arith, lookup, nat_eq, refl, some, string_eq, ◌∷◌, ◌≡◌}
use foundryvtt_rest_api_rela.Model.Csv.{trim_left, trim_right, trim_space, split, items}
use foundryvtt_rest_api_rela.Model.CsvLaws.{IsClean, parse_scopes-scopes_string}
use foundryvtt_rest_api_rela.Model.Scopes.{parse_scopes, scopes_string}
use foundryvtt_rest_api_rela.Model.Catalogue.{action_to_scope_required, scope_for_action}

parse_two : parse_scopes " entity:read , ,search" ≡ "entity:read" ∷ "search" ∷ []
unfolding parse_scopes items trim_space trim_left trim_right split
parse_two = refl

search-IsClean : IsClean "search"
unfolding trim_right
search-IsClean = record { no_comma = ground arith; left = refl; right = refl }

roll-IsClean : IsClean "roll"
unfolding trim_right
roll-IsClean = record { no_comma = ground arith; left = refl; right = refl }

parse_scopes-scopes_string_example :
    parse_scopes (scopes_string ("search" ∷ "roll" ∷ [])) ≡ "search" ∷ "roll" ∷ []
parse_scopes-scopes_string_example =
    parse_scopes-scopes_string ("search" ∷ "roll" ∷ []) (search-IsClean, (roll-IsClean, tt))

scope_for_execute_js : scope_for_action "execute-js" ≡ some "execute-js"
unfolding scope_for_action action_to_scope_required lookup
scope_for_execute_js = refl
