-- ===== src/Route/TargetTests.antt =====
-- The parameters and the choice of the world at concrete inputs.
use foundryvtt_rest_api_rela.Base.{
  All, ◌⊎◌, List, String, [], add_member, arith, contains, false, insert, lookup, nat_eq, none,
  refl, some, string_eq, true, ℕ, ◌∷◌, ◌≡◌,
}
use foundryvtt_rest_api_rela.Ws.Client.{new_client}
use foundryvtt_rest_api_rela.Ws.Manager.Groups.{join, members}
use foundryvtt_rest_api_rela.Ws.Manager.Defs.{new_manager, add_client, accept, announce, register}
use foundryvtt_rest_api_rela.Ws.Manager.Queries.{get_connected_clients}
use foundryvtt_rest_api_rela.Ws.Manager.Registry.{Inv, new_manager-Inv}
use foundryvtt_rest_api_rela.Ws.Manager.Arrival.{add_client-Inv}
use foundryvtt_rest_api_rela.Ws.Address.{same_host}
use foundryvtt_rest_api_rela.Route.Params.{
  params, read, first_of, coerce_type, extract_params, extract_each, get_string, refused,
}
use foundryvtt_rest_api_rela.Base.Json.{Value}
use foundryvtt_rest_api_rela.Route.Params.{from_body, from_query, type_number}
use foundryvtt_rest_api_rela.Route.ParamLaws.{extract_params_lem}
use foundryvtt_rest_api_rela.Route.Conversions.{IsSilent, GivesFirst, Converts}
use foundryvtt_rest_api_rela.Route.Target.{
  can_access_client, enforce_scope, allowed_clients, resolve_client, inject_user, with_client,
  get_target, find_target, goes_to,
}
use foundryvtt_rest_api_rela.Route.TargetLaws.{scoped_target}
use foundryvtt_rest_api_rela.Route.Ownership.{account_target, sole_client_unchecked}
use foundryvtt_rest_api_rela.Route.Samples.{
  as_gm, caller, client_id_param, connection, empty, input, key_for, limit_five, limit_param, one,
  parsers, two,
}

extracted : extract_params parsers input (client_id_param ∷ limit_param ∷ []) ≡ params limit_five
unfolding extract_each first_of read lookup coerce_type insert
extracted = refl

not_a_number :
    extract_params parsers (record input { query = λ name. "five" }) (limit_param ∷ [])
    ≡ refused "'limit' must be a valid number"
unfolding extract_each first_of read lookup coerce_type insert
not_a_number = refl

extract_params_lem_example :
    (All (IsSilent input "limit") (from_body ∷ from_query ∷ [])
      × (lookup "limit" limit_five ≡ none))
    ⊎ ((v w : Value) × GivesFirst input "limit" (from_body ∷ from_query ∷ []) v
        × Converts parsers (some type_number) v w
        × (lookup "limit" limit_five ≡ some w))
unfolding contains
extract_params_lem_example =
    extract_params_lem parsers input (client_id_param ∷ []) [] limit_param limit_five refl refl
      extracted

-- A key for two worlds, of which one is connected for the account.
abbrev listed : List String
listed = "world_a" ∷ "world_c" ∷ []

to_world_a : find_target none (some (caller listed)) limit_five one ≡ goes_to "world_a" 0 as_gm one
unfolding find_target enforce_scope can_access_client allowed_clients resolve_client
    get_connected_clients get_target inject_user get_string add_client accept announce register
    new_manager join members contains add_member new_client insert lookup
to_world_a = refl

scoped_target_example : (contains "world_a" listed ≡ true) × (lookup "world_a" one.clients ≡ some 0)
scoped_target_example =
    scoped_target none (caller listed) (key_for listed) "world_a" ("world_c" ∷ []) limit_five one
      "world_a" 0 as_gm one tt refl refl to_world_a

none_before :
    (r : ℕ)
    → lookup "world_a" empty.clients ≡ some r
    → same_host (empty.heap r).ip_address "10.0.0.1:1" ≡ true
    → (empty.heap r).api_key ≡ "account_a"
unfolding new_manager lookup
none_before r e same = absurd (ground (arith, e))

one-Inv : Inv one
unfolding new_manager
one-Inv =
    add_client-Inv (connection "world_a" "account_a") 5 empty
      (new_manager-Inv false "relay-1" (λ _. new_client (connection "" "") 0)) none_before refl

account_target_example :
    (one ≡ one) × ((one.heap 0).api_key ≡ "account_a") × ((one.heap 0).connected ≡ true)
unfolding enforce_scope get_string lookup
account_target_example =
    account_target none (caller listed) limit_five limit_five one "world_a" 0 as_gm one one-Inv tt
      refl refl to_world_a

world_b_there : lookup "world_b" two.clients ≡ some 1
unfolding add_client accept announce register new_manager insert lookup
world_b_there = refl

-- The key of "account_a" names a world of "account_b".
sole_client_unchecked_example :
    find_target none (some (caller ("world_b" ∷ []))) limit_five two
    ≡ goes_to "world_b" 1
        (inject_user (some (caller ("world_b" ∷ []))) "world_b" (with_client "world_b" limit_five))
        two
unfolding get_string lookup
sole_client_unchecked_example =
    sole_client_unchecked none (caller ("world_b" ∷ [])) (key_for ("world_b" ∷ [])) "world_b"
      limit_five two 1 refl refl refl refl world_b_there

owner_of_world_b : (two.heap 1).api_key ≡ "account_b"
unfolding add_client accept announce register new_manager new_client insert lookup
owner_of_world_b = refl
