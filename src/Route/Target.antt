-- ===== src/Route/Target.antt =====
-- handler/helpers/route.go: which world a request goes to, and as which user there.
use foundryvtt_rest_api_rela.Base.{
  Bool, Dict, List, Option, String, [], contains, if◌then◌else◌, insert, lookup, nat_eq, none,
  select, some, string_eq, true, ℕ, ◌==◌, ◌∷◌,
}
use foundryvtt_rest_api_rela.Base.Json.{Value, Object}
use foundryvtt_rest_api_rela.Access.Context.{RequestContext, ScopedKeyInfo}
use foundryvtt_rest_api_rela.Ws.Manager.Defs.{Manager}
use foundryvtt_rest_api_rela.Ws.Manager.Queries.{get_connected_clients}
use foundryvtt_rest_api_rela.Route.Params.{Params, get_string}

-- The context of the middleware, with the key's user ids, which it passes on.
pub record Caller : Type 0 where
  pub context : RequestContext
  pub scoped_user_id : String
  pub scoped_user_ids : Dict String String

-- AutoStartFunc, `none` where the server does not set it. It blocks, and other clients come and go
-- meanwhile: it gives the id, empty if it did not start a world, and the manager as it is then.
abbrev pub AutoStart : Type 0
AutoStart = Option (RequestContext → String → Manager → String × Manager)

-- `no_answer` writes nothing.
pub data Answer : Type 0 where
  error : ℕ → String → Answer
  refused_params : Object → Answer
  multiple_clients : List String → Answer
  invalid_client : String → Answer
  binary : ℕ → String → Option String → List ℕ → Answer
  raw_json : ℕ → List ℕ → Answer
  json : ℕ → Object → Answer
  no_answer : Answer

abbrev pub key_of : Option Caller → Option ScopedKeyInfo
key_of none = none
key_of (some c) = c.context.scoped_key

unfoldable pub can_access_client : ScopedKeyInfo → String → Bool
can_access_client k id = elim k.scoped_client_ids [
  | [] ↦ true
  | first ∷ rest ↦ contains id (first ∷ rest)
]

abbrev pub with_client : String → Params → Params
with_client id p = insert "clientId" (Value.str id) p

-- The only client of the key is selected where none is requested.
abbrev pub auto_selected : List String → Params → Params
auto_selected (id ∷ []) p = with_client id p
auto_selected _ p = p

abbrev pub enforce_clients : ScopedKeyInfo → List String → Params → Option Params
enforce_clients k [] p =
    some (if k.scoped_client_id == "" then p else with_client k.scoped_client_id p)
enforce_clients k (id ∷ ids) p =
    if get_string "clientId" p == ""
    then some (auto_selected (id ∷ ids) p)
    else if can_access_client k (get_string "clientId" p)
    then some p
    else none

-- `none` for a client that the key must not reach.
unfoldable pub enforce_scope : Option ScopedKeyInfo → Params → Option Params
enforce_scope none p = some p
enforce_scope (some k) p = enforce_clients k k.scoped_client_ids p

-- The connected clients of the account that the key may reach.
unfoldable pub allowed_clients : Option ScopedKeyInfo → List String → List String
allowed_clients none ids = ids
allowed_clients (some k) ids = select (can_access_client k) ids

-- The id and the manager, or the answer that ends the request.
pub data Resolution : Type 0 where
  ends : Answer → Manager → Resolution
  client : String → Manager → Resolution

abbrev pub started : String × Manager → Resolution
started (id, m) =
    if id == "" then ends (error 404 "No connected Foundry clients found") m else client id m

unfoldable pub start_any : AutoStart → RequestContext → Manager → Resolution
start_any none ctx m = ends (error 404 "No connected Foundry clients found") m
start_any (some start) ctx m = started (start ctx "" m)

abbrev pub choose : AutoStart → RequestContext → List String → Manager → Resolution
choose start ctx [] m = start_any start ctx m
choose start ctx (id ∷ []) m = client id m
choose start ctx (id ∷ other ∷ ids) m = ends (multiple_clients (id ∷ other ∷ ids)) m

abbrev pub choose_for : AutoStart → Option Caller → Manager → Resolution
choose_for start none m = ends (error 400 "'clientId' is required") m
choose_for start (some c) m =
    let key = c.context.master_api_key in
    if key == ""
    then ends (error 400 "'clientId' is required") m
    else choose start c.context (allowed_clients c.context.scoped_key (get_connected_clients key m))
        m

unfoldable pub resolve_client : AutoStart → Option Caller → Params → Manager → Resolution
resolve_client start caller p m =
    if get_string "clientId" p == ""
    then choose_for start caller m
    else client (get_string "clientId" p) m

-- The user id for the client: of the key's map, if it has one, else the key's single one.
abbrev pub user_for : Caller → String → String
user_for c id = elim c.scoped_user_ids [
  | [] ↦ c.scoped_user_id
  | first ∷ rest ↦ elim (lookup id (first ∷ rest)) [ none ↦ "" | some u ↦ u ]
]

abbrev pub inject : String → Params → Params
inject user p = if user == "" then p else insert "userId" (Value.str user) p

unfoldable pub inject_user : Option Caller → String → Params → Params
inject_user none id p = p
inject_user (some c) id p = elim c.context.scoped_key [
  | none ↦ p
  | some k ↦ inject (user_for c id) p
]

-- Where the request goes: a client that is registered, with the parameters as they are then.
pub data Target : Type 0 where
  ended : Answer → Manager → Target
  goes_to : String → ℕ → Params → Manager → Target

abbrev pub registered : String × Params × Manager → Target
registered (id, p, m) = elim (lookup id m.clients) [
  | none ↦ ended (invalid_client id) m
  | some ref ↦ goes_to id ref p m
]

-- A start for the client that is not connected, by API keys alone; without a started client the
-- manager is not asked again.
abbrev pub restarted : String → Params → String × Manager → Target
restarted id p (id', m) =
    if id' == "" then ended (invalid_client id) m else registered (id', with_client id' p, m)

unfoldable pub start_missing : AutoStart → Option Caller → String → Params → Manager → Target
start_missing none caller id p m = ended (invalid_client id) m
start_missing (some start) none id p m = ended (invalid_client id) m
start_missing (some start) (some c) id p m = elim c.context.scoped_key [
  | none ↦ ended (invalid_client id) m
  | some k ↦ restarted id p (start c.context id m)
]

unfoldable pub get_target : AutoStart → Option Caller → String → Params → Manager → Target
get_target start caller id p m = elim (lookup id m.clients) [
  | some ref ↦ goes_to id ref p m
  | none ↦ start_missing start caller id p m
]

abbrev pub found : AutoStart → Option Caller → Params → Resolution → Target
found start caller p (ends a m) = ended a m
found start caller p (client id m) =
    get_target start caller id
      (inject_user caller id (if get_string "clientId" p == "" then with_client id p else p)) m

unfoldable pub find_target : AutoStart → Option Caller → Params → Manager → Target
find_target start caller p m = elim (enforce_scope (key_of caller) p) [
  | none ↦ ended (error 403 "API key is not authorized for this client") m
  | some p' ↦ found start caller p' (resolve_client start caller p' m)
]
