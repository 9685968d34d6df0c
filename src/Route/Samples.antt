-- ===== src/Route/Samples.antt =====
-- Parameters, worlds and callers for the runs of the HTTP route.
use foundryvtt_rest_api_rela.Base.{
  List, String, [], false, if◌then◌else◌, nat_eq, none, some, string_eq, true, ◌==◌, ◌∷◌,
}
use foundryvtt_rest_api_rela.Base.Json.{Value}
use foundryvtt_rest_api_rela.Access.Cache.{User}
use foundryvtt_rest_api_rela.Access.Context.{ScopedKeyInfo}
use foundryvtt_rest_api_rela.Ws.Client.{Connection, new_client}
use foundryvtt_rest_api_rela.Ws.Manager.Defs.{Manager, new_manager, add_client}
use foundryvtt_rest_api_rela.Route.Params.{
  from_query, from_body, type_string, type_number, ParamDef, Params, Input, Parsers,
}
use foundryvtt_rest_api_rela.Route.Target.{Caller}

abbrev pub client_id_param : ParamDef
client_id_param = record {
  name = "clientId";
  from = from_query ∷ [];
  kind = some type_string;
  required = false;
}

abbrev pub limit_param : ParamDef
limit_param = record {
  name = "limit";
  from = from_body ∷ from_query ∷ [];
  kind = some type_number;
  required = true;
}

-- GET /search?limit=5
abbrev pub input : Input
input = record {
  query = λ name. if name == "limit" then "5" else "";
  body = [];
  url_param = λ name. "";
}

abbrev pub parsers : Parsers
parsers = record { parse_float = λ s. if s == "5" then some "5" else none; parse_array = λ s. none }

abbrev pub limit_five : Params
limit_five = ("limit", Value.num "5") ∷ []

abbrev pub connection : String → String → Connection
connection id token = record {
  remote_addr = "10.0.0.1:1";
  id = id;
  token = token;
  token_name = "";
  world_id = "w";
  world_title = "";
  foundry_version = "13";
  system_id = "dnd5e";
  system_title = "";
  system_version = "";
  custom_name = "";
  public_url = "";
}

abbrev pub empty : Manager
empty = new_manager false "relay-1" (λ _. new_client (connection "" "") 0)

-- A world of the account "account_a", then one of "account_b".
abbrev pub one : Manager
one = (add_client (connection "world_a" "account_a") 5 empty).1

abbrev pub two : Manager
two = (add_client (connection "world_b" "account_b") 6 one).1

abbrev pub user : User
user = record {
  id = 7;
  api_key_hash = some "account_a";
  email_verified = true;
  api_key_rotation_required = false;
  disabled = false;
  subscription_status = none;
  requests_this_month = 0;
}

abbrev pub key_for : List String → ScopedKeyInfo
key_for ids = record {
  id = 3;
  key_prefix = [];
  scoped_client_id = "";
  scoped_client_ids = ids;
  scopes = "search" ∷ [];
  monthly_limit = 0;
  monthly_limit_set = false;
  requests_this_month = 0;
}

abbrev pub caller : List String → Caller
caller ids = record {
  context = record {
    user = user;
    master_api_key = "account_a";
    scoped_key = some (key_for ids);
    subscription_status = "free";
    is_session_auth = false;
  };
  scoped_user_id = "gm";
  scoped_user_ids = [];
}

abbrev pub as_gm : Params
as_gm =
    ("limit", Value.num "5") ∷ ("clientId", Value.str "world_a") ∷ ("userId", Value.str "gm") ∷ []
