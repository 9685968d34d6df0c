-- ===== src/Ws/Remote/Tests.antt =====
-- remote_request.go at concrete inputs.
use foundryvtt_rest_api_rela.Base.{
  List, [], arith, delete, eqb, false, if◌then◌else◌, inl, length, lookup, nat_eq, none, not, refl,
  some, string_eq, true, ℕ, ◌<◌, ◌==◌, ◌||◌, ◌∷◌, ◌≡◌,
}
use foundryvtt_rest_api_rela.Base.Json.{Value, Members, Object}
use foundryvtt_rest_api_rela.Model.Csv.{trim_left, trim_right, trim_space, split, items}
use foundryvtt_rest_api_rela.Model.Scopes.{KnownClient, can_target, has_remote_scope}
use foundryvtt_rest_api_rela.Model.Catalogue.{action_to_scope_required, scope_for_action}
use foundryvtt_rest_api_rela.Ws.Pending.{run, WsResponse, new_pending}
use foundryvtt_rest_api_rela.Ws.Pending.Inv.{Inv, run-new_pending-Inv}
use foundryvtt_rest_api_rela.Ws.Client.{Connection, new_client, mark_disconnected}
use foundryvtt_rest_api_rela.Ws.Manager.Defs.{Manager, new_manager}
use foundryvtt_rest_api_rela.Ws.Remote.Gate.{Request, ConnectionToken, Store, admitted, gate}
use foundryvtt_rest_api_rela.Ws.Remote.GateLaws.{IsAdmitted, gate_sound, RateAllows, gate_complete}
use foundryvtt_rest_api_rela.Ws.Remote.Delivery.{
  success, Outcome, fails, error_of, reply_of, response, result_of, finish,
}

ask : Request
ask = record {
  request_id = "src_1";
  target_client_id = "world_b";
  action = "search";
  payload = Members.empty;
  auto_start = false;
}

token : ConnectionToken
token = record { user_id = 7; name = "Firefox on Linux" }

world_a : KnownClient
world_a = record {
  id = 1;
  user_id = 7;
  client_id = "world_a";
  auto_start_on_remote_request = false;
  allowed_target_clients = some "world_b, world_c";
  remote_scopes = some "search";
  remote_requests_per_hour = 0;
}

world_b : KnownClient
world_b = record world_a { id = 2; client_id = "world_b"; remote_scopes = none }

store : Store
store = record {
  token = λ id. if eqb id 4 then some token else none;
  known = λ user id.
      if not (eqb user 7)
      then none
      else if id == "world_a"
      then some world_a
      else if id == "world_b"
      then some world_b
      else none;
}

passes : gate ask "world_a" 4 store store 100 [] ≡ (admitted token world_b, [])
unfolding gate ask token world_a world_b store can_target has_remote_scope items trim_space
    trim_left trim_right split scope_for_action action_to_scope_required lookup
passes = refl

gate_sound_example : IsAdmitted ask "world_a" 4 store store token world_b
gate_sound_example = gate_sound ask "world_a" 4 100 store store token world_b [] [] passes

fields_there : (ask.request_id == "" || ask.target_client_id == "" || ask.action == "") ≡ false
unfolding ask
fields_there = refl

stands_behind : IsAdmitted ask "world_a" 4 store store token world_b
unfolding ask token world_a world_b store can_target has_remote_scope items trim_space trim_left
    trim_right split scope_for_action action_to_scope_required lookup
stands_behind = record {
  authenticated = ground arith;
  source_token = refl;
  source_world = (
    world_a,
    refl,
    record { other_world = refl; target_listed = refl; scope_granted = ("search", refl, refl) },
  );
  target_owned = (token, refl, refl);
}

unlimited : RateAllows stands_behind.source_world.0 100 []
unfolding stands_behind world_a
unlimited = inl refl

gate_complete_example : (gate ask "world_a" 4 store store 100 []).0 ≡ admitted token world_b
gate_complete_example =
    gate_complete ask "world_a" 4 100 store store token world_b [] stands_behind fields_there
      unlimited

connection : Connection
connection = record {
  remote_addr = "10.0.0.1:1";
  id = "world_b";
  token = "account_key_hash";
  token_name = "";
  world_id = "";
  world_title = "";
  foundry_version = "";
  system_id = "";
  system_title = "";
  system_version = "";
  custom_name = "";
  public_url = "";
}

manager : Manager
manager = new_manager true "relay-1" (λ _. new_client connection 5)

gone : Manager
gone = new_manager true "relay-1" (λ _. mark_disconnected (new_client connection 5))

found : Object
found = ("total", Value.num "3") ∷ ("requestId", Value.str "rr_1") ∷ []

total : Object
total = ("total", Value.num "3") ∷ []

reply : WsResponse
reply = record { status_code = 200; body = some found; raw_data = none }

no_parse : List ℕ → Outcome
no_parse raw = fails "not JSON"

stripped : (finish no_parse "rr_1" (response (some reply)) new_pending).0 ≡ success (some total)
unfolding finish result_of reply_of reply found lookup delete total
stripped = refl

on : (manager.heap 0).connected ≡ true
unfolding manager new_manager new_client
on = refl

room : length (manager.heap 0).send_ch < 1024
unfolding manager new_manager new_client
room = omega arith

no_error : error_of (some found) ≡ ""
unfolding found lookup
no_error = refl

new_pending-Inv : Inv new_pending
unfolding new_pending run
new_pending-Inv = run-new_pending-Inv []

nothing_pending : lookup "rr_1" new_pending.requests ≡ none
unfolding new_pending lookup
nothing_pending = refl

off : (gone.heap 0).connected ≡ false
unfolding gone new_manager new_client mark_disconnected
off = refl
