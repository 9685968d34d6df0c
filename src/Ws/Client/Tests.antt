-- ===== src/Ws/Client/Tests.antt =====
-- client.go at concrete inputs.
use foundryvtt_rest_api_rela.Base.{[], arith, length, some, ◌∷◌, ◌≡◌, ◌≤◌}
use foundryvtt_rest_api_rela.Ws.Client.{Client, Connection, new_client}
use foundryvtt_rest_api_rela.Ws.Client.Laws.{
  Inv, disconnects, disconnects_with, run, run_never_panics,
}

abbrev conn : Connection
conn = record {
  remote_addr = "10.0.0.1:30000";
  id = "fvtt_1";
  token = "hash_of_master_key";
  token_name = "Firefox on Linux";
  world_id = "w";
  world_title = "";
  foundry_version = "12";
  system_id = "dnd5e";
  system_title = "";
  system_version = "";
  custom_name = "";
  public_url = "";
}

fresh-Inv : Inv (new_client conn 7)
unfolding new_client
fresh-Inv = ground arith

run_never_panics_example :
    (c : Client) × (run
        (disconnects ∷ disconnects_with 4002 "x" ∷ disconnects ∷ [])
        (new_client conn 7)
      ≡ some c)
    × (length c.send_ch ≤ 1024)
run_never_panics_example =
    run_never_panics (disconnects ∷ disconnects_with 4002 "x" ∷ disconnects ∷ []) conn 7
