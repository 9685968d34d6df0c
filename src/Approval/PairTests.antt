-- ===== src/Approval/PairTests.antt =====
-- handler/pair_request.go and handler/connection_tokens.go at concrete inputs.
use foundryvtt_rest_api_rela.Base.{
  String, [], arith, eqb_iff, false, find_row, insert, lookup, nat_eq, none, refl, some, string_eq,
  ◌∷◌, ◌≡◌, ◌≢◌,
}
use foundryvtt_rest_api_rela.Model.CsvLaws.{IsClean}
use foundryvtt_rest_api_rela.Model.Csv.{append, trim_left, trim_right, trim_space}
use foundryvtt_rest_api_rela.Approval.Worlds.{
  find_world, set_cross_world_settings, upsert, PairingCode, PairTables,
}
use foundryvtt_rest_api_rela.Approval.Pairs
use foundryvtt_rest_api_rela.Approval.Pairs.Wildcard.{wildcard_survives}
use foundryvtt_rest_api_rela.Approval.Pairing
use foundryvtt_rest_api_rela.Approval.Pairing.{
  paired, Body, claim, choose_client_id, complete, pair, find_code, mark_used, origin_consistent,
  reused, by_existing, by_fingerprint, by_world, world_of, apply_settings, add_token, record_world,
}
use foundryvtt_rest_api_rela.Approval.Pairing.Codes.{IsUnique, pair_once}
use foundryvtt_rest_api_rela.Approval.Settings.{HasSettings, all_up, completed_settings}

abbrev code : PairingCode
code = record {
  user_id = 7;
  code = "XYZ789";
  client_id = none;
  allowed_target_clients = some "world_b";
  remote_scopes = some "search";
  remote_requests_per_hour = 60;
  expires_at = 100;
  used = false;
}

abbrev one_code : PairTables
one_code = record {
  requests = [];
  next_request = 1;
  codes = (1, code) ∷ [];
  next_code = 2;
  worlds = [];
  next_world = 1;
  tokens = [];
  next_token = 1;
}

one_code-IsUnique : IsUnique one_code.codes
unfolding lookup
one_code-IsUnique = record {
  distinct = (refl, tt);
  one_code = λ i j c d h g e. ground (arith, h, g, eqb_iff 1 i, eqb_iff 1 j);
}

abbrev body : Pairing.Body
body = record {
  code = "XYZ789";
  world_id = "dungeon";
  world_title = "Dungeon";
  server_fingerprint = "";
  existing_client_id = "";
  server_origin = "http://localhost:30000";
}

abbrev after_pairing : PairTables
after_pairing = (Pairing.pair all_up body (some ("raw", "hash")) "world_a" 10 11 one_code).1

pairing_once :
    Pairing.pair all_up body (some ("raw", "hash")) "world_a" 10 11 one_code
    ≡ (paired "raw" "world_a", after_pairing)
unfolding Pairing.pair Pairing.claim Pairing.find_code Pairing.complete Pairing.choose_client_id
    Pairing.by_existing Pairing.by_fingerprint Pairing.by_world Pairing.mark_used Pairing.add_token
    Pairing.record_world Pairing.world_of Pairing.apply_settings Pairing.reused
    Pairing.origin_consistent find_world set_cross_world_settings upsert find_row insert lookup
    trim_space trim_left trim_right
pairing_once = refl

pair_once_example :
    (Pairing.pair all_up body (some ("other", "hash2")) "world_c" 20 21 after_pairing).0
    ≢ paired "other" "world_c"
pair_once_example =
    pair_once all_up all_up body body 10 11 20 21 "raw" "hash" "world_a" "world_a"
      (some ("other", "hash2")) "world_c" "other" "world_c" one_code after_pairing one_code-IsUnique
      refl refl pairing_once refl

refused_again :
    (Pairing.pair all_up body (some ("other", "hash2")) "world_c" 20 21 after_pairing).0
    ≡ Pairing.error 410 "Pairing code has already been used"
unfolding Pairing.pair Pairing.claim Pairing.find_code Pairing.complete Pairing.choose_client_id
    Pairing.by_existing Pairing.by_fingerprint Pairing.by_world Pairing.mark_used Pairing.add_token
    Pairing.record_world Pairing.world_of Pairing.apply_settings Pairing.reused
    Pairing.origin_consistent find_world set_cross_world_settings upsert find_row insert lookup
    trim_space trim_left trim_right
refused_again = refl

-- The same world at the same origin keeps its id.
same_origin : Pairing.choose_client_id all_up code body "world_c" after_pairing ≡ "world_a"
unfolding Pairing.pair Pairing.claim Pairing.find_code Pairing.complete Pairing.choose_client_id
    Pairing.by_existing Pairing.by_fingerprint Pairing.by_world Pairing.mark_used Pairing.add_token
    Pairing.record_world Pairing.world_of Pairing.apply_settings Pairing.reused
    Pairing.origin_consistent find_world set_cross_world_settings upsert find_row insert lookup
    trim_space trim_left trim_right
same_origin = refl

-- The same world id at another origin is another world.
other_origin :
    Pairing.choose_client_id all_up code
      (record body { server_origin = "http://localhost:30001" })
      "world_c"
      after_pairing
    ≡ "world_c"
unfolding Pairing.pair Pairing.claim Pairing.find_code Pairing.complete Pairing.choose_client_id
    Pairing.by_existing Pairing.by_fingerprint Pairing.by_world Pairing.mark_used Pairing.add_token
    Pairing.record_world Pairing.world_of Pairing.apply_settings Pairing.reused
    Pairing.origin_consistent find_world set_cross_world_settings upsert find_row insert lookup
    trim_space trim_left trim_right
other_origin = refl

completed_settings_example :
    let (reply, t') =
      Pairing.complete all_up 1 code body (some ("raw", "hash")) "world_a" one_code in
    (x : String) × (reply ≡ paired "raw" x) × HasSettings 7 x (some "world_b") (some "search") 60 t'
completed_settings_example = completed_settings 1 code body "raw" "hash" "world_a" one_code tt refl

abbrev pairing : Pairs.NewPair
pairing = record {
  client_id = "";
  world_id = "dungeon";
  world_title = "Dungeon";
  requested_remote_scopes = [];
  requested_target_clients = append "world_b" ",*" ∷ [];
  upgrade_only = false;
}

world_b-IsClean : IsClean "world_b"
unfolding trim_right
world_b-IsClean = record { no_comma = ground arith; left = refl; right = refl }

wildcard_survives_example :
    Pairs.shown_targets (Pairs.new_request pairing "XYZ789" 0) ≡ "world_b" ∷ "*" ∷ []
wildcard_survives_example = wildcard_survives "world_b" "XYZ789" pairing 0 world_b-IsClean refl
