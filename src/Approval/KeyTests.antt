-- ===== src/Approval/KeyTests.antt =====
-- handler/key_request.go at concrete inputs.
use foundryvtt_rest_api_rela.Base.{
  List, [], arith, contains, eqb_iff, find_row, insert, lookup, nat_eq, none, refl, some, string_eq,
  ◌∷◌, ◌≡◌, ◌≤◌,
}
use foundryvtt_rest_api_rela.Model.Csv.{trim_left, trim_right, trim_space, split, items, join}
use foundryvtt_rest_api_rela.Model.Scopes.{parse_scopes, scopes_string}
use foundryvtt_rest_api_rela.Model.Catalogue.{all_scopes, is_valid_scope, validate_scopes}
use foundryvtt_rest_api_rela.Approval.Urls.{Net}
use foundryvtt_rest_api_rela.Approval.KeyStores.{
  Faults, KeyRequest, KeyTables, create_row, find_by_code, find_key, no_faults, no_tables,
  update_row,
}
use foundryvtt_rest_api_rela.Approval.Keys.{
  NewRequest, new_row, Approval, approve_key, Call, asks, polls, approving, granted, request_key,
  hand_out, key_status, chosen_scopes, first_ungranted, granted_key, approved_row, grant, step,
}
use foundryvtt_rest_api_rela.Approval.Keys.Inv.{Inv}
use foundryvtt_rest_api_rela.Approval.Keys.Delivery.{times_handed, key_handed_once}
use foundryvtt_rest_api_rela.Approval.Keys.Lifecycle.{Life, run, run-Life}
use foundryvtt_rest_api_rela.Approval.Keys.Grants.{Grant, approve_key_lem}

abbrev open_net : Net
open_net = record { parse_request_uri = λ raw. none; parse_ip = λ host. none }

abbrev asked : NewRequest
asked = record {
  app_name = "Table";
  app_description = "";
  app_url = "";
  scopes = "entity:read" ∷ "search" ∷ [];
  client_ids = [];
  callback_url = "";
  suggested_monthly_limit = none;
  suggested_expiry = "";
}

abbrev approval : Approval
approval = record {
  scopes = "search" ∷ [];
  client_ids = [];
  monthly_limit = none;
  expires_at = none;
}

-- A request is made, approved, and polled twice.
abbrev calls : List (Faults × Call)
calls =
    (no_faults, asks open_net (some asked) (some "ABC123") 0)
    ∷ (no_faults, approving 7 "ABC123" approval (some "key") "exchange" 5)
    ∷ (no_faults, polls "ABC123" 6)
    ∷ (no_faults, polls "ABC123" 7)
    ∷ []

handed_once : times_handed 1 calls no_tables ≡ 1
unfolding times_handed no_tables step request_key create_row approve_key find_by_code new_row
    first_ungranted chosen_scopes grant granted_key approved_row key_status hand_out find_key
    update_row validate_scopes is_valid_scope all_scopes contains find_row insert lookup
    parse_scopes scopes_string trim_space split items join trim_left trim_right
handed_once = refl

key_handed_once_example : times_handed 1 calls no_tables ≤ 1
key_handed_once_example = key_handed_once 1 calls (omega arith) (refl, (refl, (refl, (refl, tt))))

abbrev asking : KeyRequest
asking = new_row asked "ABC123" 0

abbrev one_request : KeyTables
one_request = record { requests = (1, asking) ∷ []; next_request = 2; keys = []; next_key = 1 }

one_request-Inv : Inv one_request
unfolding lookup
one_request-Inv = record {
  distinct = (refl, tt);
  unused = λ i h. ground (arith, h, eqb_iff 1 i);
  own_id = λ n k h. absurd (ground (arith, h));
}

abbrev later_calls : List (Faults × Call)
later_calls =
    (no_faults, approving 7 "ABC123" approval (some "key") "exchange" 5)
    ∷ (no_faults, polls "ABC123" 6)
    ∷ []

run-Life_example :
    (row : KeyRequest) × (lookup 1 (run later_calls one_request).requests ≡ some row)
    × (row.code ≡ asking.code)
    × (row.requested_scopes ≡ asking.requested_scopes)
    × Life asking.status row.status
unfolding lookup
run-Life_example = run-Life 1 later_calls asking one_request one_request-Inv refl

abbrev after_approval : KeyTables
after_approval = (approve_key no_faults 7 "ABC123" approval (some "key") "exchange" 5 one_request).1

approval_granted :
    approve_key no_faults 7 "ABC123" approval (some "key") "exchange" 5 one_request
    ≡ (granted 1 ("search" ∷ []) none, after_approval)
unfolding approve_key find_by_code new_row first_ungranted chosen_scopes grant granted_key
    approved_row validate_scopes is_valid_scope all_scopes contains find_row insert lookup
    parse_scopes scopes_string trim_space split items join trim_left trim_right
approval_granted = refl

approve_key_lem_example : Grant no_faults 7 "ABC123" approval 5 one_request 1 after_approval
approve_key_lem_example =
    approve_key_lem no_faults 7 "ABC123" approval 5 one_request (some "key") "exchange" 1
      ("search" ∷ []) none after_approval approval_granted
