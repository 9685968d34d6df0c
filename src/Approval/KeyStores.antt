-- ===== src/Approval/KeyStores.antt =====
-- model/key_request.go: the table of the key requests, and what its handlers see of model/api_key.go.
use foundryvtt_rest_api_rela.Base.{
  Bool, Dict, Option, String, [], false, find_row, if◌then◌else◌, insert, is_some, lookup, ltb,
  map_rows, nat_eq, none, some, string_eq, suc, ℕ, ◌&&◌, ◌==◌,
}
use foundryvtt_rest_api_rela.Access.Cache.{ApiKey}
use foundryvtt_rest_api_rela.Approval.Status.{Status, expired, is_pending}

pub record KeyRequest : Type 0 where
  pub code : String
  pub app_name : String
  pub app_description : String
  pub app_url : Option String
  pub requested_scopes : String
  pub requested_client_ids : String
  pub callback_url : Option String
  pub suggested_monthly_limit : Option ℕ
  pub suggested_expiry : Option String
  pub status : Status
  pub approved_key_id : Option ℕ
  pub approved_by_id : Option ℕ
  pub exchange_code : Option String
  pub expires_at : ℕ

-- The two tables and the next ids that the database gives.
pub record KeyTables : Type 0 where
  pub requests : Dict ℕ KeyRequest
  pub next_request : ℕ
  pub keys : Dict ℕ ApiKey
  pub next_key : ℕ

-- Which calls of the stores fail.
pub record Faults : Type 0 where
  pub finds : Bool
  pub finds_key : Bool
  pub creates : Bool
  pub creates_key : Bool
  pub updates : Bool

abbrev pub no_faults : Faults
no_faults = record {
  finds = false;
  finds_key = false;
  creates = false;
  creates_key = false;
  updates = false;
}

-- SELECT * FROM KeyRequests WHERE code = $1; an error and no row are answered alike.
unfoldable pub find_by_code : Faults → String → KeyTables → Option (ℕ × KeyRequest)
find_by_code f code t = if f.finds then none else find_row (λ r. r.code == code) t.requests

abbrev pub has_text : String → Option String → Bool
has_text s none = false
has_text s (some u) = u == s

unfoldable pub find_by_exchange_code : Faults → String → KeyTables → Option (ℕ × KeyRequest)
find_by_exchange_code f code t =
    if f.finds then none else find_row (λ r. has_text code r.exchange_code) t.requests

-- What the caller of FindByID makes of its result, as it drops the error: a query that fails gives a
-- pointer to a row of zero values.
abbrev pub zero_key : ApiKey
zero_key = record {
  id = 0;
  key = "";
  user_id = 0;
  enabled = false;
  expires_at = none;
  scopes = "";
  scoped_client_id = none;
  scoped_client_ids = none;
  monthly_limit = none;
  requests_this_month = 0;
}

abbrev pub id_of : Option ℕ → ℕ
id_of none = 0
id_of (some n) = n

unfoldable pub find_key : Faults → Option ℕ → KeyTables → Option ApiKey
find_key f id t = if f.finds_key then some zero_key else lookup (id_of id) t.keys

-- UPDATE KeyRequests SET … WHERE id = $n.
unfoldable pub update_row : Faults → ℕ → KeyRequest → KeyTables → KeyTables
update_row f id row t = if f.updates then t else record t { requests = insert id row t.requests }

-- The code is UNIQUE: a second row with it is refused.
unfoldable pub create_row : Faults → KeyRequest → KeyTables → Option KeyTables
create_row f row t =
    if f.creates
    then none
    else if is_some (find_row (λ r. r.code == row.code) t.requests)
    then none
    else some (record t {
      requests = insert t.next_request row t.requests;
      next_request = suc t.next_request;
    })

-- `WHERE status = 'pending' AND expiresAt < now`
abbrev pub expire_if_due : ℕ → KeyRequest → KeyRequest
expire_if_due now r =
    if is_pending r.status && ltb r.expires_at now then record r { status = expired } else r

unfoldable pub cleanup_expired : ℕ → KeyTables → KeyTables
cleanup_expired now t = record t { requests = map_rows (expire_if_due now) t.requests }

unfoldable pub no_tables : KeyTables
no_tables = record { requests = []; next_request = 1; keys = []; next_key = 1 }
