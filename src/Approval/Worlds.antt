-- ===== src/Approval/Worlds.antt =====
-- model/known_client.go, model/pairing_code.go, model/pair_request.go and model/connection_token.go:
-- the tables that pairing a world reads and writes. Instants and durations are nanoseconds. Columns
-- that pairing only stores (the names and versions of the system) are left out.
use foundryvtt_rest_api_rela.Base.{
  Bool, Dict, Option, String, eqb, false, find_row, if◌then◌else◌, insert, is_some, lookup, nat_eq,
  none, some, string_eq, suc, true, ℕ, ◌&&◌, ◌*◌, ◌==◌,
}
use foundryvtt_rest_api_rela.Model.Scopes.{KnownClient}
use foundryvtt_rest_api_rela.Approval.Status.{Status}

-- A row of KnownClients.
pub record World : Type 0 where
  pub client : KnownClient
  pub world_id : Option String
  pub world_title : Option String
  pub server_fingerprint : Option String
  pub public_url : Option String

pub record PairingCode : Type 0 where
  pub user_id : ℕ
  pub code : String
  pub client_id : Option String
  pub allowed_target_clients : Option String
  pub remote_scopes : Option String
  pub remote_requests_per_hour : ℕ
  pub expires_at : ℕ
  pub used : Bool

pub record PairRequest : Type 0 where
  pub code : String
  pub client_id : String
  pub world_id : String
  pub world_title : String
  pub requested_remote_scopes : Option String
  pub requested_target_clients : Option String
  pub upgrade_only : Bool
  pub status : Status
  pub pairing_code : Option String
  pub user_id : Option ℕ
  pub expires_at : ℕ

-- The hash of the token stands for the token.
pub record ConnectionToken : Type 0 where
  pub user_id : ℕ
  pub token_hash : String
  pub client_id : String

pub record PairTables : Type 0 where
  pub requests : Dict ℕ PairRequest
  pub next_request : ℕ
  pub codes : Dict ℕ PairingCode
  pub next_code : ℕ
  pub worlds : Dict ℕ World
  pub next_world : ℕ
  pub tokens : Dict ℕ ConnectionToken
  pub next_token : ℕ

-- What a caller of a query for one row sees: an error comes with a pointer to a row of zero values.
pub data Sought : Type 0 where
  broken : Sought
  missing : Sought
  row : ℕ → World → Sought

abbrev pub zero_world : World
zero_world = record {
  client = record {
    id = 0;
    user_id = 0;
    client_id = "";
    auto_start_on_remote_request = false;
    allowed_target_clients = none;
    remote_scopes = none;
    remote_requests_per_hour = 0;
  };
  world_id = none;
  world_title = none;
  server_fingerprint = none;
  public_url = none;
}

-- The pointer that is tested against nil.
abbrev pub pointer_of : Sought → Option (ℕ × World)
pointer_of broken = some (0, zero_world)
pointer_of missing = none
pointer_of (row id w) = some (id, w)

abbrev pub is_broken : Sought → Bool
is_broken broken = true
is_broken missing = false
is_broken (row id w) = false

abbrev pub equals_text : Option String → String → Bool
equals_text none s = false
equals_text (some u) s = u == s

unfoldable pub find_world : Bool → (World → Bool) → Dict ℕ World → Sought
find_world fails p m =
    if fails then broken else elim (find_row p m) [ none ↦ missing | some (id, w) ↦ row id w ]

abbrev pub is_client : ℕ → String → World → Bool
is_client user_id client_id w = eqb w.client.user_id user_id && w.client.client_id == client_id

abbrev pub is_world : ℕ → String → World → Bool
is_world user_id world_id w = eqb w.client.user_id user_id && equals_text w.world_id world_id

abbrev pub has_fingerprint : ℕ → String → World → Bool
has_fingerprint user_id print w =
    eqb w.client.user_id user_id && equals_text w.server_fingerprint print

abbrev pub is_world_at : ℕ → String → String → World → Bool
is_world_at user_id world_id url w = is_world user_id world_id w && equals_text w.public_url url

-- UPDATE KnownClients SET … WHERE id = $n
abbrev pub with_settings : Option String → Option String → ℕ → World → World
with_settings targets scopes per_hour w = record w {
  client = record w.client {
    allowed_target_clients = targets;
    remote_scopes = scopes;
    remote_requests_per_hour = per_hour;
  };
}

unfoldable pub set_cross_world_settings :
    ℕ → Option String → Option String → ℕ → Dict ℕ World → Dict ℕ World
set_cross_world_settings id targets scopes per_hour m = elim (lookup id m) [
  | none ↦ m
  | some w ↦ insert id (with_settings targets scopes per_hour w) m
]

-- COALESCE(NULLIF(new, ''), old)
abbrev pub or_old : Option String → Option String → Option String
or_old none old = old
or_old (some s) old = if s == "" then old else some s

abbrev pub merged : World → World → World
merged new old = record old {
  world_id = or_old new.world_id old.world_id;
  world_title = or_old new.world_title old.world_title;
  server_fingerprint = or_old new.server_fingerprint old.server_fingerprint;
  public_url = or_old new.public_url old.public_url;
}

-- INSERT … ON CONFLICT (user_id, client_id) DO UPDATE
unfoldable pub upsert : World → PairTables → PairTables
upsert w t = elim (find_row (is_client w.client.user_id w.client.client_id) t.worlds) [
  | some (id, old) ↦ record t { worlds = insert id (merged w old) t.worlds }
  | none ↦ record t { worlds = insert t.next_world w t.worlds; next_world = suc t.next_world }
]

-- The code is UNIQUE. A new code is not used.
unfoldable pub create_code : Bool → PairingCode → PairTables → Option PairTables
create_code fails c t =
    if fails
    then none
    else if is_some (find_row (λ d. d.code == c.code) t.codes)
    then none
    else some (record t {
      codes = insert t.next_code (record c { used = false }) t.codes;
      next_code = suc t.next_code;
    })

abbrev pub filled : String → Option String
filled s = if s == "" then none else some s

abbrev pub minutes : ℕ → ℕ
minutes n = n * 60 * 1000000000
