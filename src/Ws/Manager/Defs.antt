-- ===== src/Ws/Manager/Defs.antt =====
-- manager.go: the manager's state, and how clients come and go.
use foundryvtt_rest_api_rela.Base.{
  Bool, Dict, List, Option, String, [], codes, delete, eqb, if◌then◌else◌, insert, length, lookup,
  ltb, nat_eq, none, some, string_eq, suc, update, ℕ, ◌&&◌, ◌&◌, ◌++◌, ◌+◌, ◌-◌, ◌==◌, ◌∷◌,
}
use foundryvtt_rest_api_rela.Ws.Address.{same_host}
use foundryvtt_rest_api_rela.Ws.Client.{
  Client, Connection, ClientInfo, new_client, update_last_seen, disconnect_with_reason,
  set_connection_token_id, info,
}
use foundryvtt_rest_api_rela.Ws.Manager.Groups.{Groups, join, leave}

-- The payload of a disconnect broadcast.
pub record DisconnectCmd : Type 0 where
  pub kind : String
  pub client_id : String
  pub connection_token_id : ℕ
  pub api_key : String
  pub reason : String
  pub close_code : ℕ
  pub origin : String

pub data Event : Type 0 where
  redis_set : String → String → Event
  redis_sadd redis_srem : String → String → Event
  redis_expire redis_del : String → Event
  redis_publish : DisconnectCmd → Event
  on_client_connected : String → String → ClientInfo → Event
  on_client_removed : String → String → Event
  on_sse_close : String → Event
  on_duplicate_rejected : String → String → String → String → Event
  rejected_close : ℕ → String → Event

-- `active` is the gauge WSConnectionsActive.
pub record Manager : Type 0 where
  pub clients : Dict String ℕ
  pub token_groups : Groups
  pub heap : ℕ → Client
  pub next : ℕ
  pub active : ℕ
  pub redis_connected : Bool
  pub instance_id : String
  pub events : List Event

abbrev pub log_events : List Event → Manager → Manager
log_events es m = record m { events = m.events ++ es }

abbrev pub when_redis : Manager → List Event → List Event
when_redis m es = if m.redis_connected then es else []

-- A call on the client behind a pointer. A panic of the call has no successor state; the laws of
-- the client show that it does not come, and the model leaves the client as it was.
abbrev pub after_call : Client → Option Client → Client
after_call c none = c
after_call c (some c') = c'

abbrev pub client_at : String → Manager → Option Client
client_at id m = elim (lookup id m.clients) [ none ↦ none | some r ↦ some (m.heap r) ]

-- Takes the id out of the map and out of the group of `token`.
unfoldable pub unregister : String → String → Manager → Manager
unregister id token m = record m {
  clients = delete id m.clients;
  token_groups = leave token id m.token_groups;
  active = m.active - 1;
}

-- The stale connection from the same host: taken out of the map and of the group of the NEW
-- connection's token, then told to go by a goroutine.
unfoldable pub evict : String → String → ℕ → Manager → Manager
evict id token r m =
    let m' = unregister id token m in
    record m' {
      heap = update m'.heap r (
          after_call (m'.heap r) (disconnect_with_reason 1000 "Replaced by reconnect" (m'.heap r)));
    }

unfoldable pub register : Connection → ℕ → Manager → Manager
register conn now m = record m {
  clients = insert conn.id m.next m.clients;
  token_groups = join conn.token conn.id m.token_groups;
  heap = update m.heap m.next (new_client conn now);
  next = suc m.next;
}

-- `pipe.Set` of a field that is not empty.
abbrev pub set_field : String → String → String → List Event
set_field id field value =
    if value == "" then [] else redis_set ("client:" & id & ":" & field) value ∷ []

unfoldable pub registration_events : Connection → Manager → List Event
registration_events conn m =
    (redis_set ("apikey:" & conn.token & ":instance") m.instance_id
      ∷ redis_set ("client:" & conn.id & ":instance") m.instance_id
      ∷ redis_set ("client:" & conn.id & ":apikey") conn.token
      ∷ [])
    ++ (set_field conn.id "worldId" conn.world_id
        ++ (set_field conn.id "worldTitle" conn.world_title
            ++ (set_field conn.id "foundryVersion" conn.foundry_version
                ++ (set_field conn.id "systemId" conn.system_id
                    ++ (set_field conn.id "systemTitle" conn.system_title
                        ++ (set_field conn.id "systemVersion" conn.system_version
                            ++ (set_field conn.id "customName" conn.custom_name
                                ++ (redis_sadd ("apikey:" & conn.token & ":clients") conn.id
                                    ∷ redis_expire ("apikey:" & conn.token & ":clients")
                                    ∷ []))))))))

pub data AddResult : Type 0 where
  added : ℕ → AddResult
  duplicate panicked : AddResult

-- The part of AddClient behind the lock. `token[:8]` panics on a shorter token, and only with Redis.
unfoldable pub announce : Connection → ℕ → Manager → AddResult × Manager
announce conn r m =
    if m.redis_connected && ltb (length (codes conn.token)) 8 then (panicked, m) else (
      added r,
      record m {
        events =
            m.events
            ++ (when_redis m (registration_events conn m)
                ++ on_client_connected conn.id conn.token (info m.instance_id (m.heap r)) ∷ []);
        active = m.active + 1;
      },
    )

unfoldable pub reject : Connection → String → Manager → Manager
reject conn existing_ip m =
    log_events
      (rejected_close 4004 "Client ID already connected"
        ∷ on_duplicate_rejected conn.id conn.token conn.remote_addr existing_ip
        ∷ [])
      m

-- The registration of a connection and what follows it.
unfoldable pub accept : Connection → ℕ → Manager → AddResult × Manager
accept conn now m = announce conn m.next (register conn now m)

unfoldable pub add_client : Connection → ℕ → Manager → AddResult × Manager
add_client conn now m = elim (lookup conn.id m.clients) [
  | none ↦ accept conn now m
  | some r ↦
      if same_host (m.heap r).ip_address conn.remote_addr
      then accept conn now (evict conn.id conn.token r m)
      else (duplicate, reject conn (m.heap r).ip_address m)
]

abbrev pub sse_close_cmd : String → String → DisconnectCmd
sse_close_cmd id origin = record {
  kind = "sse-close";
  client_id = id;
  connection_token_id = 0;
  api_key = "";
  reason = "";
  close_code = 0;
  origin = origin;
}

-- What is published and deleted in Redis; `remaining` is the size of the key's client set there.
unfoldable pub removal_events : String → String → ℕ → Manager → List Event
removal_events id token remaining m =
    redis_publish (sse_close_cmd id m.instance_id)
    ∷ redis_del ("client:" & id & ":instance")
    ∷ redis_del ("client:" & id & ":apikey")
    ∷ redis_del ("client:" & id & ":connectionTokenId")
    ∷ redis_srem ("apikey:" & token & ":clients") id
    ∷ (if remaining == 0
        then redis_del ("apikey:" & token & ":instance")
          ∷ redis_del ("apikey:" & token & ":clients")
          ∷ []
        else [])

-- `remaining id token` is what Redis answers to SCARD of the token's set once `id` is removed from it.
-- The common body of RemoveClient and RemoveClientIfMatch, for a client that is registered.
unfoldable pub remove_registered : String → (String → String → ℕ) → ℕ → Manager → Manager
remove_registered id remaining r m =
    let token = (m.heap r).api_key in
    log_events
      (on_client_removed id token
        ∷ on_sse_close id
        ∷ when_redis m (removal_events id token (remaining id token) m))
      (unregister id token m)

unfoldable pub remove_client : String → (String → String → ℕ) → Manager → Manager
remove_client id remaining m = elim (lookup id m.clients) [
  | none ↦ m
  | some r ↦ remove_registered id remaining r m
]

unfoldable pub remove_client_if_match : String → ℕ → (String → String → ℕ) → Manager → Manager
remove_client_if_match id expected remaining m = elim (lookup id m.clients) [
  | none ↦ m
  | some r ↦ if eqb r expected then remove_registered id remaining r m else m
]

-- The ids of the clients that are no longer alive.
unfoldable pub dead_clients : (ℕ → Client) → Dict String ℕ → List String
dead_clients heap [] = []
dead_clients heap ((id, r) ∷ rest) =
    let more = dead_clients heap rest in if (heap r).connected then more else id ∷ more

unfoldable pub remove_all : (String → String → ℕ) → List String → Manager → Manager
remove_all remaining [] m = m
remove_all remaining (id ∷ ids) m = remove_all remaining ids (remove_client id remaining m)

unfoldable pub cleanup_inactive_clients : (String → String → ℕ) → Manager → Manager
cleanup_inactive_clients remaining m = remove_all remaining (dead_clients m.heap m.clients) m

unfoldable pub set_client_connection_token_id : String → ℕ → String → Manager → Manager
set_client_connection_token_id id token_id decimal m = elim (lookup id m.clients) [
  | none ↦ m
  | some r ↦
      log_events
        (if eqb token_id 0
          then []
          else when_redis m (redis_set ("client:" & id & ":connectionTokenId") decimal ∷ []))
        (record m { heap = update m.heap r (set_connection_token_id token_id (m.heap r)) })
]

unfoldable pub update_client_last_seen : String → ℕ → Manager → Manager
update_client_last_seen id now m = elim (lookup id m.clients) [
  | none ↦ m
  | some r ↦
      let token = (m.heap r).api_key in
      log_events
        (when_redis m (
          redis_expire ("client:" & id & ":instance")
          ∷ redis_expire ("client:" & id & ":apikey")
          ∷ redis_expire ("apikey:" & token & ":clients")
          ∷ redis_expire ("apikey:" & token & ":instance")
          ∷ []))
        (record m { heap = update m.heap r (update_last_seen now (m.heap r)) })
]

unfoldable pub new_manager : Bool → String → (ℕ → Client) → Manager
new_manager redis_connected instance_id heap = record {
  clients = [];
  token_groups = [];
  heap = heap;
  next = 0;
  active = 0;
  redis_connected = redis_connected;
  instance_id = instance_id;
  events = [];
}
