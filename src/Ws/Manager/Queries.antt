-- ===== src/Ws/Manager/Queries.antt =====
-- manager.go: who is connected, and messages to the other clients of the sender's API key.
use foundryvtt_rest_api_rela.Base.{
  Bool, Dict, List, Object, Option, String, [], false, if◌then◌else◌, is_some, lookup, nat_eq, none,
  not, select, some, string_eq, suc, update, ℕ, ◌&&◌, ◌==◌, ◌||◌, ◌∷◌,
}
use foundryvtt_rest_api_rela.Ws.Client.{Client, ClientInfo, send, info}
use foundryvtt_rest_api_rela.Ws.Manager.Groups.{members}
use foundryvtt_rest_api_rela.Ws.Manager.Defs.{Manager, client_at}

unfoldable pub get_client : String → Manager → Option Client
get_client id m = client_at id m

-- `client, ok := m.clients[id]; ok && client.IsAlive()`
abbrev pub is_alive : Manager → String → Bool
is_alive m id = elim (lookup id m.clients) [ none ↦ false | some r ↦ (m.heap r).connected ]

-- `hosted` is what Redis holds under client:<id>:instance, empty if nothing.
unfoldable pub is_client_online_anywhere : String → String → Manager → Bool
is_client_online_anywhere id hosted m =
    is_some (client_at id m) || (m.redis_connected && not (hosted == ""))

unfoldable pub get_client_remote_instance : String → String → Manager → String
get_client_remote_instance id hosted m =
    if is_some (client_at id m)
    then ""
    else if not m.redis_connected
    then ""
    else if hosted == m.instance_id
    then ""
    else hosted

unfoldable pub get_connected_clients : String → Manager → List String
get_connected_clients api_key m = select (is_alive m) (members api_key m.token_groups)

infos_of : Manager → List String → List ClientInfo
infos_of m [] = []
infos_of m (id ∷ ids) = elim (lookup id m.clients) [
  | none ↦ infos_of m ids
  | some r ↦
      let rest = infos_of m ids in
      if (m.heap r).connected then info m.instance_id (m.heap r) ∷ rest else rest
]

unfoldable pub get_connected_client_infos : String → Manager → List ClientInfo
unfolding infos_of
get_connected_client_infos api_key m = infos_of m (members api_key m.token_groups)

unfoldable pub count_alive : (ℕ → Client) → Dict String ℕ → ℕ
count_alive heap [] = 0
count_alive heap ((id, r) ∷ m) =
    let rest = count_alive heap m in if (heap r).connected then suc rest else rest

unfoldable pub count_connected_clients : Manager → ℕ
count_connected_clients m = count_alive m.heap m.clients

-- The clients behind those of the ids that are registered and alive.
unfoldable pub alive_refs : Manager → List String → List ℕ
alive_refs m [] = []
alive_refs m (id ∷ ids) = elim (lookup id m.clients) [
  | none ↦ alive_refs m ids
  | some r ↦ let rest = alive_refs m ids in if (m.heap r).connected then r ∷ rest else rest
]

-- The members of the sender's group, but for the sender itself.
unfoldable pub broadcast_targets : String → Manager → List ℕ
broadcast_targets sender m = elim (lookup sender m.clients) [
  | none ↦ []
  | some r ↦
      alive_refs m (select (λ id. not (id == sender)) (members (m.heap r).api_key m.token_groups))
]

unfoldable pub send_each : Object → List ℕ → (ℕ → Client) → ℕ → Client
send_each msg [] heap = heap
send_each msg (r ∷ rs) heap = send_each msg rs (update heap r (send msg (heap r)).1)

unfoldable pub broadcast_to_group : String → Object → Manager → Manager
broadcast_to_group sender msg m = record m {
  heap = send_each msg (broadcast_targets sender m) m.heap;
}
