-- ===== src/Ws/Manager/Tests.antt =====
-- manager.go at concrete inputs.
use foundryvtt_rest_api_rela.Base.{
  Bool-cases, String, [], arith, contains, eqb, false, inl, inr, insert, lookup, nat_eq, none, refl,
  some, str_iff, string_eq, true, ℕ, ◌==◌, ◌∷◌, ◌≡◌,
}
use foundryvtt_rest_api_rela.Ws.Address.{same_host}
use foundryvtt_rest_api_rela.Ws.Client.{Connection, new_client, set_connection_token_id}
use foundryvtt_rest_api_rela.Ws.Client.Laws.{Inv as IsSound}
use foundryvtt_rest_api_rela.Ws.Manager.Defs.{
  Manager, register, added, announce, accept, add_client, remove_client_if_match, new_manager,
  set_client_connection_token_id,
}
use foundryvtt_rest_api_rela.Ws.Manager.Registry.{
  Inv, new_manager-Inv, leaving, leaving-Inv, removes, if_match, cleans,
}
use foundryvtt_rest_api_rela.Ws.Manager.Arrival.{TokenFits, add_client-Inv}
use foundryvtt_rest_api_rela.Ws.Manager.Queries.{get_connected_clients, broadcast_to_group}
use foundryvtt_rest_api_rela.Ws.Manager.Isolation.{broadcast_isolated}
use foundryvtt_rest_api_rela.Ws.Manager.Replacement.{
  replaced, add_client_replaces, eviction_leaves_id_in_old_group,
}
use foundryvtt_rest_api_rela.Ws.Manager.Disconnects.{disconnect_local_by_token}
use foundryvtt_rest_api_rela.Ws.Manager.Revocation.{AllSound, ClosedIf, token_revocation_exact}
use foundryvtt_rest_api_rela.Ws.Manager.Routing.{
  Handlers, handlers_or_nil, on_message_type, pong, type_of,
}

abbrev conn : String → String → String → Connection
conn id token addr = record {
  remote_addr = addr;
  id = id;
  token = token;
  token_name = "Firefox on Linux";
  world_id = "w";
  world_title = "";
  foundry_version = "12";
  system_id = "dnd5e";
  system_title = "";
  system_version = "";
  custom_name = "";
  public_url = "";
}

abbrev empty : Manager
empty = new_manager false "relay-1" (λ _. new_client (conn "" "" "") 0)

-- One client of "key_a", then one of "key_b".
one : Manager
one = (add_client (conn "a" "key_a" "10.0.0.1:1") 5 empty).1

two : Manager
two = (add_client (conn "b" "key_b" "10.0.0.2:1") 6 one).1

no_client : (id : String) → lookup id empty.clients ≡ none
unfolding new_manager lookup
no_client id = refl

empty-Inv : Inv empty
empty-Inv = new_manager-Inv false "relay-1" (λ _. new_client (conn "" "" "") 0)

new_client-IsSound : (c : Connection) (now : ℕ) → IsSound (new_client c now)
unfolding new_client
new_client-IsSound c now = ground arith

none_a :
    (r : ℕ)
    → lookup "a" empty.clients ≡ some r
    → same_host (empty.heap r).ip_address "10.0.0.1:1" ≡ true
    → (empty.heap r).api_key ≡ "key_a"
none_a r e same = ground (arith, no_client "a", e)

one-Inv : Inv one
unfolding one new_manager
one-Inv = add_client-Inv (conn "a" "key_a" "10.0.0.1:1") 5 empty empty-Inv none_a refl

no_b : lookup "b" one.clients ≡ none
unfolding one add_client accept announce register new_manager insert lookup
no_b = refl

none_b :
    (r : ℕ)
    → lookup "b" one.clients ≡ some r
    → same_host (one.heap r).ip_address "10.0.0.2:1" ≡ true
    → (one.heap r).api_key ≡ "key_b"
none_b r e same = ground (arith, no_b, e)

two-Inv : Inv two
unfolding two one add_client accept announce register new_manager lookup
two-Inv = add_client-Inv (conn "b" "key_b" "10.0.0.2:1") 6 one one-Inv none_b refl

lookup_a : lookup "a" two.clients ≡ some 0
unfolding two one add_client accept announce register new_manager insert lookup
lookup_a = refl

lookup_b : lookup "b" two.clients ≡ some 1
unfolding two one add_client accept announce register new_manager insert lookup
lookup_b = refl

two-AllSound : AllSound two.heap
unfolding two one add_client accept announce register new_manager insert lookup
two-AllSound q = elim (Bool-cases (eqb 1 q)) [
  | inl b ↦ rw b (new_client-IsSound _ _)
  | inr other ↦ rw other (elim (Bool-cases (eqb 0 q)) [
    | inl a ↦ rw a (new_client-IsSound _ _)
    | inr none_of_them ↦ rw none_of_them (new_client-IsSound _ _)
  ])
]

key_of_a : (two.heap 0).api_key ≡ "key_a"
unfolding two one add_client accept announce register new_manager insert lookup new_client
key_of_a = refl

key_of_b : (two.heap 1).api_key ≡ "key_b"
unfolding two one add_client accept announce register new_manager insert lookup new_client
key_of_b = refl

address_of_a : (two.heap 0).ip_address ≡ "10.0.0.1:1"
unfolding two one add_client accept announce register new_manager insert lookup new_client
address_of_a = refl

same_host_a : same_host (two.heap 0).ip_address "10.0.0.1:2" ≡ true
unfolding same_host
same_host_a = rw address_of_a refl

back :
    (r : ℕ)
    → lookup "a" two.clients ≡ some r
    → same_host (two.heap r).ip_address "10.0.0.1:2" ≡ true
    → (two.heap r).api_key ≡ "key_a"
back r e same = ground (arith, lookup_a, key_of_a)

no_redis : two.redis_connected ≡ false
unfolding two one add_client accept announce register new_manager insert lookup
no_redis = refl

fits : (c : Connection) → TokenFits c two
fits c = ground (arith, no_redis)

-- A client comes back under its id from the same host.
add_client-Inv_example : Inv (add_client (conn "a" "key_a" "10.0.0.1:2") 9 two).1
add_client-Inv_example =
    add_client-Inv (conn "a" "key_a" "10.0.0.1:2") 9 two two-Inv back
      (fits (conn "a" "key_a" "10.0.0.1:2"))

leaving-Inv_example : Inv (leaving (if_match "a" 0 ∷ cleans ∷ removes "b" ∷ []) (λ _ _. 0) two)
leaving-Inv_example =
    leaving-Inv (if_match "a" 0 ∷ cleans ∷ removes "b" ∷ []) (λ _ _. 0) two two-Inv

broadcast_isolated_example : (broadcast_to_group "a" pong two).heap 1 ≡ two.heap 1
broadcast_isolated_example =
    broadcast_isolated "a" pong 0 1 two two-Inv lookup_a
      (inl (ground (arith, key_of_a, key_of_b, str_iff "key_a" "key_b")))

add_client_replaces_example :
    let m' = (add_client (conn "a" "key_a" "10.0.0.1:2") 9 two).1 in
    ((add_client (conn "a" "key_a" "10.0.0.1:2") 9 two).0 ≡ added two.next)
    × (lookup "a" m'.clients ≡ some two.next)
    × (m'.heap 0 ≡ replaced (two.heap 0))
    × (remove_client_if_match "a" 0 (λ _ _. 0) m' ≡ m')
add_client_replaces_example =
    add_client_replaces (conn "a" "key_a" "10.0.0.1:2") 9 0 (λ _ _. 0) two two-Inv (two-AllSound 0)
      lookup_a same_host_a (fits (conn "a" "key_a" "10.0.0.1:2"))

eviction_leaves_id_in_old_group_example :
    let m' = (add_client (conn "a" "key_b" "10.0.0.1:2") 9 two).1 in
    (contains "a" (get_connected_clients (two.heap 0).api_key m') ≡ true)
    × ((q : ℕ) × (lookup "a" m'.clients ≡ some q) × ((m'.heap q).api_key ≡ "key_b"))
eviction_leaves_id_in_old_group_example =
    eviction_leaves_id_in_old_group (conn "a" "key_b" "10.0.0.1:2") 9 0 two two-Inv lookup_a
      same_host_a (ground (arith, key_of_a, str_iff "key_a" "key_b"))
      (fits (conn "a" "key_b" "10.0.0.1:2"))

-- The client "a" has authenticated with token 5.
abbrev bearing : Manager
bearing = set_client_connection_token_id "a" 5 "5" two

bearing-AllSound : AllSound bearing.heap
unfolding set_client_connection_token_id set_connection_token_id
bearing-AllSound q =
    rw (lookup_a, set_client_connection_token_id)
      (elim (Bool-cases (eqb 0 q)) [
        | inl a ↦ ground (arith, a, two-AllSound 0)
        | inr other ↦ ground (arith, other, two-AllSound q)
      ])

lookup_bearer : lookup "a" bearing.clients ≡ some 0
unfolding set_client_connection_token_id two one add_client accept announce register new_manager
    insert lookup
lookup_bearer = refl

token_of_bearer : (bearing.heap 0).connection_token_id ≡ 5
unfolding set_client_connection_token_id set_connection_token_id two one add_client accept announce
    register new_manager insert lookup
token_of_bearer = refl

token_revocation_exact_example :
    ClosedIf
      (eqb (bearing.heap 0).connection_token_id 5)
      4002
      "Token revoked"
      (bearing.heap 0)
      ((disconnect_local_by_token 5 4002 "Token revoked" bearing).1.heap 0)
token_revocation_exact_example =
    token_revocation_exact 5 4002 "Token revoked" "a" 0 bearing bearing-AllSound (ground arith)
      lookup_bearer

relay : Manager
relay = new_manager true "relay-1" (λ _. new_client (conn "" "" "") 0)

peer : Manager
peer = new_manager true "relay-2" (λ _. new_client (conn "" "" "") 0)

relay_redis : relay.redis_connected ≡ true
unfolding relay new_manager
relay_redis = refl

relay_other : (relay.instance_id == peer.instance_id) ≡ false
unfolding relay peer new_manager
relay_other = refl

handlers : Handlers
handlers = on_message_type "search-result" 3 (record { parsed = []; raw = [] })

no_raw : handlers_or_nil (lookup (type_of pong) handlers.raw) ≡ []
unfolding handlers on_message_type lookup
no_raw = refl
