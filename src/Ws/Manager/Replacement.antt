-- ===== src/Ws/Manager/Replacement.antt =====
-- manager.go, AddClient on an id that is taken: who is replaced, and by whom.
use foundryvtt_rest_api_rela.Base.{
  Bool-cases, eqb_iff, if◌then◌else◌, inl, inr, ◌∙◌, String, [], arith, beq_self, contains,
  contains-select, false, insert, lookup, lookup-insert, nat_eq, some, str_iff, string_eq, true,
  update, ℕ, ◌++◌, ◌∷◌, ◌≡◌, ◌≢◌,
}
use foundryvtt_rest_api_rela.Ws.Address.{same_host}
use foundryvtt_rest_api_rela.Ws.Client.{Client, Connection, new_client, disconnect_with_reason}
use foundryvtt_rest_api_rela.Ws.Client.Laws.{Inv as IsSound}
use foundryvtt_rest_api_rela.Ws.Manager.Groups.{members, join, in_group-join, in_group-leave}
use foundryvtt_rest_api_rela.Ws.Manager.Defs.{
  on_duplicate_rejected, rejected_close, Manager, unregister, evict, register, added, duplicate,
  announce, reject, accept, add_client, remove_client_if_match,
}
use foundryvtt_rest_api_rela.Ws.Manager.Registry.{Inv}
use foundryvtt_rest_api_rela.Ws.Manager.Arrival.{TokenFits}
use foundryvtt_rest_api_rela.Ws.Manager.Queries.{get_connected_clients, is_alive}

-- A connection with a taken id from another host is refused: the registered clients, the groups,
-- the clients' state and the gauge stay as they are, and the rejected socket is closed with 4004.
pub add_client_duplicate :
    (conn : Connection) (now r : ℕ) (m : Manager)
    → lookup conn.id m.clients ≡ some r
    → same_host (m.heap r).ip_address conn.remote_addr ≡ false
    → add_client conn now m ≡ (
      duplicate,
      record m {
        events =
            m.events
            ++ rejected_close 4004 "Client ID already connected"
              ∷ on_duplicate_rejected conn.id conn.token conn.remote_addr (m.heap r).ip_address
              ∷ [];
      },
    )
unfolding add_client reject
add_client_duplicate conn now r m h far = rw (h, add_client) (rw far)

evicting :
    (conn : Connection) (now r : ℕ) (m : Manager)
    → lookup conn.id m.clients ≡ some r
    → same_host (m.heap r).ip_address conn.remote_addr ≡ true
    → add_client conn now m ≡ accept conn now (evict conn.id conn.token r m)
unfolding add_client
evicting conn now r m h near = rw (h, add_client) (rw near)

accepting :
    (conn : Connection) (now : ℕ) (m : Manager)
    → TokenFits conn m
    → ((accept conn now m).0 ≡ added m.next)
      × ((accept conn now m).1.clients ≡ insert conn.id m.next m.clients)
      × ((accept conn now m).1.token_groups ≡ join conn.token conn.id m.token_groups)
      × ((accept conn now m).1.heap ≡ update m.heap m.next (new_client conn now))
unfolding accept announce register
accepting conn now m fits = (rw fits, rw fits, rw fits, rw fits)

-- The old client once it is told to go: its write pump finds `done` closed, and the close frame that
-- it is to write. A client that is disconnected already is left alone.
abbrev pub replaced : Client → Client
replaced c =
    if c.connected
    then record c {
      connected = false;
      done = true;
      close_msg = some (1000, "Replaced by reconnect");
    }
    else c

-- Where groups and clients agree, the old client is sound (its `done` channel is not closed while it
-- counts as connected, and its send channel not overfull) and, with Redis, the token has at least
-- eight bytes: a connection with a taken id from the same host is registered as a new client under
-- the id. The old client, if it was connected, is
-- disconnected with `done` closed and the close code 1000 to be written, and is otherwise as it was.
-- When its read pump ends, its cleanup finds another client under the id and changes nothing.
pub add_client_replaces :
    (conn : Connection) (now r : ℕ) (remaining : String → String → ℕ) (m : Manager)
    → Inv m
    → IsSound (m.heap r)
    → lookup conn.id m.clients ≡ some r
    → same_host (m.heap r).ip_address conn.remote_addr ≡ true
    → TokenFits conn m
    → let m' = (add_client conn now m).1 in
      ((add_client conn now m).0 ≡ added m.next)
      × (lookup conn.id m'.clients ≡ some m.next)
      × (m'.heap r ≡ replaced (m.heap r))
      × (remove_client_if_match conn.id r remaining m' ≡ m')
unfolding evict unregister remove_client_if_match disconnect_with_reason
add_client_replaces conn now r remaining m v s h near fits = rw (evicting conn now r m h near) (
  facts.0,
  there,
  rw facts.3 (gone ∙ told),
  rw (there, remove_client_if_match) (ground (arith, v.allocated conn.id r h)),
)
  where
    before : Manager
    before = evict conn.id conn.token r m

    facts :
        ((accept conn now before).0 ≡ added before.next)
        × ((accept conn now before).1.clients ≡ insert conn.id before.next before.clients)
        × ((accept conn now before).1.token_groups ≡ join conn.token conn.id before.token_groups)
        × ((accept conn now before).1.heap ≡ update before.heap before.next (new_client conn now))
    facts = accepting conn now before fits

    gone : update before.heap before.next (new_client conn now) r ≡ before.heap r
    gone = ground (arith, v.allocated conn.id r h)

    told : before.heap r ≡ replaced (m.heap r)
    told = elim (Bool-cases (m.heap r).connected) [
      | inl on ↦ ground (arith, on, s.open_while_connected on, eqb_iff r r)
      | inr off ↦ ground (arith, off, eqb_iff r r)
    ]

    there : lookup conn.id (accept conn now before).1.clients ≡ some m.next
    there =
        rw facts.1
          (ground (arith, lookup-insert conn.id conn.id m.next before.clients, beq_self conn.id))

-- The eviction takes the id out of the group of the new connection's token, not of the old
-- client's. So where an id moves to another API key from the same host, the old key goes on
-- listing the id as its own connected client, while it now stands for a client of the other key.
pub eviction_leaves_id_in_old_group :
    (conn : Connection) (now r : ℕ) (m : Manager)
    → Inv m
    → lookup conn.id m.clients ≡ some r
    → same_host (m.heap r).ip_address conn.remote_addr ≡ true
    → (m.heap r).api_key ≢ conn.token
    → TokenFits conn m
    → let m' = (add_client conn now m).1 in
      (contains conn.id (get_connected_clients (m.heap r).api_key m') ≡ true)
      × ((q : ℕ) × (lookup conn.id m'.clients ≡ some q) × ((m'.heap q).api_key ≡ conn.token))
unfolding evict unregister new_client get_connected_clients
eviction_leaves_id_in_old_group conn now r m v h near moved fits =
    rw (evicting conn now r m h near) (
      rw (contains-select (is_alive after) conn.id (members old after.token_groups)) (
          ground (
            arith,
            there,
            new,
            facts.2,
            in_group-join conn.token conn.id old conn.id before.token_groups,
            in_group-leave conn.token conn.id old conn.id m.token_groups,
            str_iff conn.token old,
            v.member conn.id r h,
          )),
      (m.next, there, ground (arith, new)),
    )
  where
    old : String
    old = (m.heap r).api_key

    before : Manager
    before = evict conn.id conn.token r m

    after : Manager
    after = (accept conn now before).1

    facts :
        ((accept conn now before).0 ≡ added before.next)
        × (after.clients ≡ insert conn.id before.next before.clients)
        × (after.token_groups ≡ join conn.token conn.id before.token_groups)
        × (after.heap ≡ update before.heap before.next (new_client conn now))
    facts = accepting conn now before fits

    there : lookup conn.id after.clients ≡ some m.next
    there =
        rw facts.1
          (ground (arith, lookup-insert conn.id conn.id m.next before.clients, beq_self conn.id))

    new : after.heap m.next ≡ new_client conn now
    new = rw facts.3 (ground arith)
