-- ===== src/Ws/Manager/Arrival.antt =====
-- manager.go, AddClient: the registry stays consistent when a client comes.
use foundryvtt_rest_api_rela.Base.{
  Bool-cases, Distinct-insert, Option-cases, String, arith, beq_self, codes, false, inl, inr,
  length, length-insert_new, lookup, lookup-delete, lookup-insert, ltb, nat_eq, none, some, str_iff,
  string_eq, subst, true, ℕ, ◌&&◌, ◌+◌, ◌==◌, ◌≡◌,
}
use foundryvtt_rest_api_rela.Ws.Address.{same_host}
use foundryvtt_rest_api_rela.Ws.Client.{Client, Connection, new_client, disconnect_with_reason}
use foundryvtt_rest_api_rela.Ws.Manager.Groups.{both, in_group-join}
use foundryvtt_rest_api_rela.Ws.Manager.Defs.{
  Manager, after_call, unregister, evict, register, announce, reject, accept, add_client,
}
use foundryvtt_rest_api_rela.Ws.Manager.Registry.{Inv, unregister-Inv, reheap-Inv, log_events-Inv}

-- The gauge is raised only when the registration has been announced.
pub register-Inv :
    (conn : Connection) (now : ℕ) (m : Manager)
    → Inv m
    → lookup conn.id m.clients ≡ none
    → Inv (record (register conn now m) { active = m.active + 1 })
unfolding register new_client
register-Inv conn now m v h = record {
  distinct = Distinct-insert conn.id m.next m.clients v.distinct;
  allocated = λ j q e. ground (arith, lookup-insert conn.id j m.next m.clients, v.allocated j q, e);
  named = λ j q e. ground (
    arith,
    str_iff conn.id j,
    lookup-insert conn.id j m.next m.clients,
    v.allocated j q,
    v.named j q,
    e,
  );
  member = λ j q e. elim (Bool-cases (conn.id == j)) [
    | inl same ↦ ground (
      arith,
      lookup-insert conn.id j m.next m.clients,
      in_group-join conn.token conn.id conn.token j m.token_groups,
      beq_self conn.token,
      same,
      e,
    )
    | inr other ↦
        let found : lookup j m.clients ≡ some q =
          ground (arith, lookup-insert conn.id j m.next m.clients, other, e) in
        ground (
          arith,
          v.allocated j q found,
          v.member j q found,
          in_group-join conn.token conn.id (m.heap q).api_key j m.token_groups,
        )
  ];
  registered = λ t j e. elim (Bool-cases (both conn.token conn.id t j)) [
    | inl new ↦ (
      m.next,
      ground (arith, lookup-insert conn.id j m.next m.clients, new),
      ground (arith, str_iff conn.token t, new),
    )
    | inr old ↦
        let (q, found, key) =
          v.registered t j
            (ground (arith, in_group-join conn.token conn.id t j m.token_groups, old, e)) in
        (
          q,
          ground (arith, str_iff conn.id j, lookup-insert conn.id j m.next m.clients, found, h),
          ground (arith, v.allocated j q found, key),
        )
  ];
  counted = omega (arith, v.counted, length-insert_new conn.id m.next m.clients h);
}

-- With Redis the log line cuts the token to 8 bytes, which panics on a shorter one.
abbrev pub TokenFits : Connection → Manager → Type 0
TokenFits conn m = (m.redis_connected && ltb (length (codes conn.token)) 8) ≡ false

accept-Inv :
    (conn : Connection) (now : ℕ) (m : Manager)
    → Inv m
    → lookup conn.id m.clients ≡ none
    → TokenFits conn m
    → Inv (accept conn now m).1
unfolding accept announce register
accept-Inv conn now m v h fits = rw fits (log_events-Inv _ _ (register-Inv conn now m v h))

told_to_go :
    (c : Client)
    → ((after_call c (disconnect_with_reason 1000 "Replaced by reconnect" c)).id ≡ c.id)
      × ((after_call c (disconnect_with_reason 1000 "Replaced by reconnect" c)).api_key ≡ c.api_key)
unfolding disconnect_with_reason
told_to_go c = ground arith

evict-Inv :
    (id token : String) (r : ℕ) (m : Manager)
    → Inv m
    → lookup id m.clients ≡ some r
    → (m.heap r).api_key ≡ token
    → Inv (evict id token r m)
unfolding evict unregister
evict-Inv id token r m v h key =
    subst (λ t. Inv (evict id t r m)) key
      (reheap-Inv _ _ (λ q. ground (arith, told_to_go (m.heap r))) (unregister-Inv id r m v h))

-- A new connection keeps the registry consistent, if a registered client of the same id and from
-- the same host, which it replaces, was registered under the new connection's token, and if the
-- token is not too short for the log line.
pub add_client-Inv :
    (conn : Connection) (now : ℕ) (m : Manager)
    → Inv m
    → ((r : ℕ)
        → lookup conn.id m.clients ≡ some r
        → same_host (m.heap r).ip_address conn.remote_addr ≡ true
        → (m.heap r).api_key ≡ conn.token)
    → TokenFits conn m
    → Inv (add_client conn now m).1
unfolding add_client evict unregister
add_client-Inv conn now m v same fits = elim (Option-cases (lookup conn.id m.clients)) [
  | inl missing ↦ rw (missing, add_client) (accept-Inv conn now m v missing fits)
  | inr (r, found) ↦
      rw (found, add_client)
        (elim (Bool-cases (same_host (m.heap r).ip_address conn.remote_addr)) [
          | inl near ↦ rw near (
              accept-Inv conn now _ (evict-Inv conn.id conn.token r m v found (same r found near))
                (gone r) fits)
          | inr far ↦ rw far (unfold reject in log_events-Inv _ _ v)
        ])
]
  where
    gone : (r : ℕ) → lookup conn.id (evict conn.id conn.token r m).clients ≡ none
    gone r = ground (arith, lookup-delete conn.id conn.id m.clients, beq_self conn.id)
