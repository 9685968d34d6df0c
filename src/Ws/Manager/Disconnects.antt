-- ===== src/Ws/Manager/Disconnects.antt =====
-- manager.go: forced disconnects, here and by broadcast from another instance.
use foundryvtt_rest_api_rela.Base.{
  Dict, List, Option, String, [], eqb, if◌then◌else◌, length, lookup, nat_eq, none, not, some,
  string_eq, update, ℕ, ◌&&◌, ◌==◌, ◌∷◌,
}
use foundryvtt_rest_api_rela.Ws.Client.{close, Client, disconnect, emit}
use foundryvtt_rest_api_rela.Ws.Manager.Groups.{members}
use foundryvtt_rest_api_rela.Ws.Manager.Defs.{
  DisconnectCmd, redis_publish, on_sse_close, Manager, log_events, when_redis, after_call,
}

-- The close frame is written to the socket directly, where it is still open, and Disconnect follows.
unfoldable pub force_close : ℕ → String → Client → Client
force_close code reason c =
    let c' = if c.socket_closed then c else emit (close code reason) c in
    after_call c' (disconnect c')

unfoldable pub close_each : ℕ → String → List ℕ → (ℕ → Client) → ℕ → Client
close_each code reason [] heap = heap
close_each code reason (r ∷ rs) heap =
    close_each code reason rs (update heap r (force_close code reason (heap r)))

abbrev pub or_default : ℕ → ℕ
or_default code = if eqb code 0 then 4002 else code

unfoldable pub close_clients : List ℕ → ℕ → String → Manager → ℕ × Manager
close_clients rs code reason m =
    (length rs, record m { heap = close_each (or_default code) reason rs m.heap })

unfoldable pub refs_of_token : ℕ → (ℕ → Client) → Dict String ℕ → List ℕ
refs_of_token token_id heap [] = []
refs_of_token token_id heap ((id, r) ∷ m) =
    let rest = refs_of_token token_id heap m in
    if eqb (heap r).connection_token_id token_id then r ∷ rest else rest

unfoldable pub disconnect_local_by_token : ℕ → ℕ → String → Manager → ℕ × Manager
disconnect_local_by_token token_id code reason m =
    if eqb token_id 0
    then (0, m)
    else close_clients (refs_of_token token_id m.heap m.clients) code reason m

unfoldable pub disconnect_local_by_client_id : String → ℕ → String → Manager → ℕ × Manager
disconnect_local_by_client_id id code reason m =
    if id == "" then (0, m) else elim (lookup id m.clients) [
      | none ↦ (0, m)
      | some r ↦ close_clients (r ∷ []) code reason m
    ]

unfoldable pub refs_of_ids : Dict String ℕ → List String → List ℕ
refs_of_ids clients [] = []
refs_of_ids clients (id ∷ ids) = elim (lookup id clients) [
  | none ↦ refs_of_ids clients ids
  | some r ↦ r ∷ refs_of_ids clients ids
]

unfoldable pub disconnect_local_by_api_key : String → ℕ → String → Manager → ℕ × Manager
disconnect_local_by_api_key api_key code reason m =
    if api_key == ""
    then (0, m)
    else close_clients (refs_of_ids m.clients (members api_key m.token_groups)) code reason m

unfoldable pub disconnect_by_connection_token : ℕ → Manager → ℕ × Manager
disconnect_by_connection_token token_id m =
    disconnect_local_by_token token_id 4002 "Connection token revoked" m

abbrev pub publish : DisconnectCmd → Manager → Manager
publish cmd m = log_events (when_redis m (redis_publish cmd ∷ [])) m

unfoldable pub broadcast_disconnect_by_connection_token : ℕ → String → Manager → ℕ × Manager
broadcast_disconnect_by_connection_token token_id reason m =
    let (n, m') = disconnect_local_by_token token_id 4002 reason m in
    (
      n,
      publish
          (record {
            kind = "token";
            client_id = "";
            connection_token_id = token_id;
            api_key = "";
            reason = reason;
            close_code = 4002;
            origin = m.instance_id;
          })
          m',
    )

unfoldable pub broadcast_disconnect_by_client_id : String → String → Manager → ℕ × Manager
broadcast_disconnect_by_client_id id reason m =
    let (n, m') = disconnect_local_by_client_id id 4002 reason m in
    (
      n,
      publish
          (record {
            kind = "client";
            client_id = id;
            connection_token_id = 0;
            api_key = "";
            reason = reason;
            close_code = 4002;
            origin = m.instance_id;
          })
          m',
    )

unfoldable pub broadcast_disconnect_by_api_key : String → String → Manager → ℕ × Manager
broadcast_disconnect_by_api_key api_key reason m =
    let (n, m') = disconnect_local_by_api_key api_key 4002 reason m in
    (
      n,
      publish
          (record {
            kind = "apikey";
            client_id = "";
            connection_token_id = 0;
            api_key = api_key;
            reason = reason;
            close_code = 4002;
            origin = m.instance_id;
          })
          m',
    )

abbrev pub reason_or_default : String → String
reason_or_default reason = if reason == "" then "Revoked by dashboard" else reason

-- The switch on the command's kind.
act_on : DisconnectCmd → Manager → Manager
act_on cmd m =
    let code = or_default cmd.close_code in
    let reason = reason_or_default cmd.reason in
    if cmd.kind == "token"
    then (disconnect_local_by_token cmd.connection_token_id code reason m).1
    else if cmd.kind == "client"
    then (disconnect_local_by_client_id cmd.client_id code reason m).1
    else if cmd.kind == "apikey"
    then (disconnect_local_by_api_key cmd.api_key code reason m).1
    else if (cmd.kind == "sse-close") && not (cmd.client_id == "")
    then log_events (on_sse_close cmd.client_id ∷ []) m
    else m

-- `none` is a payload that does not parse.
unfoldable pub handle_disconnect_command : Option DisconnectCmd → Manager → Manager
unfolding act_on
handle_disconnect_command none m = m
handle_disconnect_command (some cmd) m = if cmd.origin == m.instance_id then m else act_on cmd m
