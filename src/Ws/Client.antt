-- ===== src/Ws/Client.antt =====
-- go-relay/internal/ws/client.go: one connected Foundry client, with the channel to its write pump.
pub mod Laws
mod Tests
use foundryvtt_rest_api_rela.Base.{
  Bool, List, Object, Option, String, [], false, if◌then◌else◌, length, ltb, none, not, some, true,
  ℕ, ◌++◌, ◌/◌, ◌∷◌,
}

-- A message as it lies in the send channel: encoded by Send, or handed over as bytes by SendRaw.
pub data Message : Type 0 where
  json : Object → Message
  bytes : List ℕ → Message

-- What has been written to the WebSocket: a message, or a close frame with its code and reason.
pub data Frame : Type 0 where
  text : Message → Frame
  close : ℕ → String → Frame

pub record Client : Type 0 where
  pub id : String
  pub api_key : String
  pub connection_token_id : ℕ
  pub token_name : String
  pub last_seen : ℕ
  pub connected_since : ℕ
  pub connected : Bool
  pub world_id : String
  pub world_title : String
  pub foundry_version : String
  pub system_id : String
  pub system_title : String
  pub system_version : String
  pub custom_name : String
  pub public_url : String
  pub ip_address : String
  pub send_ch : List Message
  pub done : Bool
  pub close_msg : Option (ℕ × String)
  pub socket_closed : Bool
  pub written : List Frame

-- What the relay knows of a connection when it registers the client.
pub record Connection : Type 0 where
  pub remote_addr : String
  pub id : String
  pub token : String
  pub token_name : String
  pub world_id : String
  pub world_title : String
  pub foundry_version : String
  pub system_id : String
  pub system_title : String
  pub system_version : String
  pub custom_name : String
  pub public_url : String

pub record ClientInfo : Type 0 where
  pub client_id : String
  pub instance_id : String
  pub last_seen : ℕ
  pub connected_since : ℕ
  pub world_id : String
  pub world_title : String
  pub foundry_version : String
  pub system_id : String
  pub system_title : String
  pub system_version : String
  pub custom_name : String
  pub public_url : String
  pub ip_address : String
  pub token_name : String

abbrev pub send_capacity : ℕ
send_capacity = 1024

unfoldable pub new_client : Connection → ℕ → Client
new_client c now = record {
  id = c.id;
  api_key = c.token;
  connection_token_id = 0;
  token_name = c.token_name;
  last_seen = now;
  connected_since = now;
  connected = true;
  world_id = c.world_id;
  world_title = c.world_title;
  foundry_version = c.foundry_version;
  system_id = c.system_id;
  system_title = c.system_title;
  system_version = c.system_version;
  custom_name = c.custom_name;
  public_url = c.public_url;
  ip_address = c.remote_addr;
  send_ch = [];
  done = false;
  close_msg = none;
  socket_closed = false;
  written = [];
}

-- The non-blocking send on the channel that Send and SendRaw share.
enqueue : Message → Client → Bool × Client
enqueue msg c =
    if not c.connected
    then (false, c)
    else if ltb (length c.send_ch) send_capacity
    then (true, record c { send_ch = c.send_ch ++ msg ∷ [] })
    else (false, c)

unfoldable pub send : Object → Client → Bool × Client
unfolding enqueue
send o c = enqueue (json o) c

unfoldable pub send_raw : List ℕ → Client → Bool × Client
unfolding enqueue
send_raw msg c = enqueue (bytes msg) c

unfoldable pub update_last_seen : ℕ → Client → Client
update_last_seen now c = record c { last_seen = now }

-- `close(c.done)` panics on a channel that is closed: `none`.
close_done : Client → Option Client
close_done c = if c.done then none else some (record c { done = true })

unfoldable pub disconnect : Client → Option Client
unfolding close_done
disconnect c =
    if c.connected
    then close_done (record c { connected = false; socket_closed = true })
    else some c

unfoldable pub disconnect_with_reason : ℕ → String → Client → Option Client
unfolding close_done
disconnect_with_reason code reason c =
    if c.connected
    then close_done (record c { connected = false; close_msg = some (code, reason) })
    else some c

unfoldable pub mark_disconnected : Client → Client
mark_disconnected c = record c { connected = false }

unfoldable pub set_connection_token_id : ℕ → Client → Client
set_connection_token_id id c = record c { connection_token_id = id }

-- The clock's nanoseconds in milliseconds, as UnixMilli gives them.
unfoldable pub info : String → Client → ClientInfo
info instance_id c = record {
  client_id = c.id;
  instance_id = instance_id;
  last_seen = c.last_seen / 1000000;
  connected_since = c.connected_since / 1000000;
  world_id = c.world_id;
  world_title = c.world_title;
  foundry_version = c.foundry_version;
  system_id = c.system_id;
  system_title = c.system_title;
  system_version = c.system_version;
  custom_name = c.custom_name;
  public_url = c.public_url;
  ip_address = c.ip_address;
  token_name = c.token_name;
}

-- The channel operation that one round of writePump's select takes.
pub data Ready : Type 0 where
  message : Bool → Ready
  shutdown : Ready

abbrev pub emit : Frame → Client → Client
emit f c = record c { written = c.written ++ f ∷ [] }

-- One round of writePump. `message works` takes the oldest message, whose write succeeds or fails;
-- `shutdown` is the receive on `done`. The Boolean says whether the pump goes on. A channel that is
-- not ready blocks: the round is not taken. Nothing closes the send channel.
unfoldable pub write_pump_round : Ready → Client → Bool × Client
write_pump_round (message works) c = elim c.send_ch [
  | [] ↦ (true, c)
  | msg ∷ rest ↦
      let c' = record c { send_ch = rest } in
      if works then (true, emit (text msg) c') else (false, record c' { socket_closed = true })
]
write_pump_round shutdown c = if not c.done then (true, c) else elim c.close_msg [
  | none ↦ (false, record c { socket_closed = true })
  | some (code, reason) ↦ (false, record (emit (close code reason) c) { socket_closed = true })
]
