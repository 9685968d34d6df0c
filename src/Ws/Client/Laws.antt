-- ===== src/Ws/Client/Laws.antt =====
-- client.go: disconnecting is safe to repeat, and nothing is sent to a client that is gone.
use foundryvtt_rest_api_rela.Base.{
  Bool-cases, List, Object, Option, String, [], arith, false, inl, inr, length, length-append, none,
  refl, some, true, ℕ, ◌++◌, ◌∷◌, ◌≡◌, ◌≤◌,
}
use foundryvtt_rest_api_rela.Ws.Client.{
  Message, json, bytes, Client, send_capacity, enqueue, send, send_raw, disconnect,
  disconnect_with_reason, mark_disconnected, Ready, message, shutdown, write_pump_round, close,
  Connection, new_client,
}

-- While a client counts as connected its `done` channel is open; its send channel is within bounds.
pub record Inv (c : Client) : Type 0 where
  pub open_while_connected : c.connected ≡ true → c.done ≡ false
  pub bounded : length c.send_ch ≤ send_capacity

-- A call on a client.
pub data Call : Type 0 where
  sends : Object → Call
  sends_raw : List ℕ → Call
  disconnects marks : Call
  disconnects_with : ℕ → String → Call
  pumps : Ready → Call

-- `none` is a panic.
abbrev pub step : Call → Client → Option Client
step (sends o) c = some (send o c).1
step (sends_raw b) c = some (send_raw b c).1
step disconnects c = disconnect c
step marks c = some (mark_disconnected c)
step (disconnects_with code reason) c = disconnect_with_reason code reason c
step (pumps r) c = some (write_pump_round r c).1

abbrev pub run : List Call → Client → Option Client
run [] c = some c
run (k ∷ ks) c = elim (step k c) [ none ↦ none | some c' ↦ run ks c' ]

enqueue-Inv : (m : Message) (c : Client) → Inv c → Inv (enqueue m c).1
unfolding enqueue
enqueue-Inv m c v = ground (arith, length-append c.send_ch (m ∷ []))

write_pump_round-Inv : (r : Ready) (c : Client) → Inv c → Inv (write_pump_round r c).1
unfolding write_pump_round
write_pump_round-Inv (message works) c v = ground arith
write_pump_round-Inv shutdown c v = ground arith

step_safe : (k : Call) (c : Client) → Inv c → (c' : Client) × (step k c ≡ some c') × Inv c'
unfolding send send_raw disconnect disconnect_with_reason mark_disconnected
step_safe (sends o) c v = (_, refl, enqueue-Inv (json o) c v)
step_safe (sends_raw b) c v = (_, refl, enqueue-Inv (bytes b) c v)
step_safe disconnects c v = elim (Bool-cases c.connected) [
  | inl on ↦ (
    record c { connected = false; socket_closed = true; done = true },
    ground arith,
    ground arith,
  )
  | inr off ↦ (c, ground arith, v)
]
step_safe marks c v = (_, refl, ground arith)
step_safe (disconnects_with code reason) c v = elim (Bool-cases c.connected) [
  | inl on ↦ (
    record c { connected = false; close_msg = some (code, reason); done = true },
    ground arith,
    ground arith,
  )
  | inr off ↦ (c, ground arith, v)
]
step_safe (pumps r) c v = (_, refl, write_pump_round-Inv r c v)

run_safe : (ks : List Call) (c : Client) → Inv c → (c' : Client) × (run ks c ≡ some c') × Inv c'
run_safe [] c v = (c, refl, v)
run_safe (k ∷ ks) c v =
    let (c', e, v') = step_safe k c v in let (d, f, w) = run_safe ks c' v' in (d, rw (e, run) f, w)

-- Whatever is done with a client after it has connected, no call panics (`done` is closed once at
-- most), and the send channel stays within its 1024 places.
pub run_never_panics :
    (ks : List Call) (conn : Connection) (now : ℕ)
    → (c : Client) × (run ks (new_client conn now) ≡ some c) × (length c.send_ch ≤ 1024)
unfolding new_client
run_never_panics ks conn now =
    let (c, e, v) = run_safe ks (new_client conn now) (ground arith) in (c, e, v.bounded)

-- Disconnecting a connected client with a reason makes it refuse messages from then on, and makes
-- the pump's shutdown write exactly that close frame last and close the socket; a second
-- disconnect of either kind changes nothing.
pub disconnect_with_reason_parting :
    (code : ℕ) (reason : String) (o : Object) (c : Client)
    → Inv c
    → c.connected ≡ true
    → (d : Client) × (disconnect_with_reason code reason c ≡ some d)
      × (send o d ≡ (false, d))
      × (disconnect d ≡ some d)
      × ((write_pump_round shutdown d).1.written ≡ c.written ++ close code reason ∷ [])
      × ((write_pump_round shutdown d).1.socket_closed ≡ true)
unfolding disconnect disconnect_with_reason send write_pump_round
disconnect_with_reason_parting code reason o c v on = (
  record c { connected = false; close_msg = some (code, reason); done = true },
  ground arith,
  refl,
  refl,
  refl,
  refl,
)
