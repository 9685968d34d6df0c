-- ===== src/Ws/Remote/DeliveryLaws.antt =====
-- remote_request.go: an action reaches its target and the answer comes back; what fails leaves
-- nothing behind.
use foundryvtt_rest_api_rela.Base.{
  List, String, [], arith, beq_self, delete, delete-insert, eqb, eqb_iff, false, if◌then◌else◌,
  insert, length, lookup, lookup-delete, lookup-insert, nat_eq, none, refl, some, string_eq, true,
  update, ℕ, ◌&&◌, ◌++◌, ◌<◌, ◌==◌, ◌∙◌, ◌∷◌, ◌≡◌, ◌≤◌, ◌⊎◌,
}
use foundryvtt_rest_api_rela.Model.Scopes.{KnownClient}
use foundryvtt_rest_api_rela.Base.Json.{Value, Object}
use foundryvtt_rest_api_rela.Ws.Pending.{
  PendingRequest, PendingRequests, WsResponse, open_request, remove, resolve, load, make_chan,
  store, opens, step,
}
use foundryvtt_rest_api_rela.Ws.Pending.Inv.{Inv, step-Inv}
use foundryvtt_rest_api_rela.Ws.Pending.Laws.{resolve_delivers}
use foundryvtt_rest_api_rela.Ws.Client.{json, send, send_capacity}
use foundryvtt_rest_api_rela.Ws.Manager.Defs.{Manager}
use foundryvtt_rest_api_rela.Ws.Manager.Queries.{get_client_remote_instance}
use foundryvtt_rest_api_rela.Ws.Remote.Gate.{Request, ConnectionToken}
use foundryvtt_rest_api_rela.Ws.Remote.Delivery.{
  success, Outcome, fails, gives, reply_of, action_message, max_age, send_action, Wait, response,
  elapsed, result_of, reply_of_target, finish, target_offline, auto_start_disabled, send_failed,
  failure, Parts, error_of, ended, start_target, find_target,
}

lookup_other :
    (k j : String) (v : Value) (m : Object)
    → (k == j) ≡ false
    → lookup j (insert k v m) ≡ lookup j m
lookup_other k j v m h = ground (arith, lookup-insert k j v m, h)

lookup_same : (k : String) (v : Value) (m : Object) → lookup k (insert k v m) ≡ some v
lookup_same k v m = ground (arith, lookup-insert k k v m, beq_self k)

-- The message to the target carries the relay's request id and the action, whatever the source put
-- into the payload under these names.
pub action_message_lem :
    (r : Request) (relay_id : String)
    → (lookup "requestId" (action_message r relay_id) ≡ some (Value.str relay_id))
      × (lookup "type" (action_message r relay_id) ≡ some (Value.str r.action))
unfolding action_message
action_message_lem r relay_id =
    (lookup_same "requestId" _ _, lookup_other "requestId" "type" _ _ refl ∙ lookup_same "type" _ _)

-- No answer to the source carries the relay's own request id.
pub finish_hides_relay_id :
    (parse : List ℕ → Outcome) (relay_id : String) (w : Wait) (p : PendingRequests) (o : Object)
    → (finish parse relay_id w p).0 ≡ success (some o)
    → lookup "requestId" o ≡ none
unfolding finish reply_of
finish_hides_relay_id parse relay_id (response none) p o h = absurd (ground (arith, h))
finish_hides_relay_id parse relay_id elapsed p o h = absurd (ground (arith, h))
finish_hides_relay_id parse relay_id (response (some w)) p o h = hidden (result_of parse w) h
  where
    gone : (result : Object) → lookup "requestId" (delete "requestId" result) ≡ none
    gone result = ground (arith, lookup-delete "requestId" "requestId" result)

    hidden : (r : Outcome) → reply_of_target r ≡ success (some o) → lookup "requestId" o ≡ none
    hidden (fails e) h = absurd (ground (arith, h))
    hidden (gives none) h = absurd (ground (arith, h))
    hidden (gives (some result)) h = ground (arith, h, gone result)

sent :
    (r : Request) (relay_id : String) (ref now : ℕ) (m : Manager) (p : PendingRequests)
    → (m.heap ref).connected ≡ true
    → length (m.heap ref).send_ch < send_capacity
    → let c = m.heap ref in
      send_action r relay_id ref now m p ≡ (
        none,
        record m {
          heap =
              update m.heap ref
                (record c { send_ch = c.send_ch ++ json (action_message r relay_id) ∷ [] });
        },
        open_request relay_id r.action c.id now max_age p,
      )
unfolding send_action send
sent r relay_id ref now m p on room = ground (arith, on, room)

-- The request that is stored for the answer.
abbrev awaited : Request → ℕ → String → ℕ → PendingRequest
awaited r ch client_id now = record {
  response_ch = ch;
  kind = r.action;
  client_id = client_id;
  timestamp = now;
  max_age = max_age;
}

opened :
    (r : Request) (relay_id client_id : String) (now : ℕ) (p : PendingRequests)
    → load relay_id (open_request relay_id r.action client_id now max_age p)
      ≡ some (awaited r p.next_channel client_id now)
unfolding open_request load make_chan store
opened r relay_id client_id now p = ground (
  arith,
  lookup-insert relay_id relay_id (awaited r p.next_channel client_id now) p.requests,
  beq_self relay_id,
)

clean_reply :
    (parse : List ℕ → Outcome) (relay_id : String) (code : ℕ) (o : Object) (q : PendingRequests)
    → error_of (some o) ≡ ""
    → (finish parse relay_id
        (response (some (record { status_code = code; body = some o; raw_data = none })))
        q).0
      ≡ success (some (delete "requestId" o))
unfolding finish result_of reply_of
clean_reply parse relay_id code o q clean = rw clean refl

-- An action sent to a connected target with room in its channel is queued there and awaited; a
-- response without an error, once it is resolved, stands alone in the channel that is waited on, is
-- no longer pending, and answers the source with the response's fields but for the relay's id.
pub exchange_answers :
    (parse : List ℕ → Outcome) (r : Request) (relay_id : String) (ref now code : ℕ) (o : Object)
    (m : Manager) (p : PendingRequests)
    → Inv p
    → (m.heap ref).connected ≡ true
    → length (m.heap ref).send_ch < send_capacity
    → error_of (some o) ≡ ""
    → let (end, m', p') = send_action r relay_id ref now m p in
      let q = resolve relay_id code (some o) p' in
      let w : WsResponse = record { status_code = code; body = some o; raw_data = none } in
      (end ≡ none)
      × ((m'.heap ref).send_ch ≡ (m.heap ref).send_ch ++ json (action_message r relay_id) ∷ [])
      × ((q.channels p.next_channel).buffer ≡ w ∷ [])
      × (load relay_id q ≡ none)
      × ((finish parse relay_id (response (some w)) q).0 ≡ success (some (delete "requestId" o)))
unfolding finish result_of reply_of
exchange_answers parse r relay_id ref now code o m p v on room clean =
    rw (sent r relay_id ref now m p on room) (
      refl,
      ground arith,
      ground (arith, answer.1, eqb_iff p.next_channel p.next_channel),
      ground (arith, answer.0, beq_self relay_id),
      clean_reply parse relay_id code o (resolve relay_id code (some o) p') clean,
    )
  where
    client_id : String
    client_id = (m.heap ref).id

    p' : PendingRequests
    p' = open_request relay_id r.action client_id now max_age p

    p'-Inv : Inv p'
    p'-Inv = unfold step in step-Inv (opens relay_id r.action client_id now max_age) p v

    answer :
        let q = resolve relay_id code (some o) p' in
        (load relay_id q ≡ (if relay_id == relay_id then none else load relay_id p'))
        × ((q.channels p.next_channel).buffer ≡ (
            if eqb p.next_channel p.next_channel
            then record { status_code = code; body = some o; raw_data = none } ∷ []
            else (p'.channels p.next_channel).buffer))
    answer =
        resolve_delivers relay_id relay_id code p.next_channel (some o) p'
          (awaited r p.next_channel client_id now) p'-Inv (opened r relay_id client_id now p)

-- If the target cannot take the message, the source is told so, no client changes, and the pending
-- requests are what they were.
pub send_failure_cleans_up :
    (r : Request) (relay_id : String) (ref now : ℕ) (m : Manager) (p : PendingRequests)
    → lookup relay_id p.requests ≡ none
    → ((m.heap ref).connected ≡ false) ⊎ (send_capacity ≤ length (m.heap ref).send_ch)
    → let (end, m', p') = send_action r relay_id ref now m p in
      (end ≡ some (failure send_failed)) × (m' ≡ m) × (p'.requests ≡ p.requests)
unfolding send_action send open_request make_chan store remove
send_failure_cleans_up r relay_id ref now m p fresh no_room = (
  ground (arith, no_room),
  ground (arith, no_room),
  ground (
    arith,
    no_room,
    delete-insert relay_id (awaited r p.next_channel (m.heap ref).id now) p.requests fresh,
  ),
)

-- A target that is neither connected here nor known on another instance is started only if the
-- request asks for it and the target's world allows it; else nothing changes, and the source is told.
pub find_target_offline :
    (r : Request) (t : ConnectionToken) (k : KnownClient) (hosted : String) (parts : Parts)
    (m : Manager)
    → lookup r.target_client_id m.clients ≡ none
    → get_client_remote_instance r.target_client_id hosted m ≡ ""
    → (r.auto_start && k.auto_start_on_remote_request) ≡ false
    → find_target r t k hosted parts m
      ≡ (ended (failure (if r.auto_start then auto_start_disabled else target_offline)), m)
unfolding find_target start_target
find_target_offline r t k hosted parts m missing nowhere off =
    rw (missing, find_target) (rw nowhere (ground (arith, off)))
