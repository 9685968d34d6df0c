-- ===== src/Ws/Remote/Delivery.antt =====
-- remote_request.go, handleRemoteRequest behind the checks: finding the target here, on another
-- instance or by a headless start, sending it the action, and answering the source.
use foundryvtt_rest_api_rela.Base.{
  List, Option, String, [], delete, if◌then◌else◌, insert, lookup, nat_eq, none, not, some,
  string_eq, update, ℕ, ◌*◌, ◌==◌,
}
use foundryvtt_rest_api_rela.Base.Json.{Value, Members, Object}
use foundryvtt_rest_api_rela.Model.Scopes.{KnownClient}
use foundryvtt_rest_api_rela.Ws.Pending.{WsResponse, PendingRequests, open_request, remove}
use foundryvtt_rest_api_rela.Ws.Client.{send}
use foundryvtt_rest_api_rela.Ws.Manager.Defs.{Manager}
use foundryvtt_rest_api_rela.Ws.Manager.Queries.{get_client_remote_instance}
use foundryvtt_rest_api_rela.Ws.Manager.Routing.{text_or_empty}
use foundryvtt_rest_api_rela.Ws.Remote.Gate.{Request, ConnectionToken}

pub data Failure : Type 0 where
  target_offline auto_start_disabled headless_unavailable auto_start_race : Failure
  auto_start_failed forward_failed parse_failed answered : String → Failure
  send_failed no_response timed_out : Failure

-- What `respond` sends to the source; a nil result is `none`.
pub data Reply : Type 0 where
  success : Option Object → Reply
  failure : Failure → Reply

-- What comes back of a call that fails with an error's text, or gives a map that may be nil.
pub data Outcome : Type 0 where
  fails : String → Outcome
  gives : Option Object → Outcome

-- The parts that the server wires in, `none` where it does not. A headless start blocks, and other
-- clients come and go meanwhile: it gives the manager as it is afterwards, and an error's text.
pub record Parts : Type 0 where
  pub forward_to_instance : Option (String → String → String → Members → Outcome)
  pub headless : Option (ℕ → String → Manager → Option String × Manager)

abbrev pub error_of : Option Object → String
error_of none = ""
error_of (some o) = text_or_empty (lookup "error" o)

-- `errMsg, ok := result["error"].(string); ok && errMsg != ""`
unfoldable pub reply_of : Option Object → Reply
reply_of result =
    if error_of result == "" then success result else failure (answered (error_of result))

abbrev pub reply_of_peer : Outcome → Reply
reply_of_peer (fails e) = failure (forward_failed e)
reply_of_peer (gives result) = reply_of result

-- A client that is connected here, or the end of the request.
pub data Target : Type 0 where
  here : ℕ → Target
  ended : Reply → Target

abbrev pub after_start : String → Option String × Manager → Target × Manager
after_start id (some e, m) = (ended (failure (auto_start_failed e)), m)
after_start id (none, m) = elim (lookup id m.clients) [
  | none ↦ (ended (failure auto_start_race), m)
  | some r ↦ (here r, m)
]

unfoldable pub start_target :
    Request → ConnectionToken → KnownClient → Parts → Manager → Target × Manager
start_target r t k parts m =
    if not r.auto_start
    then (ended (failure target_offline), m)
    else if not k.auto_start_on_remote_request
    then (ended (failure auto_start_disabled), m)
    else elim parts.headless [
      | none ↦ (ended (failure headless_unavailable), m)
      | some start ↦ after_start r.target_client_id (start t.user_id r.target_client_id m)
    ]

-- `hosted` is what Redis holds as the target's instance, empty if nothing.
unfoldable pub find_target :
    Request → ConnectionToken → KnownClient → String → Parts → Manager → Target × Manager
unfolding start_target reply_of
find_target r t k hosted parts m = elim (lookup r.target_client_id m.clients) [
  | some ref ↦ (here ref, m)
  | none ↦
      let instance_id = get_client_remote_instance r.target_client_id hosted m in
      if instance_id == "" then start_target r t k parts m else elim parts.forward_to_instance [
        | none ↦ start_target r t k parts m
        | some forward ↦
            (ended (reply_of_peer (forward instance_id r.target_client_id r.action r.payload)), m)
      ]
]

-- `for k, v := range payload { msg[k] = v }`
unfoldable pub copy_payload : Members → Object → Object
copy_payload Members.empty msg = msg
copy_payload (Members.member k v rest) msg = copy_payload rest (insert k v msg)

unfoldable pub action_message : Request → String → Object
unfolding copy_payload
action_message r relay_id =
    insert "requestId" (Value.str relay_id)
      (insert "type" (Value.str r.action) (copy_payload r.payload []))

abbrev pub max_age : ℕ
max_age = 90 * 1000000000

-- The end, if the message cannot be sent; `none` while the answer is awaited.
unfoldable pub send_action :
    Request → String → ℕ → ℕ → Manager → PendingRequests → Option Reply × Manager × PendingRequests
unfolding action_message
send_action r relay_id ref now m p =
    let waiting = open_request relay_id r.action (m.heap ref).id now max_age p in
    let (sent, target) = send (action_message r relay_id) (m.heap ref) in
    if sent
    then (none, record m { heap = update m.heap ref target }, waiting)
    else (some (failure send_failed), m, remove relay_id waiting)

-- What ends the wait: a response in the channel, nil included, or 60 seconds.
pub data Wait : Type 0 where
  response : Option WsResponse → Wait
  elapsed : Wait

unfoldable pub result_of : (List ℕ → Outcome) → WsResponse → Outcome
result_of parse w = elim w.raw_data [ some raw ↦ parse raw | none ↦ gives w.body ]

abbrev pub without_id : Option Object → Option Object
without_id none = none
without_id (some o) = some (delete "requestId" o)

abbrev pub strip : Reply → Reply
strip (success result) = success (without_id result)
strip (failure why) = failure why

abbrev pub reply_of_target : Outcome → Reply
reply_of_target (fails e) = failure (parse_failed e)
reply_of_target (gives result) = strip (reply_of result)

-- `parse` is json.Unmarshal into a map.
unfoldable pub finish :
    (List ℕ → Outcome) → String → Wait → PendingRequests → Reply × PendingRequests
unfolding result_of reply_of
finish parse relay_id (response none) p = (failure no_response, p)
finish parse relay_id (response (some w)) p = (reply_of_target (result_of parse w), p)
finish parse relay_id elapsed p = (failure timed_out, remove relay_id p)
