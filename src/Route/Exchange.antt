-- ===== src/Route/Exchange.antt =====
-- handler/helpers/route.go and ws/message_handlers.go together: a request and its answer.
use foundryvtt_rest_api_rela.Base.{
  List, Option, String, [], arith, beq_self, eqb, eqb_iff, false, if◌then◌else◌, length, lookup,
  lookup-insert, nat_eq, none, refl, some, string_eq, true, update, ℕ, ◌++◌, ◌<◌, ◌==◌, ◌∷◌, ◌≡◌,
}
use foundryvtt_rest_api_rela.Base.Json.{Object}
use foundryvtt_rest_api_rela.Access.Context.{ScopedKeyInfo}
use foundryvtt_rest_api_rela.Ws.Pending.{
  PendingRequest, PendingRequests, WsResponse, open_request, resolve_raw, load, make_chan, store,
  opens, step,
}
use foundryvtt_rest_api_rela.Ws.Pending.Inv.{Inv, step-Inv}
use foundryvtt_rest_api_rela.Ws.Pending.Laws.{resolve_raw_delivers}
use foundryvtt_rest_api_rela.Ws.Client.{json, send, send_capacity}
use foundryvtt_rest_api_rela.Ws.Manager.Defs.{Manager}
use foundryvtt_rest_api_rela.Route.Params.{Params, Input, get_string}
use foundryvtt_rest_api_rela.Route.Forward.{ApiRouteConfig, message_of, waits, forward}
use foundryvtt_rest_api_rela.Route.Results.{on_result}

-- A client that takes one more message.
abbrev pub CanTake : ℕ → Manager → Type 0
CanTake ref m = ((m.heap ref).connected ≡ true) × (length (m.heap ref).send_ch < send_capacity)

abbrev pub awaited : ApiRouteConfig → ℕ → String → ℕ → PendingRequest
awaited cfg ch client_id now = record {
  response_ch = ch;
  kind = cfg.kind;
  client_id = client_id;
  timestamp = now;
  max_age = 0;
}

abbrev pub with_message : ℕ → Object → Manager → Manager
with_message ref msg m = record m {
  heap =
      update m.heap ref (record (m.heap ref) { send_ch = (m.heap ref).send_ch ++ json msg ∷ [] });
}

pub forward-waits :
    (cfg : ApiRouteConfig) (r : Input) (key : Option ScopedKeyInfo) (request_id : String) (now : ℕ)
    (id : String) (ref : ℕ) (p : Params) (m : Manager) (pend : PendingRequests)
    → CanTake ref m
    → forward cfg r key request_id now id ref p m pend
      ≡ waits
          (with_message ref (message_of cfg r key request_id p) m)
          (open_request request_id cfg.kind id now 0 pend)
unfolding forward send
forward-waits cfg r key request_id now id ref p m pend (on, room) = ground (arith, on, room)

pub opened :
    (cfg : ApiRouteConfig) (request_id : String) (now : ℕ) (id : String) (pend : PendingRequests)
    → load request_id (open_request request_id cfg.kind id now 0 pend)
      ≡ some (awaited cfg pend.next_channel id now)
unfolding open_request load make_chan store
opened cfg request_id now id pend = ground (
  arith,
  lookup-insert request_id request_id (awaited cfg pend.next_channel id now) pend.requests,
  beq_self request_id,
)

pub opened-Inv :
    (cfg : ApiRouteConfig) (request_id : String) (now : ℕ) (id : String) (pend : PendingRequests)
    → Inv pend
    → Inv (open_request request_id cfg.kind id now 0 pend)
unfolding step
opened-Inv cfg request_id now id pend v = step-Inv (opens request_id cfg.kind id now 0) pend v

abbrev pub answer : List ℕ → WsResponse
answer raw = record { status_code = 200; body = none; raw_data = some raw }

abbrev pub Answers : String → Object → Type 0
Answers request_id o = (get_string "requestId" o ≡ request_id) × (lookup "error" o ≡ none)

pub on_result_lem :
    (request_id : String) (o : Object) (raw : List ℕ) (p : PendingRequests)
    → Answers request_id o
    → (request_id == "") ≡ false
    → on_result o raw p ≡ resolve_raw request_id 200 raw p
unfolding on_result
on_result_lem request_id o raw p (named, fine) some_id = rw (named, some_id, fine) refl

-- An answer without an error, whichever client it comes from, lands alone in the channel of the
-- request that is stored under its id, and nothing is pending under the id then.
pub answered :
    (cfg : ApiRouteConfig) (request_id id : String) (now : ℕ) (o : Object) (raw : List ℕ)
    (pend : PendingRequests)
    → Inv pend
    → Answers request_id o
    → (request_id == "") ≡ false
    → let q = on_result o raw (open_request request_id cfg.kind id now 0 pend) in
      ((q.channels pend.next_channel).buffer ≡ answer raw ∷ []) × (load request_id q ≡ none)
answered cfg request_id id now o raw pend v answers some_id =
    rw (on_result_lem request_id o raw p' answers some_id) (
      ground (arith, delivered.1, eqb_iff pend.next_channel pend.next_channel),
      ground (arith, delivered.0, beq_self request_id),
    )
  where
    p' : PendingRequests
    p' = open_request request_id cfg.kind id now 0 pend

    delivered :
        let q = resolve_raw request_id 200 raw p' in
        (load request_id q ≡ (if request_id == request_id then none else load request_id p'))
        × ((q.channels pend.next_channel).buffer ≡ (
            if eqb pend.next_channel pend.next_channel
            then answer raw ∷ []
            else (p'.channels pend.next_channel).buffer))
    delivered =
        resolve_raw_delivers request_id request_id 200 pend.next_channel raw p'
          (awaited cfg pend.next_channel id now) (opened-Inv cfg request_id now id pend v)
          (opened cfg request_id now id pend)
