-- ===== src/Route/Forward.antt =====
-- handler/helpers/route.go: CreateAPIRoute, from the request to the message and from the answer to
-- the response. The side effects of AfterForward, the fields that BuildPendingRequest adds, and the
-- headers on the length of a file and the size of an image are left out.
use foundryvtt_rest_api_rela.Base.{
  List, Option, String, [], if◌then◌else◌, insert, is_some, keep, lookup, nat_eq, none, not, some,
  string_eq, update, ℕ, ◌&&◌, ◌&◌, ◌++◌, ◌==◌, ◌∷◌,
}
use foundryvtt_rest_api_rela.Base.Json.{Value, Items, Members, Object}
use foundryvtt_rest_api_rela.Access.Context.{ScopedKeyInfo}
use foundryvtt_rest_api_rela.Ws.Pending.{WsResponse, PendingRequests, open_request, remove}
use foundryvtt_rest_api_rela.Ws.Client.{send}
use foundryvtt_rest_api_rela.Ws.Manager.Defs.{Manager}
use foundryvtt_rest_api_rela.Route.Params.{
  ParamDef, Params, Input, Parsers, params, refused, extract_params, validate_required,
}
use foundryvtt_rest_api_rela.Route.Target.{
  Caller, AutoStart, Answer, error, refused_params, binary, raw_json, json, no_answer, key_of,
  ended, goes_to, find_target,
}

-- ValidateParams gives the data of an error, BuildPayload the payload; `none` where they are nil.
pub record ApiRouteConfig : Type 0 where
  pub kind : String
  pub required_params : List ParamDef
  pub optional_params : List ParamDef
  pub validate_params : Option (Params → Input → Option Object)
  pub build_payload : Option (Params → Input → Object)

pub data Parsed : Type 0 where
  bad : Answer → Parsed
  good : Params → Parsed

abbrev pub validated : ApiRouteConfig → Input → Params → Parsed
validated cfg r p = elim cfg.validate_params [
  | none ↦ good p
  | some check ↦ elim (check p r) [ none ↦ good p | some data_of ↦ bad (refused_params data_of) ]
]

abbrev pub required : ApiRouteConfig → Input → Params → Parsed
required cfg r p = elim (validate_required p cfg.required_params) [
  | some e ↦ bad (error 400 e)
  | none ↦ validated cfg r p
]

unfoldable pub parse_request : Parsers → ApiRouteConfig → Input → Parsed
parse_request parse cfg r =
    elim (extract_params parse r (cfg.required_params ++ cfg.optional_params)) [
      | refused e ↦ bad (error 400 e)
      | params p ↦ required cfg r p
    ]

-- `payload := make(map…)` with the parameters, or BuildPayload.
abbrev pub payload_by : Option (Params → Input → Object) → Input → Params → Object
payload_by none r p = keep (λ k v. not (k == "clientId") && not (k == "type")) p
payload_by (some build) r p = build p r

unfoldable pub payload_of : ApiRouteConfig → Input → Params → Object
payload_of cfg r p = payload_by cfg.build_payload r p

abbrev pub texts : List String → Items
texts [] = Items.nil
texts (s ∷ ss) = Items.cons (Value.str s) (texts ss)

abbrev pub with_scopes : Option ScopedKeyInfo → Object → Object
with_scopes none o = o
with_scopes (some k) o = insert "_scopes" (Value.arr (texts k.scopes)) o

abbrev pub with_data : Object → Object
with_data o = if is_some (lookup "data" o) then o else insert "data" (Value.obj Members.empty) o

unfoldable pub message_of : ApiRouteConfig → Input → Option ScopedKeyInfo → String → Params → Object
message_of cfg r key request_id p = with_data (
    with_scopes key (
      insert "requestId" (Value.str request_id)
        (insert "type" (Value.str cfg.kind) (payload_of cfg r p))))

-- `millis` is the clock in decimal.
abbrev pub request_id_of : ApiRouteConfig → String → String
request_id_of cfg millis = cfg.kind & "_" & millis

pub data Sent : Type 0 where
  replied : Answer → Manager → PendingRequests → Sent
  waits : Manager → PendingRequests → Sent

-- Registers the request and sends the message to the client `ref`.
unfoldable pub forward :
    ApiRouteConfig
    → Input
    → Option ScopedKeyInfo
    → String
    → ℕ
    → String
    → ℕ
    → Params
    → Manager
    → PendingRequests
    → Sent
forward cfg r key request_id now id ref p m pend =
    let waiting = open_request request_id cfg.kind id now 0 pend in
    let (sent, target) = send (message_of cfg r key request_id p) (m.heap ref) in
    if sent
    then waits (record m { heap = update m.heap ref target }) waiting
    else replied (error 500 "Failed to send request to Foundry client") m
        (remove request_id waiting)

-- The handler up to the wait.
unfoldable pub handle :
    Parsers
    → AutoStart
    → ApiRouteConfig
    → Option Caller
    → Input
    → String
    → ℕ
    → Manager
    → PendingRequests
    → Sent
handle parse start cfg caller r millis now m pend = elim (parse_request parse cfg r) [
  | bad a ↦ replied a m pend
  | good p ↦ elim (find_target start caller p m) [
    | ended a m' ↦ replied a m' pend
    | goes_to id ref p' m' ↦
        forward cfg r (key_of caller) (request_id_of cfg millis) now id ref p' m' pend
  ]
]

-- What ends the wait: a response in the channel, nil included, the timer, or the caller who leaves.
pub data Wait : Type 0 where
  response : Option WsResponse → Wait
  elapsed : Wait
  cancelled : Wait

abbrev pub string_at : String → Object → Option String
string_at k o = elim (lookup k o) [ some (Value.str s) ↦ some s | _ ↦ none ]

abbrev pub raw_answer : ℕ → List ℕ → Option Object → Answer
raw_answer code raw none = raw_json code raw
raw_answer code raw (some o) = elim (string_at "_contentType" o) [
  | none ↦ raw_json code raw
  | some content_type ↦ binary code content_type (string_at "_contentDisposition" o) raw
]

unfoldable pub answer_of : WsResponse → Answer
answer_of w = elim w.raw_data [
  | some raw ↦ raw_answer w.status_code raw w.body
  | none ↦ elim w.body [ none ↦ no_answer | some o ↦ json w.status_code o ]
]

unfoldable pub finish : String → Wait → PendingRequests → Answer × PendingRequests
finish request_id (response none) pend = (error 504 "Request timed out", pend)
finish request_id (response (some w)) pend = (answer_of w, pend)
finish request_id elapsed pend = (error 408 "Request timed out", remove request_id pend)
finish request_id cancelled pend = (no_answer, remove request_id pend)
