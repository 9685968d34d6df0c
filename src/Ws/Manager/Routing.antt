-- ===== src/Ws/Manager/Routing.antt =====
-- manager.go: what happens to a message of a client. A registered handler is a number; the calls
-- that the manager makes are the result, since a panic in one is recovered and stops no other.
use foundryvtt_rest_api_rela.Base.{
  Dict, List, Option, String, [], arith, if◌then◌else◌, insert, lookup, map, nat_eq, none, some,
  string_eq, update, ℕ, ◌++◌, ◌==◌, ◌∷◌, ◌≡◌,
}
use foundryvtt_rest_api_rela.Base.Json.{Value, Object}
use foundryvtt_rest_api_rela.Ws.Client.{Client, send, update_last_seen}
use foundryvtt_rest_api_rela.Ws.Manager.Defs.{Manager}
use foundryvtt_rest_api_rela.Ws.Manager.Queries.{broadcast_to_group}

pub record Handlers : Type 0 where
  pub parsed : Dict String (List ℕ)
  pub raw : Dict String (List ℕ)

pub data HandlerCall : Type 0 where
  call : ℕ → Object → HandlerCall
  raw_call : ℕ → Object → List ℕ → HandlerCall

-- A missing key of the map reads as the nil slice.
abbrev pub handlers_or_nil : Option (List ℕ) → List ℕ
handlers_or_nil none = []
handlers_or_nil (some hs) = hs

unfoldable pub on_message_type : String → ℕ → Handlers → Handlers
on_message_type msg_type h hs = record hs {
  parsed = insert msg_type (handlers_or_nil (lookup msg_type hs.parsed) ++ h ∷ []) hs.parsed;
}

unfoldable pub on_raw_message_type : String → ℕ → Handlers → Handlers
on_raw_message_type msg_type h hs = record hs {
  raw = insert msg_type (handlers_or_nil (lookup msg_type hs.raw) ++ h ∷ []) hs.raw;
}

abbrev pub pong : Object
pong = ("type", Value.str "pong") ∷ []

abbrev pub touch : ℕ → (Client → Client) → ℕ → Manager → Manager
touch now f r m = record m { heap = update m.heap r (f (update_last_seen now (m.heap r))) }

-- The two fields that the fast path extracts for raw handlers.
abbrev pub partial_message : String → Option String → Object
partial_message request_id none = ("requestId", Value.str request_id) ∷ []
partial_message request_id (some e) =
    ("requestId", Value.str request_id) ∷ ("error", Value.str e) ∷ []

-- Handlers of the whole message, or a broadcast if there are none.
deliver : String → Object → List ℕ → Manager → List HandlerCall × Manager
deliver sender msg [] m = ([], broadcast_to_group sender msg m)
deliver sender msg (h ∷ hs) m = (map (λ k. call k msg) (h ∷ hs), m)

-- `raw_bytes` is the message's bytes, `parse` the result of json.Unmarshal on them, and `request_id` and
-- `error` what its partial decoding yields.
dispatch_fast :
    Handlers
    → String
    → String
    → List ℕ
    → Option Object
    → String
    → Option String
    → Manager
    → List HandlerCall × Manager
unfolding deliver
dispatch_fast hs sender msg_type raw_bytes parse request_id error m =
    elim (handlers_or_nil (lookup msg_type hs.raw)) [
      | [] ↦ elim parse [
        | none ↦ ([], m)
        | some msg ↦ deliver sender msg (handlers_or_nil (lookup msg_type hs.parsed)) m
      ]
      | h ∷ rest ↦
          (map (λ k. raw_call k (partial_message request_id error) raw_bytes) (h ∷ rest), m)
    ]

unfoldable pub handle_incoming_message_fast :
    Handlers
    → String
    → String
    → List ℕ
    → Option Object
    → String
    → Option String
    → ℕ
    → Manager
    → List HandlerCall × Manager
unfolding dispatch_fast
handle_incoming_message_fast hs sender msg_type raw_bytes parse request_id error now m =
    elim (lookup sender m.clients) [
      | none ↦ ([], m)
      | some r ↦
          if msg_type == "ping"
          then ([], touch now (λ c. (send pong c).1) r m)
          else dispatch_fast hs sender msg_type raw_bytes parse request_id error
              (touch now (λ c. c) r m)
    ]

-- `msgType, _ := message["type"].(string)`
abbrev pub text_or_empty : Option Value → String
text_or_empty (some (Value.str s)) = s
text_or_empty _ = ""

unfoldable pub type_of : Object → String
type_of msg = text_or_empty (lookup "type" msg)

dispatch_full : Handlers → String → String → Object → List ℕ → Manager → List HandlerCall × Manager
unfolding deliver
dispatch_full hs sender msg_type msg raw_bytes m = elim (handlers_or_nil (lookup msg_type hs.raw)) [
  | [] ↦ deliver sender msg (handlers_or_nil (lookup msg_type hs.parsed)) m
  | h ∷ rest ↦ (map (λ k. raw_call k msg raw_bytes) (h ∷ rest), m)
]

unfoldable pub handle_incoming_message :
    Handlers → String → Object → List ℕ → ℕ → Manager → List HandlerCall × Manager
unfolding dispatch_full
handle_incoming_message hs sender msg raw_bytes now m = elim (lookup sender m.clients) [
  | none ↦ ([], m)
  | some r ↦
      if type_of msg == "ping"
      then ([], touch now (λ c. (send pong c).1) r m)
      else dispatch_full hs sender (type_of msg) msg raw_bytes (touch now (λ c. c) r m)
]

-- The two paths agree on a message that parses and has the type that the fast path extracted, where
-- no handler of raw messages is registered for that type.
pub fast_path_agrees :
    (hs : Handlers) (sender : String) (msg : Object) (raw_bytes : List ℕ) (request_id : String)
    (error : Option String) (now : ℕ) (m : Manager)
    → handlers_or_nil (lookup (type_of msg) hs.raw) ≡ []
    → handle_incoming_message_fast hs sender
        (type_of msg)
        raw_bytes
        (some msg)
        request_id
        error
        now
        m
      ≡ handle_incoming_message hs sender msg raw_bytes now m
unfolding handle_incoming_message_fast handle_incoming_message
fast_path_agrees hs sender msg raw_bytes request_id error now m h = ground (arith, h)
