-- ===== src/Events/Fanout.antt =====
-- server/server.go: the events of a world go to its subscribers. A write to a subscriber that leaves
-- meanwhile is left out, and so is the order of the writes, each of which has a goroutine.
use foundryvtt_rest_api_rela.Base.{
  Bool, List, Option, String, [], contains, if◌then◌else◌, lookup, nat_eq, none, some, string_eq,
  true, update, ℕ, ◌&&◌, ◌&◌, ◌++◌, ◌==◌, ◌||◌, ◌∷◌,
}
use foundryvtt_rest_api_rela.Base.Json.{Value, Object}
use foundryvtt_rest_api_rela.Ws.Client.{send}
use foundryvtt_rest_api_rela.Ws.Remote.Delivery.{copy_payload}
use foundryvtt_rest_api_rela.Ws.Manager.Defs.{Manager}
use foundryvtt_rest_api_rela.Route.Params.{get_string}
use foundryvtt_rest_api_rela.Route.Forward.{string_at}
use foundryvtt_rest_api_rela.Events.Streams.{
  Channel, chat, roll, hooks, combat, actor, scene, Conn, SseManager, name_of, get_sse,
  get_ws_events,
}

-- The filters of the connections; a message type is an integer in decimal.
pub record Filters : Type 0 where
  pub speaker : String
  pub kind : Option String
  pub whisper_only : Bool
  pub user_id : String
  pub hook_filters : List String
  pub encounter_id : String
  pub actor_uuid : String
  pub scene_id : String

-- `if filter != "" { if s, ok := …; ok && s != filter { continue } }`
abbrev pub matches_if_given : String → Option Value → Bool
matches_if_given filter (some (Value.str s)) = filter == "" || s == filter
matches_if_given filter _ = true

-- `to_int` is the conversion of a number to int.
abbrev pub matches_kind : (String → String) → Option String → Option Value → Bool
matches_kind to_int (some t) (some (Value.num n)) = to_int n == t
matches_kind to_int _ _ = true

abbrev pub matches : String → String → Bool
matches filter s = filter == "" || filter == s

-- The object in the field "data", if there is one.
abbrev pub nested : Option Value → Option Object
nested (some (Value.obj o)) = some (copy_payload o [])
nested _ = none

unfoldable pub hook_name : Object → String
hook_name data_of =
    if get_string "hook" data_of == ""
    then elim (nested (lookup "data" data_of)) [ none ↦ "" | some o ↦ get_string "hook" o ]
    else get_string "hook" data_of

abbrev pub matches_hook : List String → String → Bool
matches_hook [] name = true
matches_hook (f ∷ fs) name = contains name (f ∷ fs)

unfoldable pub combat_payload : Object → Object
combat_payload data_of = elim (nested (lookup "data" data_of)) [ none ↦ data_of | some o ↦ o ]

-- Whether an SSE connection with the filters gets the event.
unfoldable pub passes_sse : (String → String) → Channel → Object → Filters → Bool
passes_sse to_int chat o f =
    matches_if_given f.speaker (lookup "speaker" o) && matches_kind to_int f.kind (lookup "type" o)
passes_sse to_int roll o f = matches_if_given f.user_id (lookup "userId" o)
passes_sse to_int hooks o f = matches_hook f.hook_filters (hook_name o)
passes_sse to_int combat o f = matches f.encounter_id (get_string "encounterId" (combat_payload o))
passes_sse to_int actor o f = matches f.actor_uuid (get_string "actorUuid" o)
passes_sse to_int scene o f = matches f.scene_id (get_string "sceneId" o)

-- A WebSocket gets every combat event.
unfoldable pub passes_ws : (String → String) → Channel → Object → Filters → Bool
unfolding passes_sse
passes_ws to_int combat o f = true
passes_ws to_int c o f = passes_sse to_int c o f

-- The text after "event:".
unfoldable pub event_name : Channel → Object → String
event_name chat o = elim (string_at "eventType" o) [ none ↦ "chat-create" | some e ↦ "chat-" & e ]
event_name roll o = "roll"
event_name hooks o = hook_name o
event_name combat o = "combat-" & get_string "eventType" (combat_payload o)
event_name actor o = "actor-" & get_string "eventType" o
event_name scene o = "scene-" & get_string "eventType" o

abbrev pub payload_of : Channel → Object → Object
payload_of combat o = combat_payload o
payload_of c o = o

pub data Sent : Type 0 where
  sse_event : ℕ → String → Object → Sent
  ws_event : ℕ → Channel → String → Object → Sent

unfoldable pub to_sse : (String → String) → (ℕ → Filters) → Channel → Object → List Conn → List Sent
to_sse to_int filters c o [] = []
to_sse to_int filters c o (k ∷ ks) =
    let rest = to_sse to_int filters c o ks in
    if passes_sse to_int c o (filters k.ref)
    then sse_event k.ref (event_name c o) (payload_of c o) ∷ rest
    else rest

unfoldable pub to_ws :
    (String → String) → (ℕ → Filters) → Channel → Object → SseManager → List ℕ → List Sent
to_ws to_int filters c o m [] = []
to_ws to_int filters c o m (r ∷ rs) =
    let rest = to_ws to_int filters c o m rs in
    if (m.ws_heap r).channel == name_of c && passes_ws to_int c o (filters r)
    then ws_event r c (event_name c o) (payload_of c o) ∷ rest
    else rest

-- What an event of the world `id` on the channel sends.
unfoldable pub fanout :
    (String → String) → (ℕ → Filters) → Channel → String → Object → SseManager → List Sent
fanout to_int filters c id o m =
    to_sse to_int filters c o (get_sse c id m) ++ to_ws to_int filters c o m (get_ws_events id m)

-- The module of the world is told how many subscribers a channel has; `count` is in decimal.
unfoldable pub notify_module_channel_count : String → String → String → Manager → Manager
notify_module_channel_count id channel count m = elim (lookup id m.clients) [
  | none ↦ m
  | some r ↦ record m {
    heap =
        update m.heap r
          (send
            (("type", Value.str "event-subscription-update")
              ∷ ("channel", Value.str channel)
              ∷ ("count", Value.num count)
              ∷ [])
            (m.heap r)).1;
  }
]
