-- ===== src/Events/Streams.antt =====
-- handler/helpers/sse.go: the SSE and WebSocket subscribers of each world. A connection is its
-- pointer, and the filters that it carries for the sender of the events are left out. What a caller
-- keeps of a list that it got is not modelled: the lists are values here.
use foundryvtt_rest_api_rela.Base.{
  Bool, Dict, List, Option, String, [], delete, eqb, false, if◌then◌else◌, insert, leb, length,
  lookup, nat_eq, none, not, one_if, select, some, string_eq, suc, true, ℕ, ◌++◌, ◌+◌, ◌==◌, ◌∷◌,
}

pub data Channel : Type 0 where
  chat roll hooks combat actor scene : Channel

pub record Conn : Type 0 where
  pub ref : ℕ
  pub client_id : String

-- A WebSocket connection, which does not change; the lists hold the pointers.
pub record WsEvent : Type 0 where
  pub client_id : String
  pub channel : String

-- A call of OnSubscriberCountChanged.
pub record CountChange : Type 0 where
  pub client_id : String
  pub channel : String
  pub count : ℕ

-- The six maps of SSE connections are one per channel; `cancels` holds the ids of cancel functions.
pub record SseManager : Type 0 where
  pub sse : Channel → Dict String (List Conn)
  pub ws_heap : ℕ → WsEvent
  pub ws_events : Dict String (List ℕ)
  pub cancel_seq : ℕ
  pub cancels : Dict String (List ℕ)
  pub emitted : List CountChange

unfoldable pub new_sse_manager : (ℕ → WsEvent) → SseManager
new_sse_manager ws_heap = record {
  sse = λ c. [];
  ws_heap = ws_heap;
  ws_events = [];
  cancel_seq = 0;
  cancels = [];
  emitted = [];
}

abbrev pub max_sse_connections_per_client : ℕ
max_sse_connections_per_client = 10

abbrev pub name_of : Channel → String
name_of chat = "chat-events"
name_of roll = "roll-events"
name_of hooks = "hooks"
name_of combat = "combat-events"
name_of actor = "actor-events"
name_of scene = "scene-events"

unfoldable pub channel_of : String → Option Channel
channel_of name =
    if name == "chat-events"
    then some chat
    else if name == "roll-events"
    then some roll
    else if name == "hooks"
    then some hooks
    else if name == "combat-events"
    then some combat
    else if name == "actor-events"
    then some actor
    else if name == "scene-events"
    then some scene
    else none

-- A missing key reads as the nil slice.
abbrev pub list_of {ℓ} : {A : Type ℓ} → Option (List A) → List A
list_of none = []
list_of (some xs) = xs

unfoldable pub get_sse : Channel → String → SseManager → List Conn
get_sse c id m = list_of (lookup id (m.sse c))

unfoldable pub get_ws_events : String → SseManager → List ℕ
get_ws_events id m = list_of (lookup id m.ws_events)

unfoldable pub sse_count : Option Channel → String → SseManager → ℕ
sse_count none id m = 0
sse_count (some c) id m = length (get_sse c id m)

unfoldable pub count_on : (ℕ → WsEvent) → String → List ℕ → ℕ
count_on heap name [] = 0
count_on heap name (r ∷ rs) = one_if ((heap r).channel == name) + count_on heap name rs

unfoldable pub total_for_channel : String → String → SseManager → ℕ
total_for_channel id name m =
    sse_count (channel_of name) id m + count_on m.ws_heap name (get_ws_events id m)

abbrev pub eq_channel : Channel → Channel → Bool
eq_channel a b = name_of a == name_of b

abbrev pub put : Channel → Dict String (List Conn) → SseManager → SseManager
put c conns m = record m { sse = λ d. if eq_channel c d then conns else m.sse d }

unfoldable pub emit_count_changed : String → String → ℕ → SseManager → SseManager
emit_count_changed id name count m = record m {
  emitted = m.emitted ++ record { client_id = id; channel = name; count = count } ∷ [];
}

-- The count after a change, which the callback is told.
abbrev pub emit_total : String → String → SseManager → SseManager
emit_total id name m = emit_count_changed id name (total_for_channel id name m) m

unfoldable pub add_sse : Channel → Conn → SseManager → Bool × SseManager
add_sse c conn m =
    let conns = get_sse c conn.client_id m in
    if leb max_sse_connections_per_client (length conns) then (false, m) else (
      true,
      emit_total conn.client_id (name_of c)
          (put c (insert conn.client_id (conns ++ conn ∷ []) (m.sse c)) m),
    )

-- The first connection with the pointer is taken out.
unfoldable pub without : ℕ → List Conn → List Conn
without ref [] = []
without ref (c ∷ cs) = if eqb c.ref ref then cs else c ∷ without ref cs

-- An emptied list is deleted.
abbrev pub store_list {ℓ} :
    {A : Type ℓ} → String → List A → Dict String (List A) → Dict String (List A)
store_list id [] m = delete id m
store_list id (a ∷ rest) m = insert id (a ∷ rest) m

unfoldable pub remove_sse : Channel → Conn → SseManager → SseManager
remove_sse c conn m =
    emit_total conn.client_id (name_of c) (
      put c (store_list conn.client_id (without conn.ref (get_sse c conn.client_id m)) (m.sse c)) m)

unfoldable pub add_ws_event : ℕ → SseManager → Bool × SseManager
add_ws_event ref m =
    let w = m.ws_heap ref in
    let ws = get_ws_events w.client_id m in
    if leb max_sse_connections_per_client (length ws) then (false, m) else (
      true,
      emit_total w.client_id w.channel
          (record m { ws_events = insert w.client_id (ws ++ ref ∷ []) m.ws_events }),
    )

unfoldable pub without_ws : ℕ → List ℕ → List ℕ
without_ws ref [] = []
without_ws ref (r ∷ rs) = if eqb r ref then rs else r ∷ without_ws ref rs

unfoldable pub remove_ws_event : ℕ → SseManager → SseManager
remove_ws_event ref m =
    let w = m.ws_heap ref in
    emit_total w.client_id w.channel (record m {
      ws_events = store_list w.client_id (without_ws ref (get_ws_events w.client_id m)) m.ws_events;
    })

-- The id of the cancel function, with which it is taken out again.
unfoldable pub register_sse_cancel : String → SseManager → ℕ × SseManager
register_sse_cancel id m =
    let n = suc m.cancel_seq in
    (
      n,
      record m {
        cancel_seq = n;
        cancels = insert id (list_of (lookup id m.cancels) ++ n ∷ []) m.cancels;
      },
    )

unfoldable pub unregister_sse_cancel : String → ℕ → SseManager → SseManager
unregister_sse_cancel id n m = elim (lookup id m.cancels) [
  | none ↦ m
  | some ids ↦ record m { cancels = store_list id (select (λ k. not (eqb k n)) ids) m.cancels }
]

-- The cancel functions that are called.
unfoldable pub close_for_client_id : String → SseManager → List ℕ × SseManager
close_for_client_id id m =
    (list_of (lookup id m.cancels), record m { cancels = delete id m.cancels })

-- The methods of the six channels.
abbrev pub add_chat_sse : Conn → SseManager → Bool × SseManager
add_chat_sse conn m = add_sse chat conn m

abbrev pub remove_chat_sse : Conn → SseManager → SseManager
remove_chat_sse conn m = remove_sse chat conn m

abbrev pub add_roll_sse : Conn → SseManager → Bool × SseManager
add_roll_sse conn m = add_sse roll conn m

abbrev pub remove_roll_sse : Conn → SseManager → SseManager
remove_roll_sse conn m = remove_sse roll conn m

abbrev pub add_generic_sse : Conn → SseManager → Bool × SseManager
add_generic_sse conn m = add_sse hooks conn m

abbrev pub remove_generic_sse : Conn → SseManager → SseManager
remove_generic_sse conn m = remove_sse hooks conn m

abbrev pub add_combat_sse : Conn → SseManager → Bool × SseManager
add_combat_sse conn m = add_sse combat conn m

abbrev pub remove_combat_sse : Conn → SseManager → SseManager
remove_combat_sse conn m = remove_sse combat conn m

abbrev pub add_actor_sse : Conn → SseManager → Bool × SseManager
add_actor_sse conn m = add_sse actor conn m

abbrev pub remove_actor_sse : Conn → SseManager → SseManager
remove_actor_sse conn m = remove_sse actor conn m

abbrev pub add_scene_sse : Conn → SseManager → Bool × SseManager
add_scene_sse conn m = add_sse scene conn m

abbrev pub remove_scene_sse : Conn → SseManager → SseManager
remove_scene_sse conn m = remove_sse scene conn m

pub data Call : Type 0 where
  adds removes : Channel → Conn → Call
  adds_ws removes_ws : ℕ → Call
  registers closes : String → Call
  unregisters : String → ℕ → Call

unfoldable pub step : Call → SseManager → SseManager
step (adds c conn) m = (add_sse c conn m).1
step (removes c conn) m = remove_sse c conn m
step (adds_ws ref) m = (add_ws_event ref m).1
step (removes_ws ref) m = remove_ws_event ref m
step (registers id) m = (register_sse_cancel id m).1
step (closes id) m = (close_for_client_id id m).1
step (unregisters id n) m = unregister_sse_cancel id n m

unfoldable pub run : List Call → SseManager → SseManager
run [] m = m
run (c ∷ cs) m = run cs (step c m)
