-- ===== src/Events/Tests.antt =====
-- handler/helpers/sse.go at concrete inputs.
use foundryvtt_rest_api_rela.Base.{
  List, [], delete, insert, length, lookup, nat_eq, none, refl, string_eq, true, ℕ, ◌∷◌, ◌≡◌,
}
use foundryvtt_rest_api_rela.Events.Streams.{
  chat, roll, hooks, combat, actor, scene, Conn, WsEvent, SseManager, new_sse_manager, channel_of,
  get_sse, get_ws_events, sse_count, count_on, total_for_channel, emit_count_changed, add_sse,
  without, remove_sse, add_ws_event, add_chat_sse, remove_chat_sse, add_roll_sse, remove_roll_sse,
  add_generic_sse, remove_generic_sse, add_combat_sse, remove_combat_sse, add_actor_sse,
  remove_actor_sse, add_scene_sse, remove_scene_sse, Call, adds, removes, adds_ws, step, run,
  name_of,
}
use foundryvtt_rest_api_rela.Base.Json.{Value, Object}
use foundryvtt_rest_api_rela.Events.Fanout.{
  Filters, sse_event, passes_sse, event_name, to_sse, to_ws, fanout,
}
use foundryvtt_rest_api_rela.Events.Silence.{zero_emitted-silent}
use foundryvtt_rest_api_rela.Events.Counts.{IsReported, run-new_sse_manager-IsReported, latest}
use foundryvtt_rest_api_rela.Events.Limit.{IsLimited, run-new_sse_manager-IsLimited}

abbrev listener : ℕ → Conn
listener ref = record { ref = ref; client_id = "world_a" }

abbrev sockets : ℕ → WsEvent
sockets ref = record { client_id = "world_a"; channel = "chat-events" }

abbrev calls : List Call
calls = adds chat (listener 1) ∷ adds_ws 5 ∷ adds roll (listener 2) ∷ removes chat (listener 1) ∷ []

abbrev busy : SseManager
busy = run calls (new_sse_manager sockets)

one_left : total_for_channel "world_a" "chat-events" busy ≡ 1
unfolding run step new_sse_manager add_sse remove_sse add_ws_event emit_count_changed
    total_for_channel sse_count channel_of count_on get_sse get_ws_events without lookup insert
    delete
one_left = refl

run-new_sse_manager-IsReported_example : IsReported busy
run-new_sse_manager-IsReported_example = run-new_sse_manager-IsReported calls sockets

run-new_sse_manager-IsLimited_example : IsLimited busy
run-new_sse_manager-IsLimited_example = run-new_sse_manager-IsLimited calls sockets

abbrev fresh : SseManager
fresh = new_sse_manager sockets

-- Each method writes the list of its own channel.
methods :
    (length (get_sse chat "world_a" (add_chat_sse (listener 1) fresh).1) ≡ 1)
    × (length (get_sse roll "world_a" (add_roll_sse (listener 1) fresh).1) ≡ 1)
    × (length (get_sse hooks "world_a" (add_generic_sse (listener 1) fresh).1) ≡ 1)
    × (length (get_sse combat "world_a" (add_combat_sse (listener 1) fresh).1) ≡ 1)
    × (length (get_sse actor "world_a" (add_actor_sse (listener 1) fresh).1) ≡ 1)
    × (length (get_sse scene "world_a" (add_scene_sse (listener 1) fresh).1) ≡ 1)
    × (get_sse chat "world_a" (remove_chat_sse (listener 1) fresh) ≡ [])
    × (get_sse roll "world_a" (remove_roll_sse (listener 1) fresh) ≡ [])
    × (get_sse hooks "world_a" (remove_generic_sse (listener 1) fresh) ≡ [])
    × (get_sse combat "world_a" (remove_combat_sse (listener 1) fresh) ≡ [])
    × (get_sse actor "world_a" (remove_actor_sse (listener 1) fresh) ≡ [])
    × (get_sse scene "world_a" (remove_scene_sse (listener 1) fresh) ≡ [])
unfolding new_sse_manager add_sse remove_sse emit_count_changed get_sse without lookup insert delete
methods = (refl, refl, refl, refl, refl, refl, refl, refl, refl, refl, refl, refl)

abbrev left : List Call
left = adds chat (listener 1) ∷ removes chat (listener 1) ∷ []

abbrev whispers : Filters
whispers = record {
  speaker = "";
  kind = none;
  whisper_only = true;
  user_id = "user_2";
  hook_filters = [];
  encounter_id = "";
  actor_uuid = "";
  scene_id = "";
}

abbrev message : Object
message = ("speaker", Value.str "Merlin") ∷ ("userId", Value.str "user_1") ∷ []

told_zero : latest "world_a" (name_of chat) (run left (new_sse_manager sockets)).emitted 0 ≡ 0
unfolding latest run step new_sse_manager add_sse remove_sse emit_count_changed total_for_channel
    sse_count channel_of count_on get_sse get_ws_events without lookup insert delete
told_zero = refl

zero_emitted-silent_example :
    fanout (λ n. n) (λ r. whispers) chat "world_a" message (run left (new_sse_manager sockets)) ≡ []
zero_emitted-silent_example =
    zero_emitted-silent (λ n. n) (λ r. whispers) left sockets chat "world_a" message told_zero

-- A public message of one user reaches a subscriber who asks for whispers to another.
public_message :
    fanout
      (λ n. n)
      (λ r. whispers)
      chat
      "world_a"
      message
      (run (adds chat (listener 1) ∷ []) (new_sse_manager sockets))
    ≡ sse_event 1 "chat-create" message ∷ []
unfolding fanout to_sse to_ws passes_sse event_name run step new_sse_manager add_sse
    emit_count_changed total_for_channel sse_count channel_of count_on get_sse get_ws_events lookup
    insert
public_message = refl
