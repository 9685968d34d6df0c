-- ===== src/Route/ForwardTests.antt =====
-- The message to the world and the wait for its answer at concrete inputs.
use foundryvtt_rest_api_rela.Base.{
  [], arith, false, insert, length, lookup, nat_eq, none, refl, some, string_eq, ◌∷◌, ◌≡◌, ◌≤◌, ◌⊎◌,
}
use foundryvtt_rest_api_rela.Base.Json.{Value, Items, Object}
use foundryvtt_rest_api_rela.Access.Context.{ScopedKeyInfo}
use foundryvtt_rest_api_rela.Ws.Pending.{open_request, remove, load, new_pending}
use foundryvtt_rest_api_rela.Ws.Pending.Inv.{new_pending-Inv}
use foundryvtt_rest_api_rela.Ws.Client.{new_client, send_capacity}
use foundryvtt_rest_api_rela.Ws.Manager.Defs.{new_manager, add_client, accept, announce, register}
use foundryvtt_rest_api_rela.Route.Params.{Params, get_string}
use foundryvtt_rest_api_rela.Route.Target.{error, no_answer}
use foundryvtt_rest_api_rela.Route.Forward.{
  ApiRouteConfig, texts, message_of, replied, waits, forward, elapsed, cancelled, finish,
}
use foundryvtt_rest_api_rela.Route.MessageLaws.{message_unforgeable}
use foundryvtt_rest_api_rela.Route.Results.{on_result}
use foundryvtt_rest_api_rela.Route.Exchange.{CanTake, with_message, answer, Answers}
use foundryvtt_rest_api_rela.Route.Crossing.{same_millisecond_crosses}
use foundryvtt_rest_api_rela.Route.Forward.{request_id_of}
use foundryvtt_rest_api_rela.Route.Failures.{nothing_left_behind}
use foundryvtt_rest_api_rela.Route.Samples.{
  client_id_param, input, key_for, limit_five, limit_param, two,
}

abbrev search : ApiRouteConfig
search = record {
  kind = "search";
  required_params = limit_param ∷ [];
  optional_params = client_id_param ∷ [];
  validate_params = none;
  build_payload = none;
}

abbrev forged : Params
forged = ("_scopes", Value.str "macro:write") ∷ ("requestId", Value.str "other") ∷ []

message_unforgeable_example :
    let msg = message_of search input (some (key_for [])) "search_1" forged in
    (lookup "type" msg ≡ some (Value.str "search"))
    × (lookup "requestId" msg ≡ some (Value.str "search_1"))
    × ((k : ScopedKeyInfo)
        → some (key_for []) ≡ some k
        → lookup "_scopes" msg ≡ some (Value.arr (texts k.scopes)))
message_unforgeable_example = message_unforgeable search input (some (key_for [])) "search_1" forged

abbrev reply : Object
reply = ("requestId", Value.str "search_1") ∷ ("results", Value.arr Items.nil) ∷ []

reply-Answers : Answers "search_1" reply
unfolding get_string lookup
reply-Answers = (refl, refl)

world_a-CanTake : CanTake 0 two
unfolding add_client accept announce register new_manager new_client insert lookup
world_a-CanTake = (refl, ground arith)

world_b-CanTake :
    CanTake 1 (with_message 0 (message_of search input none "search_1" limit_five) two)
unfolding add_client accept announce register new_manager new_client insert lookup
world_b-CanTake = (refl, ground arith)

same_millisecond_crosses_example :
    let m1 = with_message 0 (message_of search input none "search_1" limit_five) two in
    let m2 = with_message 1 (message_of search input none "search_1" limit_five) m1 in
    let pend1 = open_request "search_1" "search" "world_a" 1 0 new_pending in
    let pend2 = open_request "search_1" "search" "world_b" 1 0 pend1 in
    let q = on_result reply (123 ∷ 125 ∷ []) pend2 in
    (request_id_of search "1" ≡ request_id_of search "1")
    × (forward search input none "search_1" 1 "world_a" 0 limit_five two new_pending
        ≡ waits m1 pend1)
    × (forward search input none "search_1" 1 "world_b" 1 limit_five m1 pend1 ≡ waits m2 pend2)
    × ((q.channels pend1.next_channel).buffer ≡ answer (123 ∷ 125 ∷ []) ∷ [])
    × ((q.channels new_pending.next_channel).buffer ≡ [])
    × (load "search_1" q ≡ none)
same_millisecond_crosses_example =
    same_millisecond_crosses search search input input none none "1" 1 1 "world_a" "world_b" 0 1
      limit_five limit_five two new_pending reply (123 ∷ 125 ∷ []) refl new_pending-Inv
      world_a-CanTake world_b-CanTake reply-Answers

nothing_left_behind_example :
    let waiting = open_request "search_1" "search" "world_a" 1 0 new_pending in
    let (timed, after) = finish "search_1" elapsed waiting in
    let (silent, gone) = finish "search_1" cancelled waiting in
    (((two.heap 0).connected ≡ false) ⊎ (send_capacity ≤ length (two.heap 0).send_ch)
      → forward search input none "search_1" 1 "world_a" 0 limit_five two new_pending
        ≡ replied
            (error 500 "Failed to send request to Foundry client")
            two
            (remove "search_1" waiting))
    × ((remove "search_1" waiting).requests ≡ new_pending.requests)
    × (timed ≡ error 408 "Request timed out")
    × (after.requests ≡ new_pending.requests)
    × (silent ≡ no_answer)
    × (gone.requests ≡ new_pending.requests)
unfolding new_pending lookup
nothing_left_behind_example =
    nothing_left_behind search input none "search_1" 1 "world_a" 0 limit_five two new_pending refl
