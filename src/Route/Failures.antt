-- ===== src/Route/Failures.antt =====
-- handler/helpers/route.go: what fails, runs out of time or is given up.
use foundryvtt_rest_api_rela.Base.{
  Option, String, arith, delete-insert, false, length, lookup, nat_eq, none, refl, string_eq, ℕ,
  ◌≡◌, ◌≤◌, ◌⊎◌,
}
use foundryvtt_rest_api_rela.Access.Context.{ScopedKeyInfo}
use foundryvtt_rest_api_rela.Ws.Pending.{PendingRequests, open_request, remove, make_chan, store}
use foundryvtt_rest_api_rela.Ws.Client.{send, send_capacity}
use foundryvtt_rest_api_rela.Ws.Manager.Defs.{Manager}
use foundryvtt_rest_api_rela.Route.Params.{Params, Input}
use foundryvtt_rest_api_rela.Route.Target.{error, no_answer}
use foundryvtt_rest_api_rela.Route.Forward.{
  ApiRouteConfig, replied, forward, elapsed, cancelled, finish,
}
use foundryvtt_rest_api_rela.Route.Exchange.{awaited}

removed :
    (cfg : ApiRouteConfig) (request_id id : String) (now : ℕ) (pend : PendingRequests)
    → lookup request_id pend.requests ≡ none
    → (remove request_id (open_request request_id cfg.kind id now 0 pend)).requests ≡ pend.requests
unfolding open_request make_chan store remove
removed cfg request_id id now pend fresh =
    delete-insert request_id (awaited cfg pend.next_channel id now) pend.requests fresh

-- A request whose id is not pending leaves the pending requests as they were, if the client is gone
-- or its queue is full (500, and no client changes), if the timer runs out (408), and if the caller
-- leaves.
pub nothing_left_behind :
    (cfg : ApiRouteConfig) (r : Input) (key : Option ScopedKeyInfo) (request_id : String) (now : ℕ)
    (id : String) (ref : ℕ) (p : Params) (m : Manager) (pend : PendingRequests)
    → lookup request_id pend.requests ≡ none
    → let waiting = open_request request_id cfg.kind id now 0 pend in
      let (timed, after) = finish request_id elapsed waiting in
      let (silent, gone) = finish request_id cancelled waiting in
      (((m.heap ref).connected ≡ false) ⊎ (send_capacity ≤ length (m.heap ref).send_ch)
        → forward cfg r key request_id now id ref p m pend
          ≡ replied
              (error 500 "Failed to send request to Foundry client")
              m
              (remove request_id waiting))
      × ((remove request_id waiting).requests ≡ pend.requests)
      × (timed ≡ error 408 "Request timed out")
      × (after.requests ≡ pend.requests)
      × (silent ≡ no_answer)
      × (gone.requests ≡ pend.requests)
unfolding finish
nothing_left_behind cfg r key request_id now id ref p m pend fresh =
    let back = removed cfg request_id id now pend fresh in (failing, back, refl, back, refl, back)
  where
    failing :
        ((m.heap ref).connected ≡ false) ⊎ (send_capacity ≤ length (m.heap ref).send_ch)
        → forward cfg r key request_id now id ref p m pend
          ≡ replied
              (error 500 "Failed to send request to Foundry client")
              m
              (remove request_id (open_request request_id cfg.kind id now 0 pend))
    failing no_room = unfold forward send in ground (arith, no_room)
