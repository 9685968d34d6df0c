-- ===== src/Ws/Pending/Tests.antt =====
-- pending.go at concrete inputs.
use foundryvtt_rest_api_rela.Base.{
  List, [], insert, lookup, nat_eq, none, refl, some, string_eq, ◌∷◌, ◌≡◌,
}
use foundryvtt_rest_api_rela.Ws.Pending.{
  PendingRequest, PendingRequests, count, load, resolve, timeout_response, cleanup_stale,
  open_request, Call, opens, step, run, new_pending,
}
use foundryvtt_rest_api_rela.Ws.Pending.Inv.{Inv, run-new_pending-Inv}
use foundryvtt_rest_api_rela.Ws.Pending.Laws.{resolve_delivers}
use foundryvtt_rest_api_rela.Ws.Pending.Cleanup.{cleanup_stale_answers}

-- A request of the default age limit, and one with a limit of its own.
abbrev calls : List Call
calls = opens "a" "search" "fvtt_1" 100 0 ∷ opens "b" "roll" "fvtt_1" 100 90 ∷ []

two_waiting : PendingRequests
unfolding run step open_request new_pending lookup
two_waiting = run calls new_pending

abbrev first : PendingRequest
first = record {
  response_ch = 0;
  kind = "search";
  client_id = "fvtt_1";
  timestamp = 100;
  max_age = 0;
}

two_waiting-Inv : Inv two_waiting
unfolding two_waiting
two_waiting-Inv = run-new_pending-Inv calls

first_waits : load "a" two_waiting ≡ some first
unfolding two_waiting load insert
first_waits = refl

resolve_other : count (resolve "zz" 200 none two_waiting) ≡ 2
unfolding two_waiting count resolve insert
resolve_other = refl

resolve_delivers_example :
    (load "a" (resolve "a" 200 none two_waiting) ≡ none)
    × (((resolve "a" 200 none two_waiting).channels 0).buffer
        ≡ record { status_code = 200; body = none; raw_data = none } ∷ [])
resolve_delivers_example =
    resolve_delivers "a" "a" 200 0 none two_waiting first two_waiting-Inv first_waits

cleanup_stale_answers_example :
    (load "a" (cleanup_stale 151 50 two_waiting) ≡ none)
    × ((cleanup_stale 151 50 two_waiting).channels 0
        ≡ record { capacity = 1; buffer = timeout_response ∷ [] })
cleanup_stale_answers_example =
    cleanup_stale_answers 151 50 "a" first two_waiting two_waiting-Inv first_waits

run-new_pending-Inv_example : Inv (run calls new_pending)
run-new_pending-Inv_example = run-new_pending-Inv calls
