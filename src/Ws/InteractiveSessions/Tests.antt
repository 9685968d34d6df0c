-- ===== src/Ws/InteractiveSessions/Tests.antt =====
-- interactive_sessions.go at concrete inputs.
use foundryvtt_rest_api_rela.Base.{
  Distinct, [], lookup, nat_eq, none, refl, some, string_eq, ◌∷◌, ◌≡◌, ◌≢◌, ◌≤◌,
}
use foundryvtt_rest_api_rela.Ws.InteractiveSessions.{
  pending, closed, Session, Manager, new_manager, count_sessions, create_session, get_session,
  creates, run,
}
use foundryvtt_rest_api_rela.Ws.InteractiveSessions.Limit.{open_sessions_bounded}

abbrev view : Session
view = record {
  session_id = "is_1";
  client_id = "fvtt_1";
  api_key = "k";
  consumer_id = "c1";
  state = pending;
  created_at = 0;
  last_activity = 0;
}

abbrev one_view : Manager
one_view = record { sessions = ("is_1", view) ∷ []; max_per_key = 1 }

create_refused : create_session "is_2" "fvtt_1" "k" "c2" 5 one_view ≡ none
unfolding create_session count_sessions
create_refused = refl

get_view : get_session "is_1" one_view ≡ some view
unfolding get_session lookup
get_view = refl

one_view-Distinct : Distinct one_view.sessions
unfolding lookup
one_view-Distinct = (refl, tt)

view_open : view.state ≢ closed
view_open e = cc

open_sessions_bounded_example :
    count_sessions "k" (run (creates "is_1" "fvtt_1" "k" "c1" 0 ∷ []) (new_manager 0)).sessions ≤ 3
open_sessions_bounded_example =
    open_sessions_bounded 0 (creates "is_1" "fvtt_1" "k" "c1" 0 ∷ []) "k"
