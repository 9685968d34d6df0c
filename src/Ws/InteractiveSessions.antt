-- ===== src/Ws/InteractiveSessions.antt =====
-- go-relay/internal/ws/interactive_sessions.go: viewing sessions between a consumer's WebSocket and a
-- Foundry client. Instants and durations are nanoseconds; the lock makes each method one step.
pub mod Limit
pub mod Ending
mod Tests
use foundryvtt_rest_api_rela.Base.{
  Bool, Dict, List, Option, String, [], delete, false, if◌then◌else◌, insert, keep, leb, lookup,
  ltb, map, nat_eq, none, not, some, string_eq, suc, true, ℕ, ◌&&◌, ◌*◌, ◌+◌, ◌==◌, ◌||◌, ◌∷◌,
}

pub data State : Type 0 where
  pending active closed : State

abbrev pub is_pending : State → Bool
is_pending pending = true
is_pending _ = false

abbrev pub is_active : State → Bool
is_active active = true
is_active _ = false

abbrev pub is_closed : State → Bool
is_closed closed = true
is_closed _ = false

-- The metadata and the connection object are stored and never read by the manager, but for the
-- notice that is written to the connection of `consumer_id`.
pub record Session : Type 0 where
  pub session_id : String
  pub client_id : String
  pub api_key : String
  pub consumer_id : String
  pub state : State
  pub created_at : ℕ
  pub last_activity : ℕ

pub record Manager : Type 0 where
  pub sessions : Dict String Session
  pub max_per_key : ℕ

-- "interactive-session-ended" messages, to the consumer of a session.
pub record Notice : Type 0 where
  pub consumer_id : String
  pub session_id : String
  pub reason : String

abbrev pub second : ℕ
second = 1000000000

abbrev pub pending_timeout : ℕ
pending_timeout = 30 * second

abbrev pub inactive_timeout : ℕ
inactive_timeout = 5 * 60 * second

-- The argument of NewInteractiveSessionManager as a natural number: below 0 it acts as 0.
unfoldable pub new_manager : ℕ → Manager
new_manager max_per_key = record {
  sessions = [];
  max_per_key = if max_per_key == 0 then 3 else max_per_key;
}

abbrev pub counts_for : String → Session → Bool
counts_for api_key s = (s.api_key == api_key) && not (is_closed s.state)

unfoldable pub count_sessions : String → Dict String Session → ℕ
count_sessions api_key [] = 0
count_sessions api_key ((id, s) ∷ m) =
    let rest = count_sessions api_key m in if counts_for api_key s then suc rest else rest

-- `session_id` is the generated id, `is_<milliseconds>_<random>`; `none` is the limit error.
unfoldable pub create_session :
    String → String → String → String → ℕ → Manager → Option (String × Manager)
create_session session_id client_id api_key consumer_id now m =
    if leb m.max_per_key (count_sessions api_key m.sessions)
    then none
    else some (session_id, record m { sessions = insert session_id session m.sessions })
  where
    session : Session
    session = record {
      session_id = session_id;
      client_id = client_id;
      api_key = api_key;
      consumer_id = consumer_id;
      state = pending;
      created_at = now;
      last_activity = now;
    }

unfoldable pub get_session : String → Manager → Option Session
get_session id m = lookup id m.sessions

-- A write through the pointer that the map holds.
write_session : String → (Session → Session) → Manager → Manager
write_session id f m = elim (lookup id m.sessions) [
  | none ↦ m
  | some s ↦ record m { sessions = insert id (f s) m.sessions }
]

unfoldable pub activate_session : String → ℕ → Manager → Manager
unfolding write_session
activate_session id now m =
    write_session id
      (λ s. if is_pending s.state then record s { state = active; last_activity = now } else s) m

unfoldable pub update_activity : String → ℕ → Manager → Manager
unfolding write_session
update_activity id now m = write_session id (λ s. record s { last_activity = now }) m

unfoldable pub end_session : String → Manager → Bool × Manager
end_session id m = elim (lookup id m.sessions) [
  | none ↦ (false, m)
  | some s ↦ (true, record m { sessions = delete id m.sessions })
]

abbrev pub of_client : String → Session → Bool
of_client client_id s = (s.client_id == client_id) && not (is_closed s.state)

abbrev pub of_consumer : String → Session → Bool
of_consumer consumer_id s = (s.consumer_id == consumer_id) && not (is_closed s.state)

-- The entries that pass a test, with their ids.
unfoldable pub ending : (Session → Bool) → Dict String Session → Dict String Session
ending test [] = []
ending test ((id, s) ∷ m) = let rest = ending test m in if test s then (id, s) ∷ rest else rest

abbrev pub drop_sessions : (Session → Bool) → Manager → Manager
drop_sessions test m = record m { sessions = keep (λ id s. not (test s)) m.sessions }

abbrev pub notice : String → String × Session → Notice
notice reason (id, s) = record {
  consumer_id = s.consumer_id;
  session_id = s.session_id;
  reason = reason;
}

unfoldable pub terminate_sessions_for_client : String → Manager → List Notice × Manager
terminate_sessions_for_client client_id m = (
  map (notice "foundry-disconnected") (ending (of_client client_id) m.sessions),
  drop_sessions (of_client client_id) m,
)

unfoldable pub terminate_sessions_for_consumer : String → Manager → List String × Manager
terminate_sessions_for_consumer consumer_id m = (
  map (λ e. e.0) (ending (of_consumer consumer_id) m.sessions),
  drop_sessions (of_consumer consumer_id) m,
)

-- `now.Sub(t) > d`, for instants that are not in the future of `now`.
abbrev pub older : ℕ → ℕ → ℕ → Bool
older now t d = ltb (t + d) now

unfoldable pub timed_out : ℕ → Session → Bool
timed_out now s =
    (is_pending s.state && older now s.created_at pending_timeout)
    || (is_active s.state && older now s.last_activity inactive_timeout)

-- The reason is chosen after the loop, from the state that the loop has just set to "closed".
unfoldable pub timeout_reason : Session → String
timeout_reason s = if is_pending s.state then "pending-timeout" else "inactivity-timeout"

unfoldable pub cleanup : ℕ → Manager → List Notice × Manager
cleanup now m = (
  map (λ e. let s : Session = record (e.1) { state = closed } in notice (timeout_reason s) (e.0, s))
      (ending (timed_out now) m.sessions),
  drop_sessions (λ s. is_closed s.state || timed_out now s) m,
)

-- The calls that change the manager, as the handlers and the cleanup loop make them.
pub data Call : Type 0 where
  creates : String → String → String → String → ℕ → Call
  activates updates : String → ℕ → Call
  ends client_leaves consumer_leaves : String → Call
  cleans : ℕ → Call

-- A call that fails leaves the manager as it was.
abbrev pub after : Manager → Option (String × Manager) → Manager
after m none = m
after m (some (id, m')) = m'

unfoldable pub step : Call → Manager → Manager
step (creates id client_id api_key consumer_id now) m =
    after m (create_session id client_id api_key consumer_id now m)
step (activates id now) m = activate_session id now m
step (updates id now) m = update_activity id now m
step (ends id) m = (end_session id m).1
step (client_leaves client_id) m = (terminate_sessions_for_client client_id m).1
step (consumer_leaves consumer_id) m = (terminate_sessions_for_consumer consumer_id m).1
step (cleans now) m = (cleanup now m).1

unfoldable pub run : List Call → Manager → Manager
run [] m = m
run (c ∷ cs) m = run cs (step c m)
