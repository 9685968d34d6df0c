-- ===== src/Ws/InteractiveSessions/Ending.antt =====
-- interactive_sessions.go: which sessions end, and what is said about it.
use foundryvtt_rest_api_rela.Base.{
  Bool, Dict, Distinct, List, Option, String, [], any, ap, arith, beq_self, false, if◌then◌else◌,
  keep, leb, length, lookup, lookup-keep, map, nat_eq, none, not, refl, some, string_eq, suc, true,
  ℕ, ◌&&◌, ◌+◌, ◌<◌, ◌==◌, ◌||◌, ◌∷◌, ◌≡◌, ◌≢◌,
}
use foundryvtt_rest_api_rela.Ws.InteractiveSessions.{
  State, pending, active, closed, is_closed, Session, Manager, Notice, pending_timeout,
  inactive_timeout, get_session, of_client, of_consumer, ending, notice,
  terminate_sessions_for_client, terminate_sessions_for_consumer, timed_out, timeout_reason,
  cleanup,
}

length-ending-keep :
    (test : Session → Bool) (m : Dict String Session)
    → length (ending test m) + length (keep (λ id s. not (test s)) m) ≡ length m
unfolding ending keep
length-ending-keep test [] = omega arith
length-ending-keep test ((id, s) ∷ m) = ground (arith, length-ending-keep test m)

length-map {ℓ κ} :
    {A : Type ℓ} {B : Type κ} (f : A → B) (xs : List A) → length (map f xs) ≡ length xs
length-map f [] = refl
length-map f (x ∷ xs) = ap suc (length-map f xs)

-- When a Foundry client goes, an open session ends exactly if it is a session of that client, and
-- as many consumers are notified as sessions are taken out.
pub terminate_for_client_exact :
    (client_id id : String) (s : Session) (m : Manager)
    → Distinct m.sessions
    → get_session id m ≡ some s
    → s.state ≢ closed
    → let (notices, m') = terminate_sessions_for_client client_id m in
      (get_session id m' ≡ (if s.client_id == client_id then none else some s))
      × (length notices + length m'.sessions ≡ length m.sessions)
unfolding terminate_sessions_for_client get_session
terminate_for_client_exact client_id id s m d h o = (
  ground (arith, lookup-keep (λ _ q. not (of_client client_id q)) id m.sessions d, h),
  omega (
    arith,
    length-map (notice "foundry-disconnected") (ending (of_client client_id) m.sessions),
    length-ending-keep (of_client client_id) m.sessions,
  ),
)

-- When a consumer goes, an open session ends exactly if it is a session of that consumer, and as
-- many ids are returned as sessions are taken out.
pub terminate_for_consumer_exact :
    (consumer_id id : String) (s : Session) (m : Manager)
    → Distinct m.sessions
    → get_session id m ≡ some s
    → s.state ≢ closed
    → let (ids, m') = terminate_sessions_for_consumer consumer_id m in
      (get_session id m' ≡ (if s.consumer_id == consumer_id then none else some s))
      × (length ids + length m'.sessions ≡ length m.sessions)
unfolding terminate_sessions_for_consumer get_session
terminate_for_consumer_exact consumer_id id s m d h o = (
  ground (arith, lookup-keep (λ _ q. not (of_consumer consumer_id q)) id m.sessions d, h),
  omega (
    arith,
    length-map {A = String × Session} (λ e. e.0) (ending (of_consumer consumer_id) m.sessions),
    length-ending-keep (of_consumer consumer_id) m.sessions,
  ),
)

-- The last instant at which the cleanup leaves a session alone; a closed one it never leaves.
abbrev pub deadline : State → Session → Option ℕ
deadline pending s = some (s.created_at + pending_timeout)
deadline active s = some (s.last_activity + inactive_timeout)
deadline closed s = none

abbrev pub survives : ℕ → Option ℕ → Bool
survives now none = false
survives now (some t) = leb now t

-- The cleanup takes out exactly the sessions past their deadline: 30 seconds after the creation of
-- a pending one, five minutes after the last activity of an active one.
pub cleanup_by_deadline :
    (now : ℕ) (id : String) (s : Session) (m : Manager)
    → Distinct m.sessions
    → get_session id m ≡ some s
    → get_session id (cleanup now m).1
      ≡ (if survives now (deadline s.state s) then some s else none)
unfolding cleanup get_session timed_out
cleanup_by_deadline now id s m d h =
    ground
      (arith, lookup-keep (λ _ q. not (is_closed q.state || timed_out now q)) id m.sessions d, h)

abbrev pub says : String → String → Notice → Bool
says id reason n = (n.session_id == id) && (n.reason == reason)

says-ending :
    (now : ℕ) (id : String) (s : Session) (m : Dict String Session)
    → lookup id m ≡ some s
    → timed_out now s ≡ true
    → any (says s.session_id "inactivity-timeout") (
        map
          (λ e.
            let q : Session = record (e.1) { state = closed } in notice (timeout_reason q) (e.0, q))
          (ending (timed_out now) m))
      ≡ true
unfolding lookup ending timeout_reason
says-ending now id s [] h t = cc
says-ending now id s ((j, q) ∷ m) h t =
    ground (arith, says-ending now id s m, beq_self s.session_id)

-- A pending session that times out is reported to its consumer as an inactivity timeout: the
-- reason is read from a state that has been overwritten, so no notice says "pending-timeout".
pub pending_timeout_reported_as_inactivity :
    (now : ℕ) (id : String) (s : Session) (m : Manager)
    → get_session id m ≡ some s
    → s.state ≡ pending
    → s.created_at + pending_timeout < now
    → any (says s.session_id "inactivity-timeout") (cleanup now m).0 ≡ true
unfolding cleanup get_session
pending_timeout_reported_as_inactivity now id s m h p l =
    says-ending now id s m.sessions h (unfold timed_out in ground arith)
