-- ===== src/Ws/InteractiveSessions/Limit.antt =====
-- interactive_sessions.go: the number of sessions of one API key.
use foundryvtt_rest_api_rela.Base.{
  Bool, Dict, List, Option-cases, String, [], arith, delete, false, if◌then◌else◌, inl, inr, insert,
  keep, lookup, nat_eq, refl, some, str_iff, string_eq, ℕ, ◌+◌, ◌==◌, ◌∙◌, ◌∷◌, ◌≡◌, ◌≤◌,
}
use foundryvtt_rest_api_rela.Ws.InteractiveSessions.{
  State, pending, active, is_pending, Session, Manager, new_manager, counts_for, count_sessions,
  create_session, write_session, activate_session, update_activity, end_session,
  terminate_sessions_for_client, terminate_sessions_for_consumer, cleanup, Call, creates, activates,
  updates, ends, client_leaves, consumer_leaves, cleans, after, step, run,
}

count-insert-le :
    (k id : String) (s : Session) (m : Dict String Session)
    → count_sessions k (insert id s m) ≤ count_sessions k m + 1
unfolding count_sessions insert
count-insert-le k id s [] = ground arith
count-insert-le k id s ((j, q) ∷ m) = ground (arith, count-insert-le k id s m)

count-insert_like :
    (k id : String) (s s' : Session) (m : Dict String Session)
    → lookup id m ≡ some s
    → counts_for k s' ≡ counts_for k s
    → count_sessions k (insert id s' m) ≡ count_sessions k m
unfolding count_sessions insert lookup
count-insert_like k id s s' [] h e = cc
count-insert_like k id s s' ((j, q) ∷ m) h e = ground (arith, e, count-insert_like k id s s' m)

count-insert_else :
    (k id : String) (s : Session) (m : Dict String Session)
    → counts_for k s ≡ false
    → count_sessions k (insert id s m) ≤ count_sessions k m
unfolding count_sessions insert
count-insert_else k id s [] e = ground (arith, e)
count-insert_else k id s ((j, q) ∷ m) e = ground (arith, e, count-insert_else k id s m)

count-delete-le :
    (k id : String) (m : Dict String Session) → count_sessions k (delete id m) ≤ count_sessions k m
unfolding count_sessions delete
count-delete-le k id [] = omega arith
count-delete-le k id ((j, q) ∷ m) = ground (arith, count-delete-le k id m)

count-keep-le :
    (k : String) (p : String → Session → Bool) (m : Dict String Session)
    → count_sessions k (keep p m) ≤ count_sessions k m
unfolding count_sessions keep
count-keep-le k p [] = omega arith
count-keep-le k p ((j, q) ∷ m) = ground (arith, count-keep-le k p m)

-- No API key has more open sessions than the limit.
abbrev pub IsLimited : Manager → Type 0
IsLimited m = (k : String) → count_sessions k m.sessions ≤ m.max_per_key

create_session-IsLimited :
    (id client_id api_key consumer_id : String) (now : ℕ) (m : Manager)
    → IsLimited m
    → IsLimited (after m (create_session id client_id api_key consumer_id now m))
unfolding create_session
create_session-IsLimited id client_id api_key consumer_id now m v k = ground (
  arith,
  v k,
  str_iff api_key k,
  count-insert-le k id session m.sessions,
  count-insert_else k id session m.sessions,
)
  where
    session : Session
    session = record {
      session_id = id;
      client_id = client_id;
      api_key = api_key;
      consumer_id = consumer_id;
      state = pending;
      created_at = now;
      last_activity = now;
    }

-- A write through the map's pointer that keeps the API key and does not reopen or close.
write_session-IsLimited :
    (id : String) (f : Session → Session) (m : Manager)
    → ((k : String) (s : Session) → counts_for k (f s) ≡ counts_for k s)
    → IsLimited m
    → IsLimited (write_session id f m)
unfolding write_session
write_session-IsLimited id f m same v k = elim (Option-cases (lookup id m.sessions)) [
  | inl missing ↦ rw (missing, write_session) (v k)
  | inr (s, found) ↦
      rw (found, write_session)
        (omega (arith, v k, count-insert_like k id s (f s) m.sessions found (same k s)))
]

step-IsLimited : (c : Call) (m : Manager) → IsLimited m → IsLimited (step c m)
unfolding step activate_session update_activity end_session terminate_sessions_for_client
    terminate_sessions_for_consumer cleanup
step-IsLimited (creates id client_id api_key consumer_id now) m v k =
    create_session-IsLimited id client_id api_key consumer_id now m v k
step-IsLimited (activates id now) m v k =
    write_session-IsLimited id _ m (λ j s. activated j s s.state refl) v k
  where
    activated :
        (j : String) (s : Session) (t : State)
        → s.state ≡ t
        → counts_for j
            (if is_pending s.state then record s { state = active; last_activity = now } else s)
          ≡ counts_for j s
    activated j s t e = ground (arith, e)
step-IsLimited (updates id now) m v k = write_session-IsLimited id _ m (λ j s. refl) v k
step-IsLimited (ends id) m v k = ground (arith, v k, count-delete-le k id m.sessions)
step-IsLimited (client_leaves client_id) m v k = omega (arith, v k, count-keep-le k _ m.sessions)
step-IsLimited (consumer_leaves consumer_id) m v k =
    omega (arith, v k, count-keep-le k _ m.sessions)
step-IsLimited (cleans now) m v k = omega (arith, v k, count-keep-le k _ m.sessions)

step-max_per_key : (c : Call) (m : Manager) → (step c m).max_per_key ≡ m.max_per_key
unfolding step create_session activate_session update_activity end_session
    terminate_sessions_for_client terminate_sessions_for_consumer cleanup
step-max_per_key (creates id client_id api_key consumer_id now) m = ground arith
step-max_per_key (activates id now) m = ground arith
step-max_per_key (updates id now) m = ground arith
step-max_per_key (ends id) m = ground arith
step-max_per_key _ m = refl

run-IsLimited :
    (cs : List Call) (m : Manager)
    → IsLimited m
    → IsLimited (run cs m) × ((run cs m).max_per_key ≡ m.max_per_key)
unfolding run
run-IsLimited [] m v = (v, refl)
run-IsLimited (c ∷ cs) m v =
    let (v', e) = run-IsLimited cs (step c m) (step-IsLimited c m v) in
    (v', e ∙ step-max_per_key c m)

-- Whatever calls a new manager has seen, no API key has more open sessions than the limit that the
-- manager was made with, where a limit of 0 stands for 3.
pub open_sessions_bounded :
    (limit : ℕ) (cs : List Call) (api_key : String)
    → count_sessions api_key (run cs (new_manager limit)).sessions
      ≤ (if limit == 0 then 3 else limit)
unfolding new_manager count_sessions
open_sessions_bounded limit cs api_key =
    let (v, e) = run-IsLimited cs (new_manager limit) (λ k. omega arith) in
    omega (arith, v api_key, e)
