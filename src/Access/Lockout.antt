-- ===== src/Access/Lockout.antt =====
-- middleware/admin_ratelimit.go: AdminLockoutTracker. The tracker is never nil; the lock makes each
-- method one step. `to_lower` is strings.ToLower, and `now` the clock when the method reads it.
use foundryvtt_rest_api_rela.Base.{
  Bool, Dict, List, Option, String, [], delete, eqb, false, if◌then◌else◌, insert, keep, leb,
  lookup, ltb, nat_eq, none, not, some, string_eq, true, ℕ, ◌+◌, ◌∷◌,
}

-- `locked_until` is `none` where Go has the zero time.
pub record LockoutState : Type 0 where
  pub failures : ℕ
  pub locked_until : Option ℕ

-- A threshold below 0 acts as 0.
pub record AdminLockoutTracker : Type 0 where
  pub state : Dict String LockoutState
  pub threshold : ℕ
  pub lock_window : ℕ

unfoldable pub new_admin_lockout_tracker : ℕ → ℕ → AdminLockoutTracker
new_admin_lockout_tracker threshold lock_window = record {
  state = [];
  threshold = threshold;
  lock_window = lock_window;
}

abbrev pub is_before : ℕ → Option ℕ → Bool
is_before now none = false
is_before now (some t) = ltb now t

abbrev pub is_after : ℕ → Option ℕ → Bool
is_after now none = false
is_after now (some t) = ltb t now

abbrev pub state_or_new : Option LockoutState → LockoutState
state_or_new none = record { failures = 0; locked_until = none }
state_or_new (some st) = st

-- One failure more, and a lock from the threshold on.
abbrev pub failed_again : ℕ → AdminLockoutTracker → LockoutState → LockoutState
failed_again now t st =
    if leb t.threshold (st.failures + 1)
    then record { failures = st.failures + 1; locked_until = some (now + t.lock_window) }
    else record st { failures = st.failures + 1 }

module _ (to_lower : String → String) where
  -- A lock that has passed is forgotten.
  unfoldable pub is_locked : String → ℕ → AdminLockoutTracker → Bool × AdminLockoutTracker
  is_locked email now t =
      if eqb t.threshold 0 then (false, t) else elim (lookup (to_lower email) t.state) [
        | none ↦ (false, t)
        | some st ↦
            if is_before now st.locked_until
            then (true, t)
            else if is_after now st.locked_until
            then (false, record t { state = delete (to_lower email) t.state })
            else (false, t)
      ]

  unfoldable pub record_failure : String → ℕ → AdminLockoutTracker → AdminLockoutTracker
  record_failure email now t = if eqb t.threshold 0 then t else record t {
    state =
        insert (to_lower email)
          (failed_again now t (state_or_new (lookup (to_lower email) t.state))) t.state;
  }

  unfoldable pub record_success : String → AdminLockoutTracker → AdminLockoutTracker
  record_success email t = record t { state = delete (to_lower email) t.state }

  unfoldable pub locked_until_of : String → AdminLockoutTracker → Option ℕ
  locked_until_of email t = elim (lookup (to_lower email) t.state) [
    | none ↦ none
    | some st ↦ st.locked_until
  ]

  -- Failures of one account at the given instants.
  unfoldable pub fail_at : String → List ℕ → AdminLockoutTracker → AdminLockoutTracker
  fail_at email [] t = t
  fail_at email (now ∷ later) t = fail_at email later (record_failure email now t)

-- One round of the cleanup loop.
unfoldable pub cleanup_lockouts : ℕ → AdminLockoutTracker → AdminLockoutTracker
cleanup_lockouts now t = record t {
  state = keep (λ k st. not (is_after now st.locked_until)) t.state;
}
