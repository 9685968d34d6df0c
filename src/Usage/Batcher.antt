-- ===== src/Usage/Batcher.antt =====
-- go-relay/internal/service/notification_batcher.go: one summary for the remote requests of some
-- minutes. The lock makes each method one step; a timer is the instant at which it fires. The text
-- of a summary is not modelled: `dispatched` holds what it is made of.
use foundryvtt_rest_api_rela.Base.{
  Bool, Comparable, Dict, List, Option, String, [], arith, delete, eqb, eqb_iff, false,
  if◌then◌else◌, insert, lookup, ltb, nat_eq, none, raise, some, str_iff, string_eq, true, ℕ, ◌&&◌,
  ◌*◌, ◌++◌, ◌+◌, ◌==◌, ◌↔◌, ◌∷◌, ◌≡◌,
}

pub record BatchKey : Type 0 where
  pub user_id : ℕ
  pub source_token_id : ℕ
  pub target_client : String

abbrev pub same_key : BatchKey → BatchKey → Bool
same_key a b =
    eqb a.user_id b.user_id
    && eqb a.source_token_id b.source_token_id
    && (a.target_client == b.target_client)

pub same_key_iff : (a b : BatchKey) → (same_key a b ≡ true) ↔ (a ≡ b)
same_key_iff a b = ground (
  arith,
  eqb_iff a.user_id b.user_id,
  eqb_iff a.source_token_id b.source_token_id,
  str_iff a.target_client b.target_client,
)

instance abbrev pub key_eq : Comparable BatchKey
key_eq = record { equals = same_key; equals_iff = same_key_iff }

pub record BatchEntry : Type 0 where
  pub scope_counts : Dict String ℕ
  pub fail_count : ℕ
  pub total_count : ℕ
  pub first_at : ℕ
  pub last_at : ℕ
  pub timer : ℕ
  pub token_name : String

-- `closed` says whether the channel `done` is.
pub record RemoteRequestBatcher : Type 0 where
  pub pending : Dict BatchKey BatchEntry
  pub window : ℕ
  pub user_window : Dict ℕ ℕ
  pub closed : Bool
  pub dispatched : List (BatchKey × BatchEntry)

abbrev five_minutes : ℕ
five_minutes = 5 * 60 * 1000000000

-- A window below 0 acts as 0.
unfoldable pub new_remote_request_batcher : ℕ → RemoteRequestBatcher
new_remote_request_batcher window = record {
  pending = [];
  window = if eqb window 0 then five_minutes else window;
  user_window = [];
  closed = false;
  dispatched = [];
}

unfoldable pub set_user_window : ℕ → ℕ → RemoteRequestBatcher → RemoteRequestBatcher
set_user_window user_id d b = record b {
  user_window = if eqb d 0 then delete user_id b.user_window else insert user_id d b.user_window;
}

abbrev window_or : ℕ → Option ℕ → ℕ
window_or window none = window
window_or window (some d) = if ltb 0 d then d else window

unfoldable pub new_entry : BatchKey → String → ℕ → RemoteRequestBatcher → BatchEntry
new_entry key token_name now b = record {
  scope_counts = [];
  fail_count = 0;
  total_count = 0;
  first_at = now;
  last_at = 0;
  timer = now + window_or b.window (lookup key.user_id b.user_window);
  token_name = token_name;
}

abbrev pub entry_or : BatchEntry → Option BatchEntry → BatchEntry
entry_or new none = new
entry_or new (some e) = e

abbrev pub raised : String → Bool → ℕ → BatchEntry → BatchEntry
raised action success now e = record e {
  scope_counts = raise ⦃e = string_eq⦄ action e.scope_counts;
  total_count = e.total_count + 1;
  fail_count = if success then e.fail_count else e.fail_count + 1;
  last_at = now;
}

unfoldable pub add_event :
    BatchKey → String → String → Bool → ℕ → RemoteRequestBatcher → RemoteRequestBatcher
unfolding new_entry
add_event key action token_name success now b = record b {
  pending =
      insert key
        (raised action success now
          (entry_or (new_entry key token_name now b) (lookup key b.pending)))
        b.pending;
}

unfoldable pub flush_batch : BatchKey → RemoteRequestBatcher → RemoteRequestBatcher
flush_batch key b = elim (lookup key b.pending) [
  | none ↦ b
  | some e ↦ record b { pending = delete key b.pending; dispatched = b.dispatched ++ (key, e) ∷ [] }
]

abbrev pub keys : Dict BatchKey BatchEntry → List BatchKey
keys [] = []
keys ((k, e) ∷ m) = k ∷ keys m

unfoldable pub flush_each : List BatchKey → RemoteRequestBatcher → RemoteRequestBatcher
flush_each [] b = b
flush_each (k ∷ ks) b = flush_each ks (flush_batch k b)

-- `none` is the panic of closing `done` twice.
unfoldable pub shutdown : RemoteRequestBatcher → Option RemoteRequestBatcher
unfolding flush_each
shutdown b =
    if b.closed then none else some (flush_each (keys b.pending) (record b { closed = true }))
