-- ===== src/Usage/Counter.antt =====
-- go-relay/internal/counter/counter.go: requests counted per user and written to the database in
-- batches. The lock makes Add and the taking of the snapshot one step each; the writes follow it.
use foundryvtt_rest_api_rela.Base.{
  Bool, Dict, List, [], if◌then◌else◌, nat_eq, raise, update, ℕ, ◌+◌, ◌∷◌,
}

-- `rows` is the column of the users that IncrementRequestsBy raises.
pub record RequestCounter : Type 0 where
  pub pending : Dict ℕ ℕ
  pub rows : ℕ → ℕ

unfoldable pub new_counter : (ℕ → ℕ) → RequestCounter
new_counter rows = record { pending = []; rows = rows }

unfoldable pub add : ℕ → RequestCounter → RequestCounter
add user_id c = record c { pending = raise ⦃e = nat_eq⦄ user_id c.pending }

-- The writes of a snapshot. `accepts` says which of them the database takes: another is logged and
-- its count is lost.
unfoldable pub write_all : (ℕ → ℕ → Bool) → Dict ℕ ℕ → (ℕ → ℕ) → ℕ → ℕ
write_all accepts [] rows = rows
write_all accepts ((id, count) ∷ snapshot) rows =
    write_all accepts snapshot (if accepts id count then update rows id (rows id + count) else rows)

unfoldable pub flush : (ℕ → ℕ → Bool) → RequestCounter → RequestCounter
flush accepts c = record { pending = []; rows = write_all accepts c.pending c.rows }

pub data Call : Type 0 where
  adds : ℕ → Call
  flushes : (ℕ → ℕ → Bool) → Call

unfoldable pub run : List Call → RequestCounter → RequestCounter
run [] c = c
run (adds user_id ∷ ks) c = run ks (add user_id c)
run (flushes accepts ∷ ks) c = run ks (flush accepts c)
