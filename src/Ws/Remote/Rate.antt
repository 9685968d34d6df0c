-- ===== src/Ws/Remote/Rate.antt =====
-- remote_request.go: the hourly limit of one world's remote requests.
use foundryvtt_rest_api_rela.Base.{
  Bool, Dict, List, [], false, if◌then◌else◌, insert, leb, lookup, ltb, nat_eq, none, some,
  string_eq, suc, true, ℕ, ◌+◌, ◌∷◌,
}

pub record RateBucket : Type 0 where
  pub count : ℕ
  pub window_start : ℕ

abbrev pub RateBuckets : Type 0
RateBuckets = Dict ℕ RateBucket

abbrev pub hour : ℕ
hour = 3600000000000

abbrev pub fresh_bucket : ℕ → RateBucket
fresh_bucket now = record { count = 1; window_start = now }

unfoldable pub check_remote_request_rate : ℕ → ℕ → ℕ → RateBuckets → Bool × RateBuckets
check_remote_request_rate token_id limit now buckets = elim (lookup token_id buckets) [
  | none ↦ (true, insert token_id (fresh_bucket now) buckets)
  | some b ↦
      if ltb (b.window_start + hour) now
      then (true, insert token_id (fresh_bucket now) buckets)
      else if leb limit b.count
      then (false, buckets)
      else (true, insert token_id (record b { count = b.count + 1 }) buckets)
]

-- The checks of one world at the given instants: how many are allowed.
unfoldable pub burst : ℕ → ℕ → List ℕ → RateBuckets → ℕ × RateBuckets
burst token_id limit [] buckets = (0, buckets)
burst token_id limit (now ∷ later) buckets =
    let (allowed, buckets') = check_remote_request_rate token_id limit now buckets in
    let (n, buckets'') = burst token_id limit later buckets' in
    (if allowed then suc n else n, buckets'')
