-- ===== src/Metrics/Ring.antt =====
-- rolling.go: one ring of buckets with its cursor. A ring of `size` buckets is an array, read below
-- `size`; `last` is the unit (minute, hour or day) of the cursor, counted from the zero time.
use foundryvtt_rest_api_rela.Base.{if◌then◌else◌, leb, min, suc, update, zero, ℕ, ◌%◌, ◌+◌, ◌-◌}

pub record Ring : Type 0 where
  pub buckets : ℕ → ℕ
  pub index : ℕ
  pub last : ℕ

unfoldable pub new_ring : ℕ → Ring
new_ring last = record { buckets = λ _. 0; index = 0; last = last }

-- `(idx + 1) % size`, and that bucket cleared.
unfoldable pub next_bucket : ℕ → Ring → Ring
next_bucket size r = record r {
  buckets = update r.buckets ((r.index + 1) % size) 0;
  index = (r.index + 1) % size;
}

-- `for i := 0; i < elapsed && i < size; i++`: the number of rounds is the smaller of the two.
unfoldable pub roll : ℕ → ℕ → Ring → Ring
roll size zero r = r
roll size (suc n) r = roll size n (next_bucket size r)

-- One of the three parts of `advance`, with `current` the unit of the clock.
unfoldable pub advance : ℕ → ℕ → Ring → Ring
advance size current r =
    if leb current r.last
    then r
    else let rolled = roll size (min (current - r.last) size) r in
      record rolled {
        buckets = if leb size (current - r.last) then (λ _. 0) else rolled.buckets;
        last = current;
      }

-- `advance`, and the bucket of the cursor raised.
unfoldable pub count_request : ℕ → ℕ → Ring → Ring
unfolding advance
count_request size current r =
    let r' = advance size current r in
    record r' { buckets = update r'.buckets r'.index (r'.buckets r'.index + 1) }

-- The sum over the first `size` buckets.
unfoldable pub sum : ℕ → (ℕ → ℕ) → ℕ
sum zero b = 0
sum (suc n) b = sum n b + b n
