-- ===== src/Ws/Remote/RateLaws.antt =====
-- remote_request.go: how many requests an hour's window lets through.
use foundryvtt_rest_api_rela.Base.{
  All, Bool, Bool-cases, List, [], arith, eqb_iff, false, if◌then◌else◌, inl, inr, insert, leb,
  length, lookup, lookup-insert, min, nat_eq, none, refl, some, string_eq, suc, true, ℕ, ◌+◌, ◌-◌,
  ◌<◌, ◌∷◌, ◌≡◌, ◌≤◌,
}
use foundryvtt_rest_api_rela.Ws.Remote.Rate.{
  RateBucket, RateBuckets, hour, fresh_bucket, check_remote_request_rate, burst,
}

-- A check that passes, or does not, at the head of a burst.
burst_step :
    (token_id limit t : ℕ) (ts : List ℕ) (allowed : Bool) (buckets after : RateBuckets)
    → check_remote_request_rate token_id limit t buckets ≡ (allowed, after)
    → (burst token_id limit (t ∷ ts) buckets).0 ≡ (
        if allowed
        then suc (burst token_id limit ts after).0
        else (burst token_id limit ts after).0)
unfolding burst
burst_step token_id limit t ts allowed buckets after e = rw e refl

abbrev counted : RateBucket → RateBucket
counted b = record b { count = b.count + 1 }

check_open :
    (token_id limit t : ℕ) (b : RateBucket) (buckets : RateBuckets)
    → lookup token_id buckets ≡ some b
    → t ≤ b.window_start + hour
    → b.count < limit
    → check_remote_request_rate token_id limit t buckets
      ≡ (true, insert token_id (counted b) buckets)
unfolding check_remote_request_rate
check_open token_id limit t b buckets h w free =
    rw (h, check_remote_request_rate) (ground (arith, w, free))

check_full :
    (token_id limit t : ℕ) (b : RateBucket) (buckets : RateBuckets)
    → lookup token_id buckets ≡ some b
    → t ≤ b.window_start + hour
    → limit ≤ b.count
    → check_remote_request_rate token_id limit t buckets ≡ (false, buckets)
unfolding check_remote_request_rate
check_full token_id limit t b buckets h w full =
    rw (h, check_remote_request_rate) (ground (arith, w, full))

check_first :
    (token_id limit t : ℕ) (buckets : RateBuckets)
    → lookup token_id buckets ≡ none
    → check_remote_request_rate token_id limit t buckets
      ≡ (true, insert token_id (fresh_bucket t) buckets)
unfolding check_remote_request_rate
check_first token_id limit t buckets h = rw (h, check_remote_request_rate) refl

lookup-insert_same :
    (token_id : ℕ) (b : RateBucket) (buckets : RateBuckets)
    → lookup token_id (insert token_id b buckets) ≡ some b
lookup-insert_same token_id b buckets =
    ground (arith, lookup-insert token_id token_id b buckets, eqb_iff token_id token_id)

no_burst : (token_id limit : ℕ) (buckets : RateBuckets) → (burst token_id limit [] buckets).0 ≡ 0
unfolding burst
no_burst token_id limit buckets = refl

-- Within the window of a bucket, as many checks pass as the limit leaves.
burst_open :
    (token_id limit : ℕ) (ts : List ℕ) (b : RateBucket) (buckets : RateBuckets)
    → lookup token_id buckets ≡ some b
    → All (λ t. t ≤ b.window_start + hour) ts
    → (burst token_id limit ts buckets).0 ≡ min (length ts) (limit - b.count)
burst_open token_id limit [] b buckets h w = ground (arith, no_burst token_id limit buckets)
burst_open token_id limit (t ∷ ts) b buckets h (w, ws) = elim (Bool-cases (leb limit b.count)) [
  | inl full ↦
      let e = check_full token_id limit t b buckets h w (ground (arith, full)) in
      ground (
        arith,
        full,
        burst_step token_id limit t ts false buckets buckets e,
        burst_open token_id limit ts b buckets h ws,
      )
  | inr free ↦
      let after = insert token_id (counted b) buckets in
      let e = check_open token_id limit t b buckets h w (ground (arith, free)) in
      let same = lookup-insert_same token_id (counted b) buckets in
      ground (
        arith,
        free,
        burst_step token_id limit t ts true buckets after e,
        burst_open token_id limit ts (counted b) after same ws,
      )
]

-- Of the requests that a world makes within an hour of the one that opens a window, exactly as many
-- pass as its limit allows, if it has one.
pub burst_exact :
    (token_id limit now : ℕ) (later : List ℕ) (buckets : RateBuckets)
    → lookup token_id buckets ≡ none
    → 0 < limit
    → All (λ t. t ≤ now + hour) later
    → (burst token_id limit (now ∷ later) buckets).0 ≡ min (suc (length later)) limit
burst_exact token_id limit now later buckets h positive w =
    let after = insert token_id (fresh_bucket now) buckets in
    let same = lookup-insert_same token_id (fresh_bucket now) buckets in
    let e = check_first token_id limit now buckets h in
    ground (
      arith,
      positive,
      burst_step token_id limit now later true buckets after e,
      burst_open token_id limit later (fresh_bucket now) after same w,
    )
