-- ===== src/Ws/Pending/Inv.antt =====
-- pending.go: every pending request owns an empty channel for one response.
use foundryvtt_rest_api_rela.Base.{
  All, Bool-cases, Dict, Distinct, Distinct-delete, Distinct-insert, Distinct-keep, List,
  Option-cases, String, [], arith, beq_self, false, inl, inr, keep, length, length-append, lookup,
  lookup-delete, lookup-insert, lookup-keep, nat_eq, not, refl, some, str_iff, string_eq, true, ℕ,
  ◌<◌, ◌==◌, ◌∙◌, ◌∷◌, ◌≡◌, ◌≢◌, ◌≤◌,
}
use foundryvtt_rest_api_rela.Ws.Pending.{
  WsResponse, PendingRequest, PendingRequests, Chan, try_send, remove, settle, resolve, resolve_raw,
  is_stale, stale_requests, timeout_response, send_timeouts, cleanup_stale, open_request, Call,
  opens, removes, resolves, resolves_raw, cleans, step, run, new_pending,
}

-- Every channel holds one response at most, and has room for it.
abbrev pub Fits : (ℕ → Chan) → Type 0
Fits cs = (ch : ℕ) → ((cs ch).capacity ≤ 1) × (length (cs ch).buffer ≤ (cs ch).capacity)

pub record Inv (p : PendingRequests) : Type 0 where
  pub distinct : Distinct p.requests
  pub allocated :
      (id : String) (r : PendingRequest)
      → lookup id p.requests ≡ some r
      → r.response_ch < p.next_channel
  pub waiting :
      (id : String) (r : PendingRequest)
      → lookup id p.requests ≡ some r
      → p.channels r.response_ch ≡ record { capacity = 1; buffer = [] }
  pub exclusive :
      (id id' : String) (r r' : PendingRequest)
      → lookup id p.requests ≡ some r
      → lookup id' p.requests ≡ some r'
      → r.response_ch ≡ r'.response_ch
      → id ≡ id'
  pub fits : Fits p.channels

pub try_send_other :
    (ch : ℕ) (resp : WsResponse) (cs : ℕ → Chan) (other : ℕ)
    → ch ≢ other
    → try_send ch resp cs other ≡ cs other
unfolding try_send
try_send_other ch resp cs other h = ground arith

try_send-Fits : (ch : ℕ) (resp : WsResponse) (cs : ℕ → Chan) → Fits cs → Fits (try_send ch resp cs)
unfolding try_send
try_send-Fits ch resp cs h other =
    ground (arith, h ch, h other, length-append (cs ch).buffer (resp ∷ []))

send_timeouts-Fits :
    (rs : List PendingRequest) (cs : ℕ → Chan) → Fits cs → Fits (send_timeouts rs cs)
unfolding send_timeouts
send_timeouts-Fits [] cs h = h
send_timeouts-Fits (r ∷ rs) cs h =
    send_timeouts-Fits rs _ (try_send-Fits r.response_ch timeout_response cs h)

pub send_timeouts_other :
    (rs : List PendingRequest) (cs : ℕ → Chan) (ch : ℕ)
    → All (λ r. r.response_ch ≢ ch) rs
    → send_timeouts rs cs ch ≡ cs ch
unfolding send_timeouts
send_timeouts_other [] cs ch h = refl
send_timeouts_other (r ∷ rs) cs ch (h, hs) =
    send_timeouts_other rs _ ch hs ∙ try_send_other r.response_ch timeout_response cs ch h

-- What holds of every stale entry holds of the list that CleanupStale collects.
pub stale_requests-All :
    (P : PendingRequest → Type 0) (now max_age : ℕ) (m : Dict String PendingRequest)
    → Distinct m
    → ((id : String) (r : PendingRequest)
        → lookup id m ≡ some r
        → is_stale now max_age r ≡ true
        → P r)
    → All P (stale_requests now max_age m)
unfolding stale_requests lookup
stale_requests-All P now max_age [] d h = tt
stale_requests-All P now max_age ((id, r) ∷ m) d h =
    let rest = stale_requests-All P now max_age m d.1 (λ k q e. h k q (rw (older k q e) e)) in
    elim (Bool-cases (is_stale now max_age r)) [
      | inl stale ↦ rw stale (h id r (rw (beq_self id)) stale, rest)
      | inr fresh ↦ rw fresh rest
    ]
  where
    older : (k : String) (q : PendingRequest) → lookup k m ≡ some q → (id == k) ≡ false
    older k q e = ground (arith, str_iff id k, d.0)

open_request-Inv :
    (id kind client_id : String) (now max_age : ℕ) (p : PendingRequests)
    → Inv p
    → Inv (open_request id kind client_id now max_age p)
unfolding open_request
open_request-Inv id kind client_id now max_age p v = record {
  distinct = Distinct-insert id req p.requests v.distinct;
  allocated = λ k r e. ground (arith, lookup-insert id k req p.requests, v.allocated k r);
  waiting =
      λ k r e. ground (arith, lookup-insert id k req p.requests, v.waiting k r, v.allocated k r);
  exclusive = λ j k q r e f c. ground (
    arith,
    str_iff id j,
    str_iff id k,
    lookup-insert id j req p.requests,
    lookup-insert id k req p.requests,
    v.exclusive j k q r,
    v.allocated j q,
    v.allocated k r,
  );
  fits = λ ch. ground (arith, v.fits ch);
}
  where
    req : PendingRequest
    req = record {
      response_ch = p.next_channel;
      kind = kind;
      client_id = client_id;
      timestamp = now;
      max_age = max_age;
    }

remove-Inv : (id : String) (p : PendingRequests) → Inv p → Inv (remove id p)
unfolding remove
remove-Inv id p v = record {
  distinct = Distinct-delete id p.requests v.distinct;
  allocated = λ k r e. ground (arith, lookup-delete id k p.requests, v.allocated k r);
  waiting = λ k r e. ground (arith, lookup-delete id k p.requests, v.waiting k r);
  exclusive = λ j k q r e f c.
      ground
        (arith, lookup-delete id j p.requests, lookup-delete id k p.requests, v.exclusive j k q r);
  fits = v.fits;
}

settle-Inv :
    (id : String) (resp : WsResponse) (p : PendingRequests) → Inv p → Inv (settle id resp p)
unfolding settle
settle-Inv id resp p v = elim (Option-cases (lookup id p.requests)) [
  | inl missing ↦ rw (missing, settle) v
  | inr (req, found) ↦
      rw (found, settle)
        (record {
          distinct = Distinct-delete id p.requests v.distinct;
          allocated = λ k r e. ground (arith, lookup-delete id k p.requests, v.allocated k r);
          waiting = λ k r e. ground (
            arith,
            str_iff id k,
            lookup-delete id k p.requests,
            v.waiting k r,
            v.exclusive id k req r found,
            try_send_other req.response_ch resp p.channels r.response_ch,
          );
          exclusive = λ j k q r e f c. ground (
            arith,
            lookup-delete id j p.requests,
            lookup-delete id k p.requests,
            v.exclusive j k q r,
          );
          fits = try_send-Fits req.response_ch resp p.channels v.fits;
        })
]

cleanup_stale-Inv :
    (now max_age : ℕ) (p : PendingRequests) → Inv p → Inv (cleanup_stale now max_age p)
unfolding cleanup_stale
cleanup_stale-Inv now max_age p v = record {
  distinct = Distinct-keep _ p.requests v.distinct;
  allocated = λ k r e. ground (arith, was k r e, v.allocated k r);
  waiting = λ k r e.
      send_timeouts_other _ p.channels r.response_ch (
        stale_requests-All _ now max_age p.requests v.distinct
          (λ j q f s c. ground (arith, was k r e, v.exclusive j k q r f, c, s)))
      ∙ v.waiting k r (was k r e).0;
  exclusive = λ j k q r e f c. v.exclusive j k q r (was j q e).0 (was k r f).0 c;
  fits = send_timeouts-Fits _ p.channels v.fits;
}
  where
    was :
        (k : String) (r : PendingRequest)
        → lookup k (keep (λ id req. not (is_stale now max_age req)) p.requests) ≡ some r
        → (lookup k p.requests ≡ some r) × (is_stale now max_age r ≡ false)
    was k r e =
        ground
          (arith, lookup-keep (λ id req. not (is_stale now max_age req)) k p.requests v.distinct, e)

-- Each call of the tracker keeps: ids stand once, every pending request owns an allocated channel
-- of its own with room for one response and none in it, and no channel holds more than one.
pub step-Inv : (c : Call) (p : PendingRequests) → Inv p → Inv (step c p)
unfolding step resolve resolve_raw
step-Inv (opens id kind client_id now max_age) p v =
    open_request-Inv id kind client_id now max_age p v
step-Inv (removes id) p v = remove-Inv id p v
step-Inv (resolves id code body) p v = settle-Inv id _ p v
step-Inv (resolves_raw id code raw) p v = settle-Inv id _ p v
step-Inv (cleans now max_age) p v = cleanup_stale-Inv now max_age p v

run-Inv : (cs : List Call) (p : PendingRequests) → Inv p → Inv (run cs p)
unfolding run
run-Inv [] p v = v
run-Inv (c ∷ cs) p v = run-Inv cs (step c p) (step-Inv c p v)

pub new_pending-Inv : Inv new_pending
unfolding new_pending lookup
new_pending-Inv = record {
  distinct = tt;
  allocated = λ id r e. cc;
  waiting = λ id r e. cc;
  exclusive = λ j k q r e. cc;
  fits = λ ch. omega arith;
}

-- After any sequence of calls on a new tracker, ids stand once, every pending request owns an
-- allocated channel of its own with room for one response and none in it, and no channel holds
-- more than one response.
pub run-new_pending-Inv : (cs : List Call) → Inv (run cs new_pending)
run-new_pending-Inv cs = run-Inv cs new_pending new_pending-Inv
