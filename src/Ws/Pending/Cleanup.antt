-- ===== src/Ws/Pending/Cleanup.antt =====
-- pending.go, CleanupStale: who is timed out, and what a timed-out handler receives.
use foundryvtt_rest_api_rela.Base.{
  Bool-cases, Dict, List, String, [], arith, eqb, if◌then◌else◌, inl, inr, lookup, lookup-keep, ltb,
  nat_eq, none, not, some, string_eq, true, ℕ, ◌+◌, ◌∙◌, ◌∷◌, ◌≡◌,
}
use foundryvtt_rest_api_rela.Ws.Pending.{
  WsResponse, PendingRequest, PendingRequests, Chan, try_send, load, is_stale, stale_requests,
  timeout_response, send_timeouts, cleanup_stale,
}
use foundryvtt_rest_api_rela.Ws.Pending.Inv.{
  Inv, try_send_other, send_timeouts_other, stale_requests-All,
}

send_timeouts_full :
    (rs : List PendingRequest) (cs : ℕ → Chan) (ch : ℕ) (x : WsResponse)
    → cs ch ≡ record { capacity = 1; buffer = x ∷ [] }
    → send_timeouts rs cs ch ≡ record { capacity = 1; buffer = x ∷ [] }
unfolding send_timeouts try_send
send_timeouts_full [] cs ch x h = h
send_timeouts_full (r ∷ rs) cs ch x h =
    send_timeouts_full rs (try_send r.response_ch timeout_response cs) ch x (ground (arith, h))

send_timeouts_reaches :
    (now max_age : ℕ) (m : Dict String PendingRequest) (cs : ℕ → Chan) (id : String)
    (r : PendingRequest)
    → lookup id m ≡ some r
    → is_stale now max_age r ≡ true
    → cs r.response_ch ≡ record { capacity = 1; buffer = [] }
    → send_timeouts (stale_requests now max_age m) cs r.response_ch
      ≡ record { capacity = 1; buffer = timeout_response ∷ [] }
unfolding stale_requests send_timeouts lookup try_send
send_timeouts_reaches now max_age [] cs id r h s e = cc
send_timeouts_reaches now max_age ((k, q) ∷ m) cs id r h s e =
    elim (Bool-cases (is_stale now max_age q)) [
      | inl stale ↦ rw stale (elim (Bool-cases (eqb q.response_ch r.response_ch)) [
        | inl same ↦
            send_timeouts_full (stale_requests now max_age m)
              (try_send q.response_ch timeout_response cs) r.response_ch timeout_response
              (ground arith)
        | inr other ↦
            send_timeouts_reaches now max_age m (try_send q.response_ch timeout_response cs) id r
              (ground arith) s
              (ground (arith, try_send_other q.response_ch timeout_response cs r.response_ch))
      ])
      | inr fresh ↦ rw fresh (send_timeouts_reaches now max_age m cs id r (ground arith) s e)
    ]

-- `limit` is the age after which a request is timed out: its own, or else the default.
abbrev pub limit : ℕ → PendingRequest → ℕ
limit default r = if ltb 0 r.max_age then r.max_age else default

-- A pending request older than its limit is taken out, and its handler finds exactly a 408 in its
-- channel; one that is not older stays pending, with its channel untouched.
pub cleanup_stale_answers :
    (now default : ℕ) (id : String) (r : PendingRequest) (p : PendingRequests)
    → Inv p
    → load id p ≡ some r
    → let q = cleanup_stale now default p in
      let expired = ltb (r.timestamp + limit default r) now in
      (load id q ≡ (if expired then none else some r))
      × (q.channels r.response_ch
          ≡ record { capacity = 1; buffer = if expired then timeout_response ∷ [] else [] })
unfolding cleanup_stale load is_stale
cleanup_stale_answers now default id r p v h = (
  ground (arith, h, lookup-keep (λ k q. not (is_stale now default q)) id p.requests v.distinct),
  elim (Bool-cases (is_stale now default r)) [
    | inl stale ↦
        rw stale
          (send_timeouts_reaches now default p.requests p.channels id r h stale (v.waiting id r h))
    | inr fresh ↦ rw fresh (
        send_timeouts_other _ p.channels r.response_ch (
          stale_requests-All _ now default p.requests v.distinct
            (λ j q f s c. ground (arith, v.exclusive j id q r f h c, f, h, s)))
        ∙ v.waiting id r h)
  ],
)
