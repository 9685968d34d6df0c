-- ===== src/Ws/Pending/Laws.antt =====
-- pending.go: what Resolve does to the request, to its channel and to everything else.
use foundryvtt_rest_api_rela.Base.{
  List, Object, Option, String, [], arith, beq_self, eqb, if◌then◌else◌, length-delete, lookup,
  lookup-delete, nat_eq, none, some, string_eq, ℕ, ◌+◌, ◌==◌, ◌∷◌, ◌≡◌,
}
use foundryvtt_rest_api_rela.Ws.Pending.{
  WsResponse, PendingRequest, PendingRequests, try_send, load, count, settle, resolve, resolve_raw,
}
use foundryvtt_rest_api_rela.Ws.Pending.Inv.{Inv}

settle_missing :
    (id : String) (resp : WsResponse) (p : PendingRequests)
    → lookup id p.requests ≡ none
    → settle id resp p ≡ p
unfolding settle
settle_missing id resp p h = rw (h, settle)

settle_delivers :
    (id j : String) (ch : ℕ) (w : WsResponse) (p : PendingRequests) (r : PendingRequest)
    → Inv p
    → load id p ≡ some r
    → let q = settle id w p in
      (load j q ≡ (if id == j then none else load j p))
      × ((q.channels ch).buffer ≡ (if eqb r.response_ch ch then w ∷ [] else (p.channels ch).buffer))
unfolding load settle try_send
settle_delivers id j ch w p r v h =
    (ground (arith, h, lookup-delete id j p.requests), ground (arith, h, v.waiting id r h))

-- Resolving a pending id takes that request out, puts exactly this response into its channel, and
-- leaves every other pending request and every other channel as they were.
pub resolve_delivers :
    (id j : String) (code ch : ℕ) (body : Option Object) (p : PendingRequests) (r : PendingRequest)
    → Inv p
    → load id p ≡ some r
    → let q = resolve id code body p in
      (load j q ≡ (if id == j then none else load j p))
      × ((q.channels ch).buffer ≡ (
          if eqb r.response_ch ch
          then record { status_code = code; body = body; raw_data = none } ∷ []
          else (p.channels ch).buffer))
unfolding resolve
resolve_delivers id j code ch body p r v h = settle_delivers id j ch _ p r v h

-- The same of an answer that is passed on as it came.
pub resolve_raw_delivers :
    (id j : String) (code ch : ℕ) (raw : List ℕ) (p : PendingRequests) (r : PendingRequest)
    → Inv p
    → load id p ≡ some r
    → let q = resolve_raw id code raw p in
      (load j q ≡ (if id == j then none else load j p))
      × ((q.channels ch).buffer ≡ (
          if eqb r.response_ch ch
          then record { status_code = code; body = none; raw_data = some raw } ∷ []
          else (p.channels ch).buffer))
unfolding resolve_raw
resolve_raw_delivers id j code ch raw p r v h = settle_delivers id j ch _ p r v h

-- A second response for one request id changes nothing: no channel, no pending request.
pub resolve_once :
    (id : String) (code code' : ℕ) (body : Option Object) (raw : List ℕ) (p : PendingRequests)
    → (resolve id code body (resolve_raw id code' raw p) ≡ resolve_raw id code' raw p)
      × (resolve_raw id code' raw (resolve id code body p) ≡ resolve id code body p)
unfolding resolve resolve_raw
resolve_once id code code' body raw p =
    (settle_missing id _ _ (gone id _ p), settle_missing id _ _ (gone id _ p))
  where
    gone :
        (id : String) (resp : WsResponse) (p : PendingRequests)
        → lookup id (settle id resp p).requests ≡ none
    gone id resp p = ground (arith, lookup-delete id id p.requests, beq_self id)

-- Resolve leaves the pending-request metric behind: while it agreed with the number of pending
-- requests, it is one too high after a pending request has been resolved.
pub resolve_gauge_lags :
    (id : String) (code : ℕ) (body : Option Object) (p : PendingRequests) (r : PendingRequest)
    → Inv p
    → load id p ≡ some r
    → p.gauge ≡ count p
    → (resolve id code body p).gauge ≡ count (resolve id code body p) + 1
unfolding resolve load settle count
resolve_gauge_lags id code body p r v h g =
    ground (arith, h, length-delete id r p.requests v.distinct h)
