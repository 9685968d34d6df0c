-- ===== src/Ws/Pending.antt =====
-- go-relay/internal/ws/pending.go: requests that wait for a Foundry client's answer. Instants and
-- durations are nanoseconds; the lock makes each method one step; channels are objects on a heap.
pub mod Inv
pub mod Laws
pub mod Cleanup
mod Tests
use foundryvtt_rest_api_rela.Base.{
  Bool, Dict, List, Object, Option, String, [], delete, if◌then◌else◌, insert, keep, length, lookup,
  ltb, nat_eq, none, not, some, string_eq, suc, update, ℕ, ◌++◌, ◌+◌, ◌∷◌,
}
use foundryvtt_rest_api_rela.Base.Json.{Value}

pub record WsResponse : Type 0 where
  pub status_code : ℕ
  pub body : Option Object
  pub raw_data : Option (List ℕ)

-- The fields that the tracker stores and never reads (query, filter, writer, …) are left out.
pub record PendingRequest : Type 0 where
  pub response_ch : ℕ
  pub kind : String
  pub client_id : String
  pub timestamp : ℕ
  pub max_age : ℕ

-- A buffered Go channel.
pub record Chan : Type 0 where
  pub capacity : ℕ
  pub buffer : List WsResponse

pub record PendingRequests : Type 0 where
  pub requests : Dict String PendingRequest
  pub channels : ℕ → Chan
  pub next_channel : ℕ
  pub gauge : ℕ

-- `select { case ch <- resp: default: }`
unfoldable pub try_send : ℕ → WsResponse → (ℕ → Chan) → ℕ → Chan
try_send ch resp channels =
    let c = channels ch in
    if ltb (length c.buffer) c.capacity
    then update channels ch (record c { buffer = c.buffer ++ resp ∷ [] })
    else channels

-- `make(chan *WSResponse, n)`
unfoldable pub make_chan : ℕ → PendingRequests → ℕ × PendingRequests
make_chan n p = (
  p.next_channel,
  record p {
    channels = update p.channels p.next_channel (record { capacity = n; buffer = [] });
    next_channel = suc p.next_channel;
  },
)

unfoldable pub store : String → PendingRequest → PendingRequests → PendingRequests
store id req p =
    let requests' = insert id req p.requests in
    record p { requests = requests'; gauge = length requests' }

unfoldable pub count : PendingRequests → ℕ
count p = length p.requests

unfoldable pub load : String → PendingRequests → Option PendingRequest
load id p = lookup id p.requests

unfoldable pub remove : String → PendingRequests → PendingRequests
remove id p =
    let requests' = delete id p.requests in
    record p { requests = requests'; gauge = length requests' }

-- What Resolve and ResolveRaw share: take the request out, then send without blocking.
settle : String → WsResponse → PendingRequests → PendingRequests
settle id resp p = elim (lookup id p.requests) [
  | none ↦ p
  | some req ↦ record p {
    requests = delete id p.requests;
    channels = try_send req.response_ch resp p.channels;
  }
]

unfoldable pub resolve : String → ℕ → Option Object → PendingRequests → PendingRequests
unfolding settle
resolve id code body p = settle id (record { status_code = code; body = body; raw_data = none }) p

unfoldable pub resolve_raw : String → ℕ → List ℕ → PendingRequests → PendingRequests
unfolding settle
resolve_raw id code raw p =
    settle id (record { status_code = code; body = none; raw_data = some raw }) p

-- `req.Timestamp.Before(now.Add(-age))`, with the request's own age limit first.
unfoldable pub is_stale : ℕ → ℕ → PendingRequest → Bool
is_stale now max_age req =
    let age = if ltb 0 req.max_age then req.max_age else max_age in ltb (req.timestamp + age) now

unfoldable pub stale_requests : ℕ → ℕ → Dict String PendingRequest → List PendingRequest
stale_requests now max_age [] = []
stale_requests now max_age ((id, req) ∷ m) =
    let rest = stale_requests now max_age m in if is_stale now max_age req then req ∷ rest else rest

abbrev pub timeout_response : WsResponse
timeout_response = record {
  status_code = 408;
  body = some (("error", Value.str "request timeout") ∷ []);
  raw_data = none;
}

unfoldable pub send_timeouts : List PendingRequest → (ℕ → Chan) → ℕ → Chan
send_timeouts [] channels = channels
send_timeouts (req ∷ rest) channels =
    send_timeouts rest (try_send req.response_ch timeout_response channels)

unfoldable pub cleanup_stale : ℕ → ℕ → PendingRequests → PendingRequests
cleanup_stale now max_age p =
    let requests' = keep (λ id req. not (is_stale now max_age req)) p.requests in
    record p {
      requests = requests';
      channels = send_timeouts (stale_requests now max_age p.requests) p.channels;
      gauge = length requests';
    }

-- A handler's request: a fresh channel for one response, then Store.
unfoldable pub open_request : String → String → String → ℕ → ℕ → PendingRequests → PendingRequests
unfolding make_chan store
open_request id kind client_id now max_age p =
    let (ch, p') = make_chan 1 p in
    store id
      (record {
        response_ch = ch;
        kind = kind;
        client_id = client_id;
        timestamp = now;
        max_age = max_age;
      })
      p'

-- The calls that change the tracker, as other components and the cleanup loop make them.
pub data Call : Type 0 where
  opens : String → String → String → ℕ → ℕ → Call
  removes : String → Call
  resolves : String → ℕ → Option Object → Call
  resolves_raw : String → ℕ → List ℕ → Call
  cleans : ℕ → ℕ → Call

unfoldable pub step : Call → PendingRequests → PendingRequests
step (opens id kind client_id now max_age) p = open_request id kind client_id now max_age p
step (removes id) p = remove id p
step (resolves id code body) p = resolve id code body p
step (resolves_raw id code raw) p = resolve_raw id code raw p
step (cleans now max_age) p = cleanup_stale now max_age p

unfoldable pub run : List Call → PendingRequests → PendingRequests
run [] p = p
run (c ∷ cs) p = run cs (step c p)

unfoldable pub new_pending : PendingRequests
new_pending = record {
  requests = [];
  channels = λ _. record { capacity = 0; buffer = [] };
  next_channel = 0;
  gauge = 0;
}
