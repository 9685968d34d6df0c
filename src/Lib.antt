-- ===== src/Lib.antt =====
-- A model of the Go relay server of the Foundry VTT REST API (go-relay), with theorems about it. The
-- relay keeps a WebSocket to every Foundry world that has its module, takes HTTP requests with API
-- keys, forwards them to the worlds as messages and matches their answers to the requests.
--
-- The parts and their files:
-- - Base: shared types, Boolean tests, lists, Go maps as association lists, JSON values.
-- - Access: go-relay/internal/middleware/auth.go and scopes.go. Cache is the cache of API keys,
--   Context what the middleware reads and hands on, Auth the middlewares SessionOnlyMiddleware
--   (session_only) and AuthMiddleware (authenticate: a session, a cached key by auth_by_entry, or the
--   database by auth_by_store) and RequireScope. AuthLaws, Caching, Coherence, Revocation and
--   MonthlyLimit hold the proofs. Lockout and LockoutLaws are the AdminLockoutTracker of
--   admin_ratelimit.go.
-- - Approval: go-relay/internal/handler, what a signed-in user approves for someone else. Keys is
--   key_request.go (an application asks for an API key and fetches it once) over KeyStores, the
--   tables of model/key_request.go; Urls is its validateWebURL. Worlds is the tables of known_client.go,
--   pairing_code.go, pair_request.go and connection_token.go under go-relay/internal/model; Pairs is
--   pair_request.go, and Pairing the codes and POST /auth/pair of connection_tokens.go, in two steps
--   (claim, complete) between which another request may come. The handlers of Keys are two halves as
--   well (the read of the row, then answer_poll, answer_trade, answer_approval or answer_denial);
--   step runs one alone, and Keys/Race is about halves that overlap. Keys/Effects, Inv, Delivery,
--   Lifecycle and Grants, Pairs/Wildcard, Pairing/Codes, Offers and Choice, and Settings hold the
--   proofs.
-- - Alerts: go-relay/internal/alerts/alerts.go, Track and Fire up to the delivery, with the proofs in
--   Laws (track) and Recent (the buffer of recent events).
-- - Events: go-relay/internal/handler/helpers/sse.go. Streams is the SSEManager, one map per channel
--   and one for WebSockets; Totals and Counts (the counts given to the callback) and Limit hold the
--   proofs. Fanout is the fan-out of the events and the notice to the module by
--   go-relay/internal/server/server.go, and Silence joins the two.
-- - Metrics: go-relay/internal/metrics/rolling.go. Ring is one ring of buckets with its part of
--   advance, Rolling the tracker; RingLaws, Window and RollingLaws hold the proofs.
-- - Route: go-relay/internal/handler/helpers. Params is params.go (ExtractParams, coerceType,
--   ValidateRequired), Target and Forward are CreateAPIRoute of route.go: the choice of the world
--   (find_target), the message (message_of), the send (forward, handle) and the end of the wait
--   (finish). Results is the handlers of go-relay/internal/ws/message_handlers.go that take the
--   answers in. Conversions says what parameters may be without the code; ParamLaws, TargetLaws,
--   Ownership, MessageLaws, Exchange, Crossing and Failures hold the proofs.
-- - Usage: go-relay/internal/counter/counter.go in Counter, with CounterLaws;
--   go-relay/internal/service/notification_batcher.go in Batcher, with BatcherLaws.
-- - Model: go-relay/internal/model/scopes.go (Csv, Scopes, Catalogue) and the permissions of
--   known_client.go (can_target, has_remote_scope in Scopes).
-- - Ws: go-relay/internal/ws. Pending is pending.go, Client is client.go, InteractiveSessions is
--   interactive_sessions.go. Address is net.SplitHostPort as manager.go uses it. Manager is
--   manager.go: Groups (tokenGroups), Defs (AddClient, RemoveClient, RemoveClientIfMatch, cleanup),
--   Queries, Disconnects (revocations here and by broadcast), Routing (messages of clients), and the
--   proofs in Registry, Arrival, Replacement, Isolation and Revocation. Remote is remote_request.go:
--   Rate (checkRemoteRequestRate), Gate and Delivery (handleRemoteRequest before and after the
--   checks), with RateLaws, GateLaws and DeliveryLaws.
--
-- How they interact: Access hands its context to Route, which asks the manager for the world, sends it
-- the message and waits in Pending for the answer that Results resolves. Access asks the client
-- manager for the client that a request names. The manager holds clients, and a client's messages
-- are routed by it. The cross-world tunnel takes its
-- permissions from Model, stores a request in Pending, sends to a client of the manager, and waits on
-- the channel that Pending.resolve fills.
--
-- Conventions: state is a record that an operation takes and gives back; each region under a lock is
-- one step. Pointers and channels are numbers into a heap. A Go map is an association list; a nil map
-- or slice is an empty one. Instants and durations are natural numbers of nanoseconds; identifiers
-- are natural numbers, and so are counters, whose overflow is not modelled. A text is taken apart
-- into its code points, which are its bytes if it is ASCII. A panic is a result of its own. Lists of
-- events stand for calls to Redis and for callbacks. A database table is a map from the id to the
-- row, in the order of insertion; which calls of it fail is an argument (Faults). Iteration over a map takes the order of the
-- association list; Go's order is any. No definition runs on fuel: every loop is structural.
--
-- Parameters: the database (Access.Context.Db, Ws.Remote.Gate.Store), what Redis answers, the peer
-- instance and the headless worker of the tunnel, AutoStartFunc of the route, the parsers of numbers,
-- arrays, addresses and base64, json.Unmarshal, the clock and generated ids.
--
-- Not modelled: the other HTTP handlers and SQL stores, the headless worker's browser, email, Stripe, encryption,
-- configuration, the delivery of alerts, notifications, the writing of event streams and the documentation generator. Of
-- manager.go the subscription loop and the reads of Redis alone; of auth.go TrackAPIUsage, the access
-- log and the alert on unknown keys; of remote_request.go what the log persists and the call of the
-- batcher. A goroutine that the code starts for a disconnect runs at once here.
pub mod Base
pub mod Access
pub mod Alerts
pub mod Approval
pub mod Events
pub mod Metrics
pub mod Model
pub mod Route
pub mod Usage
pub mod Ws
