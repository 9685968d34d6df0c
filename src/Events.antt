-- ===== src/Events.antt =====
-- go-relay/internal/handler/helpers/sse.go: who listens to the events of a Foundry world. Streams is
-- the manager of the streams, with its proofs in Totals, Counts and Limit; Fanout is the fan-out of an event
-- by go-relay/internal/server/server.go, and Silence joins the two.
pub mod Streams
pub mod Totals
pub mod Counts
pub mod Limit
pub mod Fanout
pub mod Silence
mod Tests
