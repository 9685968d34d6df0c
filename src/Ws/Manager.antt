-- ===== src/Ws/Manager.antt =====
-- go-relay/internal/ws/manager.go: ClientManager, the registry of Foundry clients. A pointer to a
-- client is a number into `heap`; the lock makes each locked region one step; what the manager asks
-- of Redis, of its callbacks and of rejected connections is appended to `events`. Callbacks are set.
pub mod Groups
pub mod Defs
pub mod Registry
pub mod Arrival
pub mod Queries
pub mod Routing
pub mod Isolation
pub mod Disconnects
pub mod Revocation
pub mod Replacement
mod Tests
