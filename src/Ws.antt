-- ===== src/Ws.antt =====
-- go-relay/internal/ws: the connections of Foundry clients and what is sent over them.
pub mod Pending
pub mod Address
pub mod Client
pub mod Manager
pub mod InteractiveSessions
pub mod Remote
