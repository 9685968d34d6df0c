-- ===== src/Access.antt =====
-- go-relay/internal/middleware: who may call the HTTP API. A request is answered with an error or
-- handed on with its context. Instants and durations are nanoseconds.
pub mod Cache
pub mod Context
pub mod Auth
pub mod AuthLaws
pub mod Caching
pub mod Coherence
pub mod Revocation
pub mod MonthlyLimit
pub mod Lockout
pub mod LockoutLaws
mod Tests
