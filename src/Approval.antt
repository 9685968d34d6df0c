-- ===== src/Approval.antt =====
-- go-relay/internal/handler: what a signed-in user approves for someone else. Keys is
-- key_request.go (API keys for applications), Pairs is pair_request.go (worlds that ask for a
-- pairing code), Pairing is POST /auth/pair of connection_tokens.go (a code becomes a connection
-- token). The stores are their tables; what the database refuses is an argument of each handler.
pub mod Status
pub mod Urls
pub mod KeyStores
pub mod Keys
pub mod Worlds
pub mod Pairs
pub mod Pairing
pub mod Settings
mod KeyTests
mod PairTests
