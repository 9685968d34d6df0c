-- ===== src/Route.antt =====
-- go-relay/internal/handler/helpers: the HTTP route that forwards a request to a Foundry world.
-- Params is params.go, Target the choice of the world by route.go, Forward the message and the wait
-- for its answer; Results is the handlers of ws/message_handlers.go that take the answers in.
pub mod Params
pub mod Conversions
pub mod ParamLaws
pub mod Target
pub mod TargetLaws
pub mod Ownership
pub mod Forward
pub mod Results
pub mod MessageLaws
pub mod Exchange
pub mod Crossing
pub mod Failures
mod Samples
mod TargetTests
mod ForwardTests
