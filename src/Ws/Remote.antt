-- ===== src/Ws/Remote.antt =====
-- go-relay/internal/ws/remote_request.go: the cross-world tunnel. A Foundry world asks the relay to
-- run an action on another world of the same account; here is the way from the request to the answer.
pub mod Rate
pub mod RateLaws
pub mod Gate
pub mod GateLaws
pub mod Delivery
pub mod DeliveryLaws
mod Tests
