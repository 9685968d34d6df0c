-- ===== src/Metrics.antt =====
-- go-relay/internal/metrics/rolling.go: request counts of the last minutes, hours and days.
pub mod Ring
pub mod RingLaws
pub mod Window
pub mod Rolling
pub mod RollingLaws
mod Tests
