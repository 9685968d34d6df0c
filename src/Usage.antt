-- ===== src/Usage.antt =====
-- What the relay counts and gathers before it writes or sends it.
pub mod Counter
pub mod CounterLaws
pub mod Batcher
pub mod BatcherLaws
mod BatcherTests
