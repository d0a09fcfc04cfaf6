-- ===== src/Calculators.antt =====
-- internal/calculators/calculators.go. The goroutines are step relations: `Server` is the loop that
-- `Async` and `asyncSingle` share, `Parallel` runs two of them, and `Sync` is a critical section.
pub mod Recorder
pub mod Dual
pub mod Server
pub mod Sync
pub mod Async
pub mod Parallel
mod Tests
