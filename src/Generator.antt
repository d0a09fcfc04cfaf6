-- ===== src/Generator.antt =====
-- internal/generator and cmd/generator: the load generator's logger, its workers, its client, and
-- its command.
pub mod Dedup
pub mod Stat
pub mod Worker
pub mod Runner
pub mod Client
pub mod Target
pub mod Config
pub mod Command
mod Tests
