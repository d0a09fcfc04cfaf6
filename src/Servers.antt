-- ===== src/Servers.antt =====
-- internal/servers: the service behind the handlers, and the server that runs them.
pub mod Handlers
pub mod Service
pub mod Printer
pub mod Enums
pub mod Run
pub mod Main
mod Tests
