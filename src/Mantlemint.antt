-- ===== src/Mantlemint.antt =====
-- mantlemint/: the block processor. reactor.go is Mantlemint.Reactor, and event.go Mantlemint.Events.
pub mod Events
pub mod Reactor
pub mod Inject
pub mod Client
pub mod Exclusion
mod Tests
