-- ===== src/Service.antt =====
-- client/serviceinterface_*.go: the service definitions as the command line edits them.
pub mod Validate
pub mod Targets
pub mod Client
mod Tests
