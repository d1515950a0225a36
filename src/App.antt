-- ===== src/App.antt =====
-- src/app.rs and src/app/: the application.
pub mod Requests
pub mod Core
pub mod Lifecycle
pub mod Reload
pub mod Running
pub mod Sender
pub mod Shutdown
pub mod Start
pub mod Sync
