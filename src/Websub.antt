-- ===== src/Websub.antt =====
-- src/websub.rs and the modules under src/websub: the WebSub subscriber.
pub mod Store
pub mod Callback
pub mod Address
pub mod Discovery
pub mod Hub
pub mod Lifecycle
pub mod Service
pub mod Scheduler
pub mod Subscriber
