-- ===== src/Tests.antt =====
-- The theorems at concrete inputs.
pub mod Data
pub mod Subscriber
pub mod Application
pub mod Texts
pub mod Loop
pub mod Lifecycle
pub mod Commands
pub mod Reading
pub mod Requests
pub mod Delivery
pub mod Instances
