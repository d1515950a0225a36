-- ===== src/Util.antt =====
-- src/util.rs and the modules below it, and the sockets of src/socket.rs.
pub mod ConcatBody
pub mod Connections
pub mod First
pub mod Handed
pub mod Listener
pub mod Socket
