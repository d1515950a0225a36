-- ===== src/Commands.antt =====
-- src/bin/pipitor: the commands of the program. What the network and the files answer is an argument.
pub mod Ctl
pub mod Files
pub mod ListSync
pub mod Input
pub mod Instances
pub mod Ipc
pub mod Run
pub mod Login
pub mod Unsubscribe
