-- ===== src/Client.antt =====
-- broker/client: the local broker of one machine and the library of its clients.
pub mod BrokerId
pub mod Handlers
pub mod Library
pub mod Processes
pub mod Interface
