-- ===== src/Server.antt =====
-- broker/server: the global id table, the worker and the handlers.
pub mod GlobalId
pub mod Worker
pub mod Edges
pub mod Processes
pub mod RingConnection
pub mod Ring
