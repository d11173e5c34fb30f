-- ===== src/Tests.antt =====
-- Runs of the models on concrete inputs.
mod Setup
pub mod Ipc
pub mod Server
pub mod Ring
pub mod Db
pub mod Client
pub mod Museum
pub mod Processes
pub mod People
pub mod System
pub mod Register
pub mod Interface
