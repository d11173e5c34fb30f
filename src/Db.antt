-- ===== src/Db.antt =====
-- broker/db-server: the database of users and topics in files, and the handler of its requests.
pub mod Disk
pub mod Files
pub mod Subscriptions
pub mod Consistency
pub mod Released
pub mod Handler
pub mod Connection
pub mod Processes
