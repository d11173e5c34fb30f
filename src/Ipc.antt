-- ===== src/Ipc.antt =====
-- broker/common: the messages, the wrappers of System V semaphores, shared memory and queues, and
-- the transfer of whole messages over a socket.
pub mod Message
pub mod Kernel
pub mod MsgQueue
pub mod Socket
pub mod Vector
