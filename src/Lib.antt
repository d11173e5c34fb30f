-- ===== src/Lib.antt =====
-- The repository holds a distributed message broker in C (broker/), a simulation of a museum
-- (museum/) and an exercise on sockets (sockets/). The first two are built from processes that
-- share memory, semaphores and message queues.
--
-- A client process calls broker/client/broker.c, which puts requests into a queue of its machine
-- and waits for the response. On each machine broker/client/broker_req_handler.c takes the requests
-- to the server over a socket, and broker_resp_handler.c brings back the responses and the messages
-- of other clients; broker_id.c is their table of local and global ids. On the server
-- broker/server/req_handler.c hands each request to worker.c, which asks the database through
-- db-connection.c, delivers what is published to the response handlers (resp_handler.c) of the
-- subscribers, and hands one copy for all others to the next server of the ring; global_id.c is its
-- table of the clients that are connected. broker/db-server keeps users and topics in files (db.c)
-- and answers the requests of the servers (db_handler.c).
--
-- Base: numbers as C has them (Int), decimal texts (Decimal), lists and linear search (Lists,
--   Keyed), and the outcomes of a call that can wait for ever or end its process (Flow).
-- Ipc: broker/common. Message is message.h; Kernel is semaphore.c and shm.c; MsgQueue is
--   msg_queue.c; Socket is the loops of socket.c, with what they transfer in Socket/Transfer;
--   Vector is the interface of the vector.
-- Os: what a process asks of the kernel (Os), its code (Proc), the calls of common/ipc/msg_queue.c
--   and socket.c that make and find things (Calls), its children (Children), what code keeps
--   (Keeps), code that never becomes another program (Calm), and what snprintf makes of a number
--   that is read again (Argument).
-- Server: broker/server. GlobalId is global_id.c, with the entries in Table and the finite map in
--   Refine; Worker is worker.c, with the messages of a publish in Deliver, Loop and Publish, the
--   requests that fail in Requests, that each call returns in Total, and its main in Process, with
--   the messages that it handles in Process/Handled; Ring is n servers that forward to one another,
--   with the ways of a publish among them, and what each server gets of it in Ring/Copies and
--   Ring/Bounded; Edges is the two handlers, with a publish on the ring in Ring, a subscription in
--   RoundTrip, and their main functions in Edges/Processes, with the descriptor that they are
--   started with in Processes/Argument; Processes is server.c, with its end in Ending, its children
--   in Watched, and how long it runs in Ended; RingConnection is ring_connection.c, with what it
--   enters in Entered.
-- Db: broker/db-server. Disk is the files, Files and Subscriptions are db.c, Consistency is what
--   its files have in common, with their histories in Consistency/Reach, Files/Locked describes the
--   paths of its functions by one p and one v, Released is about its semaphore, Handler is
--   db_handler.c, with its main in Handler/Process, Connection is server/db-connection.c, and
--   Processes is db_server.c.
-- Client: broker/client. BrokerId is broker_id.c, with how a client comes into the table in
--   Handshake and leaves it in Removal; Handlers is the two handlers, with what reaches a client in
--   Delivery and what it asks for in Requests; Processes is their two main functions, with what the
--   first has released in Steps and Returned; Library is broker.c; Interface is client.c, with its
--   lines in Lines and a session in Session.
-- Museum: museum/src. Museum is the doors, Visits the visitors, Tour the tour and its guide; Ipcs
--   is the calls of include/, and Processes is main.c, with what it deletes in Deletion and its
--   children in Counted and Run. The other main functions are in Doors (entranceDoor.c and
--   exitDoor.c), People (person.c, museumApi.h, personGen.c and timer.c) and Staff (guide.c and
--   admin.c).
-- Sockets: sockets/server.c and client.c, with the text that a child answers in Vowels, what a
--   client gets of it in Exchange, main of the server in Processes, and main of the client in
--   Client.
-- System: a request to subscribe on its way through the client, its machine and the server, and
--   back; in Create and Refused a client that registers, in Publish a publish, and in Destroy a
--   client that deletes itself.
-- Tests: runs on concrete inputs.
--
-- A state is a record that each operation takes and returns; a table in shared memory is a record
-- with its array, its count and the value of its semaphore. A call returns an Outcome: ret, blocked
-- for a process that waits on a semaphore that nobody raises, exits for one that ends. What the
-- kernel answers is an argument: whether a semaphore or a segment is found (Calls), what write and
-- read take of a stream (Answers), what the file system refuses (Io), whether a queue takes a
-- message (MsgQueue). The vector of common/ds and the connection to the database are interfaces
-- too. BROKER_ID, a constant that each server is built with, is an argument. int is an integer with
-- the conversions from long written out; a text is what stands before the first NUL of its array.
-- The loops of socket.c run on fuel, one round more than the struct has bytes, which is enough
-- since each round moves at least one byte; the menu of client.c has one round more than it makes
-- calls; all other loops but those of the next paragraph are structural. What a process does
-- between p and v of one semaphore is one step, since the others that use the same memory wait at
-- their p.
--
-- The processes of Os make calls whose answers depend on all calls before; fork answers a child's
-- id in the parent and 0 in the child, and the model follows the one that asks. The flag that the
-- handler of SIGINT sets is read like an answer. Their loops run on fuel, and where the signal
-- arrives before n calls, n + 1 rounds are enough, since each round makes a call.
--
-- Not modelled: a signal that interrupts a call, and a call that the kernel never answers, but for
-- the wait on a semaphore; common/ipc/sig.c, which only enters the handler of a signal; logging,
-- the terminal, and how long a process sleeps. What a process of the museum finds in its shared
-- memory between its own steps is an argument. common/ds and common/log are copies of libraries:
-- the vector is an interface, and the list of children is a List. museum/src/include/measure.h is
-- not used. A topic goes into the path of its file as it is, and only for a topic that is the name
-- of a file, without a slash or a newline and neither . nor .., is the file of the model that of
-- db.c. The exercises in rpc/, which rpcgen has written for the most part, and in ejercicioDebug/,
-- which is handed out with its bugs, and the Java programs have no part in any of the three.
pub mod Base
pub mod Ipc
pub mod Server
pub mod Db
pub mod Client
pub mod Museum
pub mod Os
pub mod Sockets
pub mod System
pub mod Tests
