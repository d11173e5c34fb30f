-- ===== src/Server/Processes.antt =====
-- broker/server/server.c: the process that makes the queues and the table, forks the workers and a
-- handler for each connection, and stops them at the end.
pub mod Ending
pub mod Watched
pub mod Ended
use sistemas_distribuid.Base.{
  ℕ, zero, suc, ℤ, pos, minus_one, is_neg, ◌=ℤ◌, if◌then◌else◌, Bool, not, ◌||◌, List, [], ◌∷◌,
}
use sistemas_distribuid.Ipc.Kernel.{Calls}
use sistemas_distribuid.Server.GlobalId.{global_ids_create, global_ids_get, global_ids_destroy}
use sistemas_distribuid.Os.{
  Os, Event, Process, log, fork, kill, waitpid, close, graceful_quit, worker, req_handler,
}
use sistemas_distribuid.Os as Os
use sistemas_distribuid.Os.Proc.{
  Proc, running, ret, pure, exit, sys, lift, append_child, destroy_childs, ◌>>=◌, ◌>>◌,
}
use sistemas_distribuid.Os.Calls.{
  creamsg, getmsg, delmsg, rcvmsg, create_server_socket, accept_client, execl, snprintf,
}

abbrev pub port : ℕ
port = 8080

abbrev pub workers : ℕ
workers = 1

abbrev pub worker_queue : ℕ
worker_queue = 1

abbrev pub resp_queue : ℕ
resp_queue = 2

abbrev pub ring_connection_setup_queue : ℕ
ring_connection_setup_queue = 6

-- What the server runs in: the answers of the kernel, those to the calls on the table of global
-- ids, and what `msg.resp_handler_pid` holds behind `rcvmsg`: what the ring connection has sent,
-- or any value if nothing was received.
pub record Env : Type 0 where
  pub os : Os
  pub table : Calls
  pub resp_handler_pid : List Event → ℤ

unfoldable pub create_global_ids : Env → Proc (Unit {0})
create_global_ids e = do
  (id, ids) ← lift (global_ids_create e.table)
  if is_neg id then exit minus_one else pure tt

unfoldable pub create_queues : Env → Proc (Unit {0})
create_queues e = do
  worker_queue ← creamsg e.os worker_queue
  if is_neg worker_queue then exit minus_one else do
    resp_queue ← creamsg e.os resp_queue
    if is_neg resp_queue then exit minus_one else do
      setup_queue ← creamsg e.os ring_connection_setup_queue
      if is_neg setup_queue then exit minus_one else pure tt

unfoldable pub destroy_global_ids : Env → Proc (Unit {0})
destroy_global_ids e = do
  global_ids ← lift (global_ids_get e.table)
  if is_neg global_ids then pure tt else λ s.
      (ret tt, log Os.global_ids_destroy (global_ids_destroy e.table) s)

-- One queue of `destroy_queues`.
unfoldable pub destroy_queue : Os → ℕ → Proc (Unit {0})
destroy_queue os id = do
  queue ← getmsg os id
  if is_neg queue then pure tt else do delmsg os queue; pure tt

unfoldable pub destroy_queues : Env → Proc (Unit {0})
destroy_queues e = do
  destroy_queue e.os worker_queue
  destroy_queue e.os resp_queue
  destroy_queue e.os ring_connection_setup_queue

-- What a child of `create_workers` runs.
unfoldable pub worker_child : Env → Proc (Unit {0})
worker_child e = do execl e.os worker []; exit minus_one

-- The loop, with the number of workers that are still to be forked.
unfoldable pub create_workers : Env → ℕ → Proc (Unit {0})
create_workers e zero = pure tt
create_workers e (suc n) = do
  pid ← sys e.os fork
  if is_neg pid
      then exit minus_one
      else if pid =ℤ pos 0
      then worker_child e
      else do append_child pid; create_workers e n

unfoldable pub kill_child : Os → ℤ → Proc (Unit {0})
kill_child os child_pid = do
  r ← sys os (kill child_pid)
  if is_neg r then pure tt else do sys os (waitpid child_pid); pure tt

unfoldable pub kill_each : Os → List ℤ → Proc (Unit {0})
kill_each os [] = pure tt
kill_each os (child ∷ childs) = do kill_child os child; kill_each os childs

-- `kill_child` returns true, so that `list_for_each` takes every child.
unfoldable pub kill_childs : Os → Proc (Unit {0})
kill_childs os s = kill_each os s.childs s

unfoldable pub safe_exit : {A : Type 0} → Env → ℤ → ℤ → Proc A
safe_exit e socket error = do
  kill_childs e.os
  destroy_childs
  destroy_queues e
  destroy_global_ids e
  sys e.os (close socket)
  exit error

-- What a child of `fork_req_handler` runs.
unfoldable pub handler_child : Env → ℤ → ℤ → Proc (Unit {0})
handler_child e server_socket client_socket = do
  sys e.os (close server_socket)
  execl e.os req_handler (snprintf 3 client_socket ∷ [])
  safe_exit e server_socket minus_one

-- Both `close`s are only logged when they fail.
unfoldable pub fork_req_handler : Env → ℤ → ℤ → Proc (Unit {0})
fork_req_handler e server_socket client_socket = do
  handler ← sys e.os fork
  if is_neg handler
      then safe_exit e server_socket minus_one
      else if handler =ℤ pos 0
      then handler_child e server_socket client_socket
      else do append_child handler; sys e.os (close client_socket); pure tt

unfoldable pub wait_ring_connection : Env → ℤ → Proc ℤ
wait_ring_connection e socket = do
  previous_server_socket ← accept_client e.os socket
  if is_neg previous_server_socket
      then safe_exit e socket minus_one
      else pure previous_server_socket

-- The loop of `main`, for so many rounds at most.
unfoldable pub serve : Env → ℤ → ℕ → Proc (Unit {0})
serve e socket zero = λ s. (running, s)
serve e socket (suc fuel) = do
  quit ← sys e.os graceful_quit
  if not (quit =ℤ pos 0) then pure tt else do
    client_socket ← accept_client e.os socket
    quit ← sys e.os graceful_quit
    if not (quit =ℤ pos 0) || is_neg client_socket
        then pure tt
        else do fork_req_handler e socket client_socket; serve e socket fuel

-- `main` from the look-up of the ring connection's queue on.
unfoldable pub run : Env → ℤ → ℕ → Proc (Unit {0})
run e socket fuel = do
  setup_queue ← getmsg e.os ring_connection_setup_queue
  rcvmsg e.os setup_queue
  resp_handler_pid ← λ s. (ret (e.resp_handler_pid s.history), s)
  append_child resp_handler_pid
  serve e socket fuel
  safe_exit e socket (pos 0)

-- `main` from the server socket on.
unfoldable pub start : Env → ℕ → Proc (Unit {0})
start e fuel = do
  socket ← create_server_socket e.os port
  if is_neg socket then safe_exit e socket minus_one else do
    previous_server_socket ← wait_ring_connection e socket
    fork_req_handler e socket previous_server_socket
    run e socket fuel

unfoldable pub main : Env → ℕ → Proc (Unit {0})
main e fuel = do create_global_ids e; create_queues e; create_workers e workers; start e fuel
