-- ===== src/Db/Processes.antt =====
-- broker/db-server/db_server.c: the process that makes the semaphore of the database, forks a
-- handler for each connection, and stops them at the end.
pub mod Watched
use sistemas_distribuid.Base.{
  ℕ, zero, suc, ℤ, pos, minus_one, is_neg, ◌=ℤ◌, if◌then◌else◌, not, ◌||◌, List, [], ◌∷◌,
}
use sistemas_distribuid.Ipc.Kernel.{Calls, creasem, delsem}
use sistemas_distribuid.Os.{Os, fork, kill, waitpid, close, graceful_quit, db_handler}
use sistemas_distribuid.Os.Proc.{
  Proc, running, pure, exit, sys, append_child, destroy_childs, ◌>>=◌, ◌>>◌,
}
use sistemas_distribuid.Os.Calls.{create_server_socket, accept_client, execl, snprintf}

abbrev pub db_port : ℕ
db_port = 3307

-- The answers of the kernel, and those to the calls on the semaphore.
pub record Env : Type 0 where
  pub os : Os
  pub calls : Calls

unfoldable pub kill_child : Os → ℤ → Proc (Unit {0})
kill_child os child_pid = do
  r ← sys os (kill child_pid)
  if is_neg r then pure tt else do sys os (waitpid child_pid); pure tt

unfoldable pub kill_each : Os → List ℤ → Proc (Unit {0})
kill_each os [] = pure tt
kill_each os (child ∷ childs) = do kill_child os child; kill_each os childs

-- `kill_child` returns true, so that `list_for_each` takes every child.
unfoldable pub kill_childs : Os → Proc (Unit {0})
kill_childs os s = kill_each os s.childs s

-- The status is -1 as well if the socket or the semaphore cannot be released.
unfoldable pub safe_exit : {A : Type 0} → Env → ℤ → ℤ → Proc A
safe_exit e socket error = do
  kill_childs e.os
  destroy_childs
  closed ← sys e.os (close socket)
  let error = if is_neg closed then minus_one else error
  exit (if is_neg (delsem e.calls) then minus_one else error)

-- What a child of the loop runs.
unfoldable pub handler_child : Env → ℤ → ℤ → Proc (Unit {0})
handler_child e socket client_socket = do
  sys e.os (close socket)
  execl e.os db_handler (snprintf 3 client_socket ∷ [])
  safe_exit e socket minus_one

-- The body of the loop for a client that is connected.
unfoldable pub fork_handler : Env → ℤ → ℤ → Proc (Unit {0})
fork_handler e socket client_socket = do
  handler ← sys e.os fork
  if is_neg handler
      then safe_exit e socket minus_one
      else if handler =ℤ pos 0
      then handler_child e socket client_socket
      else do append_child handler; sys e.os (close client_socket); pure tt

-- The loop of `main`, for so many rounds at most.
unfoldable pub serve : Env → ℤ → ℕ → Proc (Unit {0})
serve e socket zero = λ s. (running, s)
serve e socket (suc fuel) = do
  quit ← sys e.os graceful_quit
  if not (quit =ℤ pos 0) then pure tt else do
    client_socket ← accept_client e.os socket
    quit ← sys e.os graceful_quit
    if not (quit =ℤ pos 0) || is_neg client_socket
        then pure tt
        else do fork_handler e socket client_socket; serve e socket fuel

-- Whether `inisem` succeeds is not looked at.
unfoldable pub main : Env → ℕ → Proc (Unit {0})
main e fuel = if is_neg (creasem e.calls) then exit minus_one else do
  socket ← create_server_socket e.os db_port
  if is_neg socket
      then safe_exit e socket minus_one
      else do serve e socket fuel; safe_exit e socket (pos 0)
