-- ===== src/Server/RingConnection.antt =====
-- broker/server/ring_connection.c: the process that connects a server to the next one of the ring.
pub mod Entered
use sistemas_distribuid.Base.{ℕ, ℤ, pos, minus_one, is_neg, ◌=ℤ◌, if◌then◌else◌, List, [], ◌∷◌}
use sistemas_distribuid.Ipc.Kernel.{Calls}
use sistemas_distribuid.Server.GlobalId.{GlobalIds, global_ids_get, add_global_id}
use sistemas_distribuid.Server.Worker.{next_server_global_id}
use sistemas_distribuid.Server.Processes.{ring_connection_setup_queue}
use sistemas_distribuid.Os.{Os, fork, close, resp_handler}
use sistemas_distribuid.Os.Proc.{Proc, pure, exit, sys, lift, ◌>>=◌, ◌>>◌}
use sistemas_distribuid.Os.Calls.{create_client_socket, execl, getmsg, sendmsg, snprintf}

abbrev pub next_server_port : ℕ
next_server_port = 8080

-- What the child runs.
unfoldable pub resp_handler_child : Os → ℤ → Proc ℤ
resp_handler_child os socket = do execl os resp_handler (snprintf 3 socket ∷ []); exit minus_one

-- What the parent runs: that `close` fails is only logged.
unfoldable pub close_socket : Os → ℤ → ℤ → Proc ℤ
close_socket os socket pid = do sys os (close socket); pure pid

unfoldable pub create_resp_handler : Os → ℤ → Proc ℤ
create_resp_handler os socket = do
  pid ← sys os fork
  if is_neg pid
      then exit minus_one
      else if pid =ℤ pos 0
      then resp_handler_child os socket
      else close_socket os socket pid

-- `main` from the table on. That `sendmsg` fails is not looked at.
unfoldable pub enter : Os → Calls → ℤ → GlobalIds → Proc GlobalIds
enter os table resp_handler_pid ids = do
  global_ids ← lift (global_ids_get table)
  (r, ids') ← lift (add_global_id table next_server_global_id resp_handler_pid ids)
  if is_neg r then exit minus_one else do
    queue ← getmsg os ring_connection_setup_queue
    sendmsg os queue resp_handler_pid
    pure ids'

-- With the table that it leaves.
unfoldable pub main : Os → Calls → GlobalIds → Proc GlobalIds
main os table ids = do
  socket ← create_client_socket os next_server_port
  resp_handler_pid ← create_resp_handler os socket
  enter os table resp_handler_pid ids
