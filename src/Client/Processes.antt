-- ===== src/Client/Processes.antt =====
-- broker/client: `main` of broker_req_handler.c and of broker_resp_handler.c.
pub mod Steps
pub mod Returned
use sistemas_distribuid.Base.{
  ℕ, zero, suc, ℤ, pos, minus_one, is_neg, ◌=ℤ◌, if◌then◌else◌, not, List, [], ◌∷◌,
}
use sistemas_distribuid.Ipc.Message.{Msg}
use sistemas_distribuid.Client.BrokerId.{broker_id_create, broker_id_get, broker_id_destroy}
use sistemas_distribuid.Client.Handlers as Handlers
use sistemas_distribuid.Client.Handlers.{World, process_msg, process_message}
use sistemas_distribuid.Os.{
  Os, Event, log, fork, kill, waitpid, close, graceful_quit, broker_resp_handler,
}
use sistemas_distribuid.Os as Os
use sistemas_distribuid.Os.Proc.{Proc, ret, running, pure, exit, sys, lift, ◌>>=◌, ◌>>◌}
use sistemas_distribuid.Os.Calls.{
  creamsg, getmsg, delmsg, rcvmsg, create_client_socket, execl, snprintf,
}

abbrev pub broker_req_msg : ℕ
broker_req_msg = 3

abbrev pub broker_resp_msg : ℕ
broker_resp_msg = 4

abbrev pub incoming_msg_queue : ℕ
incoming_msg_queue = 5

abbrev pub server_port : ℕ
server_port = 8080

-- What the handlers run in: the answers of the kernel, what `msg` holds behind `rcvmsg` or
-- `socket_receive`, the result of the latter, and what each message is handled in.
pub record Env (Q S : Type 0) : Type 0 where
  pub os : Os
  pub received : List Event → Msg
  pub socket_receive : List Event → ℤ
  pub handlers : Handlers.Env Q S

unfoldable pub init_msg_req_queue : Os → Proc ℤ
init_msg_req_queue os = do
  req_queue ← creamsg os broker_req_msg
  if is_neg req_queue then exit minus_one else pure req_queue

unfoldable pub init_msg_resp_queue : Os → Proc ℤ
init_msg_resp_queue os = do
  resp_queue ← creamsg os broker_resp_msg
  if is_neg resp_queue then exit minus_one else pure resp_queue

unfoldable pub init_incoming_msg_queue : Os → Proc ℤ
init_incoming_msg_queue os = do
  queue ← creamsg os incoming_msg_queue
  if is_neg queue then exit minus_one else pure queue

-- What the child runs.
unfoldable pub resp_handler_child : Os → ℤ → Proc ℤ
resp_handler_child os socket_fd = do
  execl os broker_resp_handler (snprintf 3 socket_fd ∷ [])
  exit minus_one

unfoldable pub create_broker_resp_handler : Os → ℤ → Proc ℤ
create_broker_resp_handler os socket_fd = do
  pid ← sys os fork
  if is_neg pid
      then exit minus_one
      else if pid =ℤ pos 0
      then resp_handler_child os socket_fd
      else pure pid

-- `kill`, and `waitpid` unless it fails.
unfoldable pub stop_handler : Os → ℤ → Proc (Unit {0})
stop_handler os resp_handler = do
  r ← sys os (kill resp_handler)
  if is_neg r then pure tt else do sys os (waitpid resp_handler); pure tt

module _ {Q S : Type 0} (e : Env Q S) where
  -- The loop of broker_req_handler.c, for so many rounds at most. Whether `rcvmsg` fails is not
  -- looked at.
  unfoldable pub serve : ℤ → ℕ → World Q S → Proc (World Q S)
  serve req_queue zero w = λ s. (running, s)
  serve req_queue (suc fuel) w = do
    quit ← sys e.os graceful_quit
    if not (quit =ℤ pos 0) then pure w else do
      rcvmsg e.os req_queue
      quit ← sys e.os graceful_quit
      if not (quit =ℤ pos 0) then pure w else do
        msg ← λ s. (ret (e.received s.history), s)
        w' ← lift (process_msg e.handlers msg w)
        serve req_queue fuel w'

  unfoldable pub destroy_ids : Proc (Unit {0})
  destroy_ids s = (ret tt, log Os.broker_id_destroy (broker_id_destroy e.handlers.calls) s)

  -- What `main` of broker_req_handler.c does behind its loop.
  unfoldable pub stop : ℤ → ℤ → ℤ → ℤ → ℤ → Proc (Unit {0})
  stop server_socket req_queue resp_queue incoming resp_handler = do
    stop_handler e.os resp_handler
    delmsg e.os req_queue
    delmsg e.os resp_queue
    delmsg e.os incoming
    destroy_ids
    sys e.os (close server_socket)
    pure tt

  -- `main` of broker_req_handler.c
  unfoldable pub main : ℕ → World Q S → Proc (Unit {0})
  main fuel w = do
    server_socket ← create_client_socket e.os server_port
    req_queue ← init_msg_req_queue e.os
    resp_queue ← init_msg_resp_queue e.os
    incoming ← init_incoming_msg_queue e.os
    (broker_ids, ids) ← lift (broker_id_create e.handlers.calls)
    resp_handler ← create_broker_resp_handler e.os server_socket
    serve req_queue fuel (record w { ids = ids })
    stop server_socket req_queue resp_queue incoming resp_handler

unfoldable pub get_msg_resp_queue : Os → Proc ℤ
get_msg_resp_queue os = do
  resp_queue ← getmsg os broker_resp_msg
  if is_neg resp_queue then exit minus_one else pure resp_queue

unfoldable pub get_incoming_msg_queue : Os → Proc ℤ
get_incoming_msg_queue os = do
  queue ← getmsg os incoming_msg_queue
  if is_neg queue then exit minus_one else pure queue

module _ {Q S : Type 0} (e : Env Q S) where
  -- The loop of broker_resp_handler.c, for so many rounds at most.
  unfoldable pub serve_responses : ℕ → World Q S → Proc (World Q S)
  serve_responses zero w = λ s. (running, s)
  serve_responses (suc fuel) w = do
    quit ← sys e.os graceful_quit
    if not (quit =ℤ pos 0) then pure w else do
      res ← λ s. (ret (e.socket_receive s.history), s)
      quit ← sys e.os graceful_quit
      if not (quit =ℤ pos 0)
          then pure w
          else if is_neg res
          then pure w
          else if res =ℤ pos 0
          then pure w
          else do
            msg ← λ s. (ret (e.received s.history), s)
            w' ← lift (process_message e.handlers msg w)
            serve_responses fuel w'

  -- `main` of broker_resp_handler.c, for the descriptor that it is given.
  unfoldable pub main_responses : ℤ → ℕ → World Q S → Proc (World Q S)
  main_responses socket_fd fuel w = do
    resp_queue ← get_msg_resp_queue e.os
    incoming ← get_incoming_msg_queue e.os
    broker_ids ← lift (broker_id_get e.handlers.calls)
    w' ← serve_responses fuel w
    sys e.os (close socket_fd)
    pure w'
