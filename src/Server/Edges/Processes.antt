-- ===== src/Server/Edges/Processes.antt =====
-- broker/server: `main` of req_handler.c and of resp_handler.c.
pub mod Stopped
pub mod Argument
use sistemas_distribuid.Base.{
  ℕ, zero, suc, ℤ, pos, minus_one, is_neg, ◌=ℤ◌, if◌then◌else◌, not, List, [], ◌∷◌, strtol,
}
use sistemas_distribuid.Ipc.Message.{Msg}
use sistemas_distribuid.Ipc.MsgQueue.{MsgQueue}
use sistemas_distribuid.Server.Processes.{worker_queue, resp_queue}
use sistemas_distribuid.Server.Edges.{process_message, process_msg}
use sistemas_distribuid.Os.{Os, Event, fork, kill, waitpid, close, graceful_quit, resp_handler}
use sistemas_distribuid.Os.Proc.{Proc, ret, running, pure, exit, sys, ◌>>=◌, ◌>>◌}
use sistemas_distribuid.Os.Calls.{getmsg, rcvmsg, execl, snprintf}

-- What the handlers run in: the answers of the kernel, what `msg` holds behind `socket_receive` or
-- `rcvmsg`, the result of the former, the worker's queue, and the sending to the client.
pub record Env (Q S : Type 0) : Type 0 where
  pub os : Os
  pub received : List Event → Msg
  pub socket_receive : List Event → ℤ
  pub queue : MsgQueue Q
  pub socket_send : Msg → S → ℤ × S

-- What the child runs.
unfoldable pub resp_handler_child : Os → ℤ → Proc ℤ
resp_handler_child os socket = do execl os resp_handler (snprintf 3 socket ∷ []); exit minus_one

unfoldable pub create_resp_handler : Os → ℤ → Proc ℤ
create_resp_handler os socket = do
  pid ← sys os fork
  if is_neg pid
      then exit minus_one
      else if pid =ℤ pos 0
      then resp_handler_child os socket
      else pure pid

unfoldable pub get_worker_queue : Os → Proc ℤ
get_worker_queue os = do
  queue ← getmsg os worker_queue
  if is_neg queue then exit minus_one else pure queue

-- `kill`, and `waitpid` unless it fails.
unfoldable pub stop_handler : Os → ℤ → Proc (Unit {0})
stop_handler os resp_handler_pid = do
  r ← sys os (kill resp_handler_pid)
  if is_neg r then pure tt else do sys os (waitpid resp_handler_pid); pure tt

-- `sscanf(argv[1], "%d", &client_socket)`, for a text that starts with a number that an `int` holds.
unfoldable pub read_socket : List ℕ → ℤ
read_socket argument = strtol argument

module _ {Q S : Type 0} (e : Env Q S) where
  -- The loop of req_handler.c, for so many rounds at most, with the worker's queue.
  unfoldable pub serve : ℤ → ℕ → Q → Proc Q
  serve resp_handler_pid zero q = λ s. (running, s)
  serve resp_handler_pid (suc fuel) q = do
    quit ← sys e.os graceful_quit
    if not (quit =ℤ pos 0) then pure q else do
      res ← λ s. (ret (e.socket_receive s.history), s)
      quit ← sys e.os graceful_quit
      if not (quit =ℤ pos 0)
          then pure q
          else if is_neg res
          then pure q
          else if res =ℤ pos 0
          then pure q
          else do
            msg ← λ s. (ret (e.received s.history), s)
            serve resp_handler_pid fuel (process_message e.queue msg resp_handler_pid q)

  -- `main` of req_handler.c, for the descriptor that it reads.
  unfoldable pub main : ℤ → ℕ → Q → Proc Q
  main client_socket fuel q = do
    resp_handler_pid ← create_resp_handler e.os client_socket
    worker_queue ← get_worker_queue e.os
    q' ← serve resp_handler_pid fuel q
    stop_handler e.os resp_handler_pid
    sys e.os (close client_socket)
    pure q'

  -- `main` from its arguments on, behind the name of the program.
  unfoldable pub start : List (List ℕ) → ℕ → Q → Proc Q
  unfolding read_socket
  start [] fuel q = exit minus_one
  start (argument ∷ arguments) fuel q = main (read_socket argument) fuel q

  -- The loop of resp_handler.c, with what was sent. Whether `rcvmsg` fails is not looked at.
  unfoldable pub serve_responses : ℤ → ℕ → S → Proc S
  serve_responses queue zero wire = λ s. (running, s)
  serve_responses queue (suc fuel) wire = do
    quit ← sys e.os graceful_quit
    if not (quit =ℤ pos 0) then pure wire else do
      rcvmsg e.os queue
      quit ← sys e.os graceful_quit
      if not (quit =ℤ pos 0) then pure wire else do
        msg ← λ s. (ret (e.received s.history), s)
        serve_responses queue fuel (process_msg e.socket_send msg wire)

  -- `main` of resp_handler.c
  unfoldable pub main_responses : ℤ → ℕ → S → Proc S
  main_responses client_socket fuel wire = do
    queue ← getmsg e.os resp_queue
    wire' ← serve_responses queue fuel wire
    sys e.os (close client_socket)
    pure wire'
