-- ===== src/Server/Worker/Process.antt =====
-- broker/server/worker.c: `main`, as a process; and db_connect and db_disconnect of
-- db-connection.c.
pub mod Handled
use sistemas_distribuid.Base.{
  ℕ, zero, suc, ℤ, pos, minus_one, is_neg, ◌=ℤ◌, if◌then◌else◌, not, List,
}
use sistemas_distribuid.Ipc.Message.{Msg}
use sistemas_distribuid.Server.GlobalId.{global_ids_get}
use sistemas_distribuid.Server.Worker as Worker
use sistemas_distribuid.Server.Worker.{World, process_msg}
use sistemas_distribuid.Server.Processes.{worker_queue, resp_queue}
use sistemas_distribuid.Os.{Os, Event, close, graceful_quit}
use sistemas_distribuid.Os.Proc.{Proc, ret, running, pure, exit, sys, lift, ◌>>=◌, ◌>>◌}
use sistemas_distribuid.Os.Calls.{getmsg, rcvmsg, create_client_socket}

abbrev pub db_port : ℕ
db_port = 3307

-- What the worker runs in: the answers of the kernel, what `msg` holds behind `rcvmsg`, and what
-- each message is handled in.
pub record Host (D Q V : Type 0) : Type 0 where
  pub os : Os
  pub received : List Event → Msg
  pub env : Worker.Env D Q V

unfoldable pub get_worker_queue : Os → Proc ℤ
get_worker_queue os = do
  queue ← getmsg os worker_queue
  if is_neg queue then exit minus_one else pure queue

unfoldable pub get_resp_queue : Os → Proc ℤ
get_resp_queue os = do
  queue ← getmsg os resp_queue
  if is_neg queue then exit minus_one else pure queue

unfoldable pub db_connect : Os → Proc ℤ
db_connect os = create_client_socket os db_port

-- That `close` fails is only logged.
unfoldable pub db_disconnect : Os → ℤ → Proc ℤ
db_disconnect os db_socket = do sys os (close db_socket); pure (pos 0)

module _ {D Q V : Type 0} (e : Host D Q V) where
  -- The loop of `main`, for so many rounds at most. Whether `rcvmsg` fails is not looked at.
  unfoldable pub serve : ℤ → ℕ → World D Q → Proc (World D Q)
  serve queue zero w = λ s. (running, s)
  serve queue (suc fuel) w = do
    quit ← sys e.os graceful_quit
    if not (quit =ℤ pos 0) then pure w else do
      rcvmsg e.os queue
      quit ← sys e.os graceful_quit
      if not (quit =ℤ pos 0) then pure w else do
        msg ← λ s. (ret (e.received s.history), s)
        w' ← lift (process_msg e.env msg w)
        serve queue fuel w'

  unfoldable pub main : ℕ → World D Q → Proc (World D Q)
  main fuel w = do
    queue ← get_worker_queue e.os
    get_resp_queue e.os
    lift (global_ids_get e.env.calls)
    db_connection ← db_connect e.os
    w' ← serve queue fuel w
    db_disconnect e.os db_connection
    pure w'
