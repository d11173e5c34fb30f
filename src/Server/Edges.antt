-- ===== src/Server/Edges.antt =====
-- broker/server/req_handler.c and resp_handler.c: the processes between a client machine and the
-- worker. `socket_send` is an argument, with what has been sent.
pub mod RoundTrip
pub mod Ring
pub mod Processes
use sistemas_distribuid.Base.{ℤ, ◌=ℤ◌, not, ◌&&◌, ◌||◌, Bool, true, false, if◌then◌else◌}
use sistemas_distribuid.Ipc.Message.{
  Msg, create, publish, receive, ack_ok, ack_create, ack_no_msg, ack_destroy, ack_error,
}
use sistemas_distribuid.Ipc.MsgQueue.{MsgQueue, sendmsg}

-- `process_message` of req_handler.c, on the queue of the worker. That `sendmsg` fails is only
-- logged.
unfoldable pub process_message : {Q : Type 0} → MsgQueue Q → Msg → ℤ → Q → Q
process_message queue msg resp_handler_pid q =
    if msg.type =ℤ ack_ok
      || (msg.type =ℤ ack_error
          || (msg.type =ℤ ack_create
              || (msg.type =ℤ ack_destroy || (msg.type =ℤ ack_no_msg || msg.type =ℤ receive))))
    then q
    else (let msg' : Msg =
          if msg.type =ℤ create then record msg { mtype = resp_handler_pid } else msg in
        (sendmsg queue msg' q).1)

-- `process_msg` of resp_handler.c
unfoldable pub process_msg : {S : Type 0} → (Msg → S → ℤ × S) → Msg → S → S
process_msg socket_send msg s =
    if not (msg.type =ℤ ack_ok)
      && (not (msg.type =ℤ ack_error)
          && (not (msg.type =ℤ ack_create)
              && (not (msg.type =ℤ ack_destroy) && not (msg.type =ℤ publish))))
    then s
    else (socket_send (record msg { mtype = msg.global_id }) s).1
