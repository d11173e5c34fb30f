-- ===== src/Client/Handlers.antt =====
-- broker/client/broker_req_handler.c and broker_resp_handler.c: the two processes of the local
-- broker, between the queues of the clients and the connection to the server.
pub mod Delivery
pub mod Requests
use sistemas_distribuid.Base.{
  ℕ, ℤ, pos, minus_one, is_neg, ◌=ℤ◌, to_int, Bool, true, false, not, ◌&&◌, ◌||◌, if◌then◌else◌,
  List, Outcome, ret, ◌>>=◌, Option, some, none,
}
use sistemas_distribuid.Ipc.Message.{
  Msg, create, publish, receive, ack_ok, ack_create, ack_destroy, ack_error, ack_no_msg,
}
use sistemas_distribuid.Ipc.Kernel.{Calls}
use sistemas_distribuid.Ipc.MsgQueue.{MsgQueue, sendmsg, rcvmsg_no_wait}
use sistemas_distribuid.Client.BrokerId.{
  BrokerIds, add_local_id, set_global_id, get_global_id, get_local_id, local_id_exists, remove_id,
}

-- The kernel's answers, what a function without `return` leaves, what is in a local variable that
-- is not initialised, the queues, and `socket_send` with what has been sent.
pub record Env (Q S : Type 0) : Type 0 where
  pub calls : Calls
  pub unreturned : ℤ
  pub stale : Msg
  pub queue : MsgQueue Q
  pub socket_send : Msg → S → ℤ × S

-- The table of ids, the queue of responses, that of incoming messages, and the connection.
pub record World (Q S : Type 0) : Type 0 where
  pub ids : BrokerIds
  pub resp : Q
  pub incoming : Q
  pub conn : S

module _ {Q S : Type 0} (e : Env Q S) where
  -- That `sendmsg` and `socket_send` fail is only logged.
  abbrev pub respond : Msg → World Q S → World Q S
  respond msg w = record w { resp = (sendmsg e.queue msg w.resp).1 }

  abbrev pub to_server : Msg → World Q S → World Q S
  to_server msg w = record w { conn = (e.socket_send msg w.conn).1 }

  unfoldable pub process_receive : Msg → World Q S → World Q S
  process_receive msg w =
      let (res, incoming_msg, incoming) = rcvmsg_no_wait e.queue msg.mtype e.stale w.incoming in
      let w' : World Q S = record w { incoming = incoming } in
      if is_neg res
      then respond (record incoming_msg { type = ack_error }) w'
      else if res =ℤ pos 0
      then respond (record incoming_msg { mtype = msg.mtype; type = ack_no_msg }) w'
      else respond (record incoming_msg { type = ack_ok }) w'

  -- `msg->type != CREATE && !local_id_exists(broker_ids, msg->mtype)`
  abbrev pub is_unknown : Msg → World Q S → Outcome (Bool × World Q S)
  is_unknown msg w =
      if msg.type =ℤ create
      then ret (false, w)
      else (local_id_exists e.calls (to_int msg.mtype) w.ids >>= λ (b, ids).
          ret (not b, record w { ids = ids }))

  abbrev pub is_ack : ℤ → Bool
  is_ack type =
      type =ℤ ack_ok
      || (type =ℤ ack_error || (type =ℤ ack_create || (type =ℤ ack_destroy || type =ℤ ack_no_msg)))

  -- The message to the server, with the client's id replaced.
  unfoldable pub forward : Msg → World Q S → Outcome (World Q S)
  forward msg w =
      if msg.type =ℤ create
      then (add_local_id e.calls e.unreturned (to_int msg.mtype) w.ids >>= λ (r, ids).
          let w' : World Q S = record w { ids = ids } in
          ret (if is_neg r then w' else to_server msg w'))
      else (get_global_id e.calls (to_int msg.mtype) w.ids >>= λ (g, ids).
          ret (to_server (record msg { mtype = g }) (record w { ids = ids })))

  -- `process_msg` of broker_req_handler.c
  unfoldable pub process_msg : Msg → World Q S → Outcome (World Q S)
  process_msg msg w = is_unknown msg w >>= λ (unknown, w').
      if unknown
      then ret w'
      else if is_ack msg.type
      then ret w'
      else if msg.type =ℤ receive
      then ret (process_receive msg w')
      else forward msg w'

  -- `process_publish` of broker_resp_handler.c
  unfoldable pub process_publish : Msg → World Q S → Outcome (World Q S)
  process_publish msg w = get_local_id e.calls (to_int msg.mtype) w.ids >>= λ (l, ids).
      ret (record w {
        ids = ids;
        incoming = (sendmsg e.queue (record msg { mtype = l }) w.incoming).1;
      })

  -- The local id that a response goes to; the id of a client that is destroyed is removed.
  unfoldable pub receiver : Msg → World Q S → Outcome (ℤ × World Q S)
  receiver msg w =
      if msg.type =ℤ ack_create
      then (set_global_id e.calls (to_int msg.mtype) w.ids >>= λ (l, ids).
          ret (l, record w { ids = ids }))
      else (get_local_id e.calls (to_int msg.mtype) w.ids >>= λ (l, ids).
          if msg.type =ℤ ack_destroy
          then (remove_id e.calls l ids >>= λ (i, ids'). ret (l, record w { ids = ids' }))
          else ret (l, record w { ids = ids }))

  -- `process_message` of broker_resp_handler.c
  unfoldable pub process_message : Msg → World Q S → Outcome (World Q S)
  process_message msg w =
      if msg.type =ℤ publish
      then process_publish msg w
      else (receiver msg w >>= λ (l, w'). ret (respond (record msg { mtype = l }) w'))
