-- ===== src/Client/Library.antt =====
-- broker/client/broker.c: the functions that a client calls. What `getmsg` returns for the two
-- queues, the process id, and what the wait for a response brings are arguments.
pub mod Answers
use sistemas_distribuid.Base.{
  ℕ, ℤ, pos, minus_one, is_neg, ◌=ℤ◌, Bool, true, false, if◌then◌else◌, Option, none, some, List,
}
use sistemas_distribuid.Ipc.Message.{
  Msg, Payload, max_topic_length, max_msg_length, strncpy, create, destroy, ack_ok, ack_create,
  ack_no_msg, ack_destroy,
}
use sistemas_distribuid.Ipc.Message
use sistemas_distribuid.Ipc.MsgQueue.{MsgQueue, sendmsg}

pub record Port (Q : Type 0) : Type 0 where
  pub req_queue : ℤ
  pub resp_queue : ℤ
  pub pid : ℤ
  -- the message on the stack before it is filled
  pub stale : Msg
  pub queue : MsgQueue Q
  -- `msgrcv` for a type: none where it fails
  pub msgrcv : ℤ → Option Msg

module _ {Q : Type 0} (port : Port Q) where
  unfoldable pub send : Msg → Q → ℤ × Q
  send msg q = if is_neg port.req_queue then (minus_one, q) else sendmsg port.queue msg q

  unfoldable pub recv : ℤ → Option Msg
  recv id = if is_neg port.resp_queue then none else port.msgrcv id

  -- A request and its response: none where the function returns -1 before it reads the type.
  unfoldable pub exchange : ℤ → Msg → Q → Option Msg × Q
  exchange id msg q = let (r, q') = send msg q in if is_neg r then (none, q') else (recv id, q')

  abbrev pub create_msg : Msg
  create_msg = record port.stale { mtype = port.pid; type = create }

  -- The id that a confirmed client gets.
  abbrev pub created : Option Msg → ℤ
  created none = minus_one
  created (some m) = if m.type =ℤ ack_create then m.mtype else minus_one

  unfoldable pub creabrk : Q → ℤ × Q
  creabrk q = let (a, q') = exchange port.pid create_msg q in (created a, q')

  -- The result of a request whose response has to have this type.
  abbrev pub expect : ℤ → Option Msg → ℤ
  expect type none = minus_one
  expect type (some m) = if m.type =ℤ type then pos 0 else minus_one

  -- The message that `publish` sends.
  abbrev pub publish_msg : ℤ → List ℕ → List ℕ → Msg
  publish_msg id message topic = record port.stale {
    mtype = id;
    type = Message.publish;
    broker_id = pos 0;
    payload = record {
      msg = strncpy max_msg_length message;
      topic = strncpy max_topic_length topic;
    };
  }

  unfoldable pub publish : ℤ → List ℕ → List ℕ → Q → ℤ × Q
  publish id message topic q =
      let (a, q') = exchange id (publish_msg id message topic) q in (expect ack_ok a, q')

  abbrev pub subscribe_msg : ℤ → List ℕ → Msg
  subscribe_msg id topic = record port.stale {
    mtype = id;
    type = Message.subscribe;
    payload = record { msg = port.stale.payload.msg; topic = strncpy max_topic_length topic };
  }

  unfoldable pub subscribe : ℤ → List ℕ → Q → ℤ × Q
  subscribe id topic q =
      let (a, q') = exchange id (subscribe_msg id topic) q in (expect ack_ok a, q')

  -- With the payload that is stored, if any.
  abbrev pub received : Option Msg → ℤ × Option Payload
  received none = (minus_one, none)
  received (some m) =
      if m.type =ℤ ack_ok
      then (pos 1, some m.payload)
      else if m.type =ℤ ack_no_msg
      then (pos 0, none)
      else (minus_one, none)

  unfoldable pub receive : ℤ → Q → ℤ × Option Payload × Q
  receive id q =
      let (a, q') = exchange id (record port.stale { mtype = id; type = Message.receive }) q in
      let (r, payload) = received a in (r, payload, q')

  abbrev pub destroy_msg : ℤ → Msg
  destroy_msg id = record port.stale { mtype = id; type = destroy }

  unfoldable pub delbrk : ℤ → Q → ℤ × Q
  delbrk id q = let (a, q') = exchange id (destroy_msg id) q in (expect ack_destroy a, q')
