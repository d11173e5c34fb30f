-- ===== src/System.antt =====
-- A request of a client on its way through broker/: client/broker.c, broker_req_handler.c,
-- server/req_handler.c, worker.c, resp_handler.c, client/broker_resp_handler.c, and broker.c again.
pub mod Publish
pub mod Create
pub mod Refused
pub mod Destroy
use sistemas_distribuid.Base.{
  ℕ, ℤ, pos, minus_one, is_neg, ◌=ℤ◌, ◌≡◌, refl, inl, inr, true, false, if◌then◌else◌, Bool, List,
  some, ret, ◌⊎◌,
}
use sistemas_distribuid.Ipc.Message.{Msg, strncpy, max_topic_length, ack_ok, ack_error, ack_destroy}
use sistemas_distribuid.Ipc.Kernel.{IsUp}
use sistemas_distribuid.Ipc.MsgQueue.{sendmsg}
use sistemas_distribuid.Server.GlobalId as GlobalId
use sistemas_distribuid.Server.Worker as Worker
use sistemas_distribuid.Server.Worker.{handle}
use sistemas_distribuid.Server.Worker.Deliver.{mtype_of}
use sistemas_distribuid.Server.Edges as Edges
use sistemas_distribuid.Server.Edges.RoundTrip.{subscribe-answer}
use sistemas_distribuid.Client.BrokerId.{BrokerIds, IsValid}
use sistemas_distribuid.Client.Handlers.{
  Env, World, process_msg, process_message, to_server, respond,
}
use sistemas_distribuid.Client.Handlers.Delivery.{IsPaired}
use sistemas_distribuid.Client.Handlers.Requests.{process_msg-forward, process_message-respond}
use sistemas_distribuid.Client.Library.{Port, subscribe_msg, expect}

-- The type of the worker's answer, by whether the database has refused.
answer_type : Bool → ℤ
answer_type b = if b then ack_error else ack_ok

answer_type-ack :
    (b : Bool) (type : ℤ)
    → type ≡ answer_type b
    → (type ≡ ack_ok) ⊎ ((type ≡ ack_error) ⊎ (type ≡ ack_destroy))
unfolding answer_type
answer_type-ack true type h = inr (inl h)
answer_type-ack false type h = inl h

-- What `subscribe` returns for it.
expect-answer :
    (b : Bool) (type : ℤ)
    → type ≡ answer_type b
    → (if type =ℤ ack_ok then pos 0 else minus_one) ≡ (if b then minus_one else pos 0)
unfolding answer_type
expect-answer true type h = rw h refl
expect-answer false type h = rw h refl

-- Where the tables are valid and their semaphores and segments are there: a request to subscribe,
-- from a client that its machine has paired with a global id which the server knows, goes through
-- the handlers and the worker under the ids that each of them needs, and comes back under the
-- local id with a type for which subscribe returns 0 exactly where the database has subscribed the
-- global id to the topic, cut to its array.
pub subscribe-trip :
    {Q S D T V R : Type 0} (client : Env Q S) (machine machine' : World Q S) (port : Port Q)
    (server : Worker.Env D T V) (state : Worker.World D T) (socket_send : Msg → R → ℤ × R)
    (local_id global_id pid : ℤ) (topic : List ℕ) (worker_queue : T) (wire : R)
    → IsUp client.calls
    → IsUp server.calls
    → IsValid machine.ids
    → IsValid machine'.ids
    → IsPaired local_id global_id machine.ids
    → IsPaired local_id global_id machine'.ids
    → GlobalId.IsValid state.ids
    → is_neg (mtype_of state.ids global_id) ≡ false
    → let request = subscribe_msg port local_id topic in
      let sent : Msg = record request { mtype = global_id } in
      let subscribed =
        server.db.db_subscribe global_id (strncpy max_topic_length topic) state.conn in
      (process_msg client request machine ≡ ret (to_server client sent machine))
      × (Edges.process_message server.queue sent pid worker_queue
          ≡ (sendmsg server.queue sent worker_queue).1)
      × (answer : Msg) × (state' : Worker.World D T) × (handle server sent state
          ≡ ret (true, answer, state'))
      × (answer.mtype ≡ mtype_of state.ids global_id)
      × (returned : Msg) × (Edges.process_msg socket_send answer wire
          ≡ (socket_send returned wire).1)
      × (ids : BrokerIds) × (process_message client returned machine'
          ≡ ret (
              respond client
                (record returned { mtype = local_id })
                (record machine' { ids = ids })))
      × (expect port ack_ok (some (record returned { mtype = local_id }))
          ≡ (if is_neg subscribed.0 then minus_one else pos 0))
unfolding answer_type
subscribe-trip client machine machine' port server state socket_send l g pid topic worker_queue wire
      up_client up_server valid valid' paired paired' valid_ids known =
    let request : Msg = subscribe_msg port l topic in
    let sent : Msg = record request { mtype = g } in
    let refused : Bool =
      is_neg (server.db.db_subscribe g (strncpy max_topic_length topic) state.conn).0 in
    let (queued, answer, state', handled, addressed, typed, sent_back) =
      subscribe-answer server socket_send sent pid state worker_queue wire up_server valid_ids
        paired.global_int known refl in
    let returned : Msg = record answer { mtype = g } in
    let (ids, responded, _, _) =
      process_message-respond client machine' l g returned up_client valid' paired' refl
        (answer_type-ack refused answer.type typed) in
    (
      process_msg-forward client machine l g request up_client valid paired refl (inl refl),
      queued,
      answer,
      state',
      handled,
      addressed,
      returned,
      sent_back,
      ids,
      responded,
      expect-answer refused answer.type typed,
    )
