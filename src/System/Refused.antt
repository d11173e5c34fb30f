-- ===== src/System/Refused.antt =====
-- A client that the server does not take, on its way through broker/, and what it leaves on its
-- machine.
use sistemas_distribuid.Base.{
  suc, ◌<◌, ◌≤◌, ◌≡◌, ◌⊎◌, refl, inl, inr, ℤ, pos, minus_one, is_neg, ◌=ℤ◌, =ℤ_iff, to_int,
  to_int-id, IsInt, ltb_ℤ, true, false, none, some, find_first, find_first-append, ret, arith,
}
use sistemas_distribuid.Ipc.Message.{Msg, create, ack_create, ack_error}
use sistemas_distribuid.Ipc.Kernel.{IsUp}
use sistemas_distribuid.Ipc.MsgQueue.{IsMsgQueue, sendmsg}
use sistemas_distribuid.Server.GlobalId as GlobalId
use sistemas_distribuid.Server.GlobalId.{max_clients}
use sistemas_distribuid.Server.Worker as Worker
use sistemas_distribuid.Server.Worker.{handle}
use sistemas_distribuid.Server.Worker.Total.{process_create_lem}
use sistemas_distribuid.Server.Edges as Edges
use sistemas_distribuid.Client.BrokerId.{BrokerIds, by_global, entries, max_local_clients, IsValid}
use sistemas_distribuid.Client.BrokerId.Table.{get_local_id_lem}
use sistemas_distribuid.Client.BrokerId.Handshake.{pair, IsSettled, set_global_id-first}
use sistemas_distribuid.Client.Handlers.{
  Env, World, process_msg, process_message, receiver, to_server, respond,
}
use sistemas_distribuid.Client.Handlers.Delivery.{pos→nat}
use sistemas_distribuid.Client.Library.{Port, create_msg}
use sistemas_distribuid.System.Create.{process_msg-create}

-- The worker answers with an error and enters nobody.
handle-refused :
    {D T V : Type 0} (e : Worker.Env D T V) (w : Worker.World D T) (msg : Msg) (id : ℤ) (conn : D)
    → IsUp e.calls
    → GlobalId.IsValid w.ids
    → msg.type ≡ create
    → e.db.db_add_user w.conn ≡ (id, conn)
    → (is_neg id ≡ true) ⊎ (max_clients ≤ w.ids.count)
    → handle e msg w
      ≡ ret (true, record msg { global_id = id; type = ack_error }, record w { conn = conn })
unfolding handle
handle-refused e w msg id conn up valid ht stored refused =
    elim (process_create_lem e up msg w valid stored) [
      | inl (_, eq) ↦ simp (ht, eq)
      | inr (inl (good, room, _)) ↦ elim refused [
        | inl bad ↦ absurd (ground arith)
        | inr full ↦ absurd (omega (arith, full, room))
      ]
      | inr (inr (_, _, eq)) ↦ simp (ht, eq)
    ]

-- An error for an id that no client has goes to nobody.
process_message-lost :
    {Q S : Type 0} (e : Env Q S) (w : World Q S) (msg : Msg)
    → IsUp e.calls
    → IsMsgQueue e.queue
    → IsValid w.ids
    → IsInt msg.mtype
    → find_first by_global msg.mtype (entries w.ids) ≡ none
    → msg.type ≡ ack_error
    → process_message e msg w ≡ ret w
unfolding process_message receiver sendmsg
process_message-lost e w msg up sound valid int missing ht =
    rw
      (
        ht,
        to_int-id msg.mtype int,
        get_local_id_lem {t = w.ids} msg.mtype up valid,
        missing,
        sound.refuses (record msg { mtype = minus_one; type = ack_error }) w.resp refl,
      )
      refl

-- A confirmation goes to the first client that waits.
process_message-first :
    {Q S : Type 0} (e : Env Q S) (w : World Q S) (msg : Msg) (l : ℤ)
    → IsUp e.calls
    → IsValid w.ids
    → find_first by_global (pos 0) (entries w.ids) ≡ some (pair l (pos 0))
    → is_neg l ≡ false
    → msg.type ≡ ack_create
    → (ids : BrokerIds) × (process_message e msg w
        ≡ ret (respond e (record msg { mtype = l }) (record w { ids = ids })))
unfolding process_message receiver
process_message-first e w msg l up valid waits nat ht =
    let (ids, assigned) = set_global_id-first {t = w.ids} (to_int msg.mtype) up valid in
    (ids, rw (ht, assigned, waits, nat) refl)

nonzero :
    {P : Type 0} (id : ℤ)
    → (is_neg id ≡ true) ⊎ ((ltb_ℤ (pos 0) id ≡ true) × P)
    → (pos 0 =ℤ id) ≡ false
nonzero id (inl bad) = ground (arith, =ℤ_iff (pos 0) id)
nonzero id (inr (positive, _)) = ground (arith, =ℤ_iff (pos 0) id)

-- Where the tables are valid and their semaphores and segments are there: a client with a positive
-- process id registers, while no other client of its machine waits, what add_local_id leaves is
-- not negative, the table of its machine has room for it and for another client, and the queues of
-- the machine behave as msgsnd is documented; the database gives it no id, or one that is positive
-- while the table of the server is full, and its machine has no client with the id that was given;
-- all ids are in the range of int. Then the server enters nobody, and the error changes nothing on
-- the machine, so that the client gets no response. Its entry goes on waiting: when another client
-- registers, the confirmation that comes next goes to the refused client.
pub create-refused :
    {Q S D T V R : Type 0} (client : Env Q S) (machine there : World Q S) (port : Port Q)
    (server : Worker.Env D T V) (state : Worker.World D T) (socket_send : Msg → R → ℤ × R)
    (pid id : ℤ) (conn : D) (wire : R) (next ack : Msg)
    → IsUp client.calls
    → IsUp server.calls
    → IsMsgQueue client.queue
    → is_neg client.unreturned ≡ false
    → IsValid machine.ids
    → IsSettled machine.ids
    → suc machine.ids.count < max_local_clients
    → IsInt port.pid
    → ltb_ℤ (pos 0) port.pid ≡ true
    → GlobalId.IsValid state.ids
    → server.db.db_add_user state.conn ≡ (id, conn)
    → (is_neg id ≡ true) ⊎ ((ltb_ℤ (pos 0) id ≡ true) × (max_clients ≤ state.ids.count))
    → IsInt id
    → find_first by_global id (entries machine.ids) ≡ none
    → next.type ≡ create
    → IsInt next.mtype
    → ack.type ≡ ack_create
    → let request = create_msg port in
      let sent : Msg = record request { mtype = pid } in
      (waiting : BrokerIds) × (process_msg client request machine
        ≡ ret (to_server client request (record machine { ids = waiting })))
      × (answer : Msg) × (state' : Worker.World D T) × (handle server sent state
          ≡ ret (true, answer, state'))
      × (state'.ids ≡ state.ids)
      × (returned : Msg) × (Edges.process_msg socket_send answer wire
          ≡ (socket_send returned wire).1)
      × (process_message client returned (record there { ids = waiting })
          ≡ ret (record there { ids = waiting }))
      × (ids : BrokerIds) × (process_msg client next (record machine { ids = waiting })
          ≡ ret (to_server client next (record machine { ids = ids })))
      × (ids' : BrokerIds) × (process_message client ack (record there { ids = ids })
          ≡ ret (respond client (record ack { mtype = port.pid }) (record there { ids = ids' })))
unfolding Edges.process_msg
create-refused client machine there port server state socket_send pid id conn wire next ack
      up_client up_server sound good valid settled room int positive valid_ids stored refused int_id
      fresh_g next_create int_next ack_created =
    let request : Msg = create_msg port in
    let sent : Msg = record request { mtype = pid } in
    let (waiting, queued, valid_w, n, es) =
      process_msg-create client machine request up_client good valid (omega (arith, room)) int
        refl in
    let returned : Msg = record sent { global_id = id; type = ack_error; mtype = id } in
    let w₁ : World _ _ = record machine { ids = waiting } in
    let (ids, queued', valid', _, es') =
      process_msg-create client w₁ next up_client good valid_w (omega (arith, room, n)) int_next
        next_create in
    let waits : find_first by_global (pos 0) (entries ids) ≡ some (pair port.pid (pos 0)) =
      rw
        (
          es',
          find_first-append by_global (pos 0) (entries waiting) (pair next.mtype (pos 0)),
          es,
          find_first-append by_global (pos 0) (entries machine.ids) (pair port.pid (pos 0)),
          settled,
        )
        refl in
    let other : (pos 0 =ℤ id) ≡ false = nonzero id refused in
    let missing : find_first by_global id (entries waiting) ≡ none =
      rw
        (
          es,
          find_first-append by_global id (entries machine.ids) (pair port.pid (pos 0)),
          fresh_g,
          other,
        )
        refl in
    let (ids', confirmed) =
      process_message-first client (record there { ids = ids }) ack port.pid up_client valid' waits
        (pos→nat port.pid positive) ack_created in
    (
      waiting,
      queued,
      record sent { global_id = id; type = ack_error },
      record state { conn = conn },
      handle-refused server state sent id conn up_server valid_ids refl stored
          (elim refused [ inl bad ↦ inl bad | inr (_, full) ↦ inr full ]),
      refl,
      returned,
      refl,
      process_message-lost client (record there { ids = waiting }) returned up_client sound valid_w
          int_id missing refl,
      ids,
      queued',
      ids',
      confirmed,
    )
