-- ===== src/System/Create.antt =====
-- A client that registers, on its way through broker/: creabrk of broker.c, the handlers of its
-- machine and the processes of the server, and back.
use sistemas_distribuid.Base.{
  suc, ◌<◌, ◌≡◌, refl, inl, inr, ℤ, pos, is_neg, =ℤ_iff, =ℤ_refl, to_int, to_int-id, IsInt, ltb_ℤ,
  true, false, [], ◌∷◌, ◌++◌, length, length-take, none, some, find_first, find_first-append, ret,
  arith,
}
use sistemas_distribuid.Ipc.Message.{Msg, create, ack_create}
use sistemas_distribuid.Ipc.Kernel.{IsUp}
use sistemas_distribuid.Ipc.MsgQueue.{sendmsg}
use sistemas_distribuid.Server.GlobalId as GlobalId
use sistemas_distribuid.Server.GlobalId.{max_clients}
use sistemas_distribuid.Server.GlobalId.Table.{entry}
use sistemas_distribuid.Server.Worker as Worker
use sistemas_distribuid.Server.Worker.{handle}
use sistemas_distribuid.Server.Worker.Deliver.{mtype_of}
use sistemas_distribuid.Server.Worker.Total.{process_create_lem}
use sistemas_distribuid.Server.Edges as Edges
use sistemas_distribuid.Client.BrokerId.{
  BrokerIds, by_local, by_global, entries, max_local_clients, IsValid,
}
use sistemas_distribuid.Client.BrokerId.Handshake.{
  pair, IsSettled, add_local_id-room, set_global_id_lem,
}
use sistemas_distribuid.Client.Handlers.{
  Env, World, process_msg, process_message, forward, receiver, to_server, respond,
}
use sistemas_distribuid.Client.Handlers.Delivery.{IsPaired, pos→nat}
use sistemas_distribuid.Client.Library.{Port, create_msg, created}

-- On its machine the client comes into the table, where it waits, and the request goes to the
-- server.
pub process_msg-create :
    {Q S : Type 0} (e : Env Q S) (w : World Q S) (msg : Msg)
    → IsUp e.calls
    → is_neg e.unreturned ≡ false
    → IsValid w.ids
    → w.ids.count < max_local_clients
    → IsInt msg.mtype
    → msg.type ≡ create
    → (ids : BrokerIds) × (process_msg e msg w ≡ ret (to_server e msg (record w { ids = ids })))
      × IsValid ids
      × (ids.count ≡ suc w.ids.count)
      × (entries ids ≡ entries w.ids ++ pair msg.mtype (pos 0) ∷ [])
unfolding process_msg forward
process_msg-create e w msg up good valid room int ht =
    let (ids, added, valid', n, es) =
      add_local_id-room {t = w.ids} e.unreturned msg.mtype up valid room in
    (ids, rw (ht, to_int-id msg.mtype int, added, good) refl, valid', n, es)

-- What the confirmation that comes next makes of it.
process_message-created :
    {Q S : Type 0} (e : Env Q S) (w : World Q S) (t : BrokerIds) (msg : Msg) (local_id : ℤ)
    → IsUp e.calls
    → IsValid w.ids
    → IsValid t
    → IsSettled t
    → w.ids.count ≡ suc t.count
    → entries w.ids ≡ entries t ++ pair local_id (pos 0) ∷ []
    → is_neg local_id ≡ false
    → IsInt msg.mtype
    → msg.type ≡ ack_create
    → (ids : BrokerIds) × (process_message e msg w
        ≡ ret (respond e (record msg { mtype = local_id }) (record w { ids = ids })))
      × IsValid ids
      × (entries ids ≡ entries t ++ pair local_id msg.mtype ∷ [])
unfolding process_message receiver
process_message-created e w t msg l up valid valid_t settled n es nat int ht =
    let len : length (entries t) ≡ t.count =
      length-take t.count t.ids (omega (arith, valid_t.whole, valid_t.room)) in
    let (ids, assigned, valid', es') =
      set_global_id_lem {t = w.ids} msg.mtype l (entries t) up valid (omega (arith, n, len)) es
        settled in
    (ids, rw (ht, to_int-id msg.mtype int, assigned, nat) refl, valid', es')

-- The two ids of a client behind the others of its table, which has neither of them.
appended-IsPaired :
    (t ids : BrokerIds) (l g : ℤ)
    → entries ids ≡ entries t ++ pair l g ∷ []
    → find_first by_local l (entries t) ≡ none
    → find_first by_global g (entries t) ≡ none
    → IsInt l
    → IsInt g
    → ltb_ℤ (pos 0) l ≡ true
    → is_neg g ≡ false
    → IsPaired l g ids
appended-IsPaired t ids l g es fresh_l fresh_g int_l int_g positive nat = record {
  by_its_local =
      rw (es, find_first-append by_local l (entries t) (pair l g), fresh_l, =ℤ_refl l) refl;
  by_its_global =
      rw (es, find_first-append by_global g (entries t) (pair l g), fresh_g, =ℤ_refl g) refl;
  local_int = int_l;
  global_int = int_g;
  local_pos = positive;
  global_nat = nat;
}

appended-IsSettled :
    (t ids : BrokerIds) (l g : ℤ)
    → entries ids ≡ entries t ++ pair l g ∷ []
    → IsSettled t
    → ltb_ℤ (pos 0) g ≡ true
    → IsSettled ids
appended-IsSettled t ids l g es settled positive =
    rw (es, find_first-append by_global (pos 0) (entries t) (pair l g), settled)
      (ground (arith, =ℤ_iff g (pos 0)))

-- The worker enters the client for the response handler of its machine.
handle-create :
    {D T V : Type 0} (e : Worker.Env D T V) (w : Worker.World D T) (msg : Msg) (id : ℤ) (conn : D)
    → IsUp e.calls
    → GlobalId.IsValid w.ids
    → w.ids.count < max_clients
    → IsInt msg.mtype
    → is_neg msg.mtype ≡ false
    → msg.type ≡ create
    → e.db.db_add_user w.conn ≡ (id, conn)
    → is_neg id ≡ false
    → find_first GlobalId.key id (GlobalId.entries w.ids) ≡ none
    → (w' : Worker.World D T) × (handle e msg w
        ≡ ret (true, record msg { global_id = id; type = ack_create }, w'))
      × GlobalId.IsValid w'.ids
      × (mtype_of w'.ids id ≡ msg.mtype)
unfolding handle
handle-create e w msg id conn up valid room int nat ht stored nat_id fresh =
    elim (process_create_lem e up msg w valid stored) [
      | inl (bad, _) ↦ absurd (ground arith)
      | inr (inl (_, _, (ids, eq, valid', es))) ↦ (
        record w { conn = conn; ids = ids },
        simp (ht, eq),
        valid',
        rw
            (
              es,
              find_first-append GlobalId.key id (GlobalId.entries w.ids)
                  (entry id (to_int msg.mtype)),
              fresh,
              =ℤ_refl id,
              to_int-id msg.mtype int,
              nat,
            )
            refl,
      )
      | inr (inr (_, full, _)) ↦ absurd (omega (arith, full, room))
    ]

-- Where the tables are valid and their semaphores and segments are there: a client registers, of
-- which and of whose id the table of its machine, with room, and that of the server, with room,
-- know nothing, where no other client of its machine waits, what add_local_id leaves is not
-- negative, and the database gives it a positive id, all ids being in the range of int: its
-- request goes to the worker under the id of its response handler, the confirmation comes back
-- under the local id, for which creabrk returns that id; then the tables are valid again, nobody
-- waits, the machine has paired the two ids, and the server knows the global id under that
-- response handler.
pub create-trip :
    {Q S D T V R : Type 0} (client : Env Q S) (machine there : World Q S) (port : Port Q)
    (server : Worker.Env D T V) (state : Worker.World D T) (socket_send : Msg → R → ℤ × R)
    (pid id : ℤ) (conn : D) (worker_queue : T) (wire : R)
    → IsUp client.calls
    → IsUp server.calls
    → is_neg client.unreturned ≡ false
    → IsValid machine.ids
    → IsSettled machine.ids
    → machine.ids.count < max_local_clients
    → IsInt port.pid
    → ltb_ℤ (pos 0) port.pid ≡ true
    → find_first by_local port.pid (entries machine.ids) ≡ none
    → GlobalId.IsValid state.ids
    → state.ids.count < max_clients
    → IsInt pid
    → is_neg pid ≡ false
    → server.db.db_add_user state.conn ≡ (id, conn)
    → IsInt id
    → ltb_ℤ (pos 0) id ≡ true
    → find_first by_global id (entries machine.ids) ≡ none
    → find_first GlobalId.key id (GlobalId.entries state.ids) ≡ none
    → let request = create_msg port in
      let sent : Msg = record request { mtype = pid } in
      (waiting : BrokerIds) × (process_msg client request machine
        ≡ ret (to_server client request (record machine { ids = waiting })))
      × (Edges.process_message server.queue request pid worker_queue
          ≡ (sendmsg server.queue sent worker_queue).1)
      × (answer : Msg) × (state' : Worker.World D T) × (handle server sent state
          ≡ ret (true, answer, state'))
      × (answer.mtype ≡ pid)
      × (returned : Msg) × (Edges.process_msg socket_send answer wire
          ≡ (socket_send returned wire).1)
      × (ids : BrokerIds) × (process_message client returned (record there { ids = waiting })
          ≡ ret
              (respond client (record returned { mtype = port.pid }) (record there { ids = ids })))
      × (created port (some (record returned { mtype = port.pid })) ≡ port.pid)
      × (IsValid ids × IsSettled ids × IsPaired port.pid id ids)
      × (GlobalId.IsValid state'.ids × (mtype_of state'.ids id ≡ pid))
unfolding Edges.process_message handle Edges.process_msg
create-trip client machine there port server state socket_send pid id conn worker_queue wire
      up_client up_server good valid settled room int positive fresh_l valid_ids room_ids int_pid
      nat_pid stored int_id positive_id fresh_g fresh_id =
    let request : Msg = create_msg port in
    let sent : Msg = record request { mtype = pid } in
    let nat : is_neg id ≡ false = pos→nat id positive_id in
    let (waiting, queued, valid_w, n, es_w) =
      process_msg-create client machine request up_client good valid room int refl in
    let (state', handled, valid', entered) =
      handle-create server state sent id conn up_server valid_ids room_ids int_pid nat_pid refl
        stored nat fresh_id in
    let answer : Msg = record sent { global_id = id; type = ack_create } in
    let returned : Msg = record answer { mtype = id } in
    let (ids, confirmed, valid_i, es) =
      process_message-created client (record there { ids = waiting }) machine.ids returned port.pid
        up_client valid_w valid settled n es_w (pos→nat port.pid positive) int_id refl in
    (
      waiting,
      queued,
      refl,
      answer,
      state',
      handled,
      refl,
      returned,
      refl,
      ids,
      confirmed,
      refl,
      (
        valid_i,
        appended-IsSettled machine.ids ids port.pid id es settled positive_id,
        appended-IsPaired machine.ids ids port.pid id es fresh_l fresh_g int int_id positive nat,
      ),
      (valid', entered),
    )
