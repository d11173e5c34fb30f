-- ===== src/System/Destroy.antt =====
-- A client that deletes itself, on its way through broker/: delbrk of broker.c, the handlers of its
-- machine and the processes of the server, and back.
use sistemas_distribuid.Base.{
  ◌≡◌, refl, ◌∙◌, inl, inr, ◌⊎◌, ℤ, pos, minus_one, is_neg, ◌=ℤ◌, to_int-id, IsInt, Bool, ◌||◌,
  true, false, if◌then◌else◌, Option, none, some, is_none, Distinct, find_first-erase_self,
  erase_first, ret, arith,
}
use sistemas_distribuid.Ipc.Message.{Msg, destroy, ack_ok, ack_error, ack_destroy}
use sistemas_distribuid.Ipc.Kernel.{IsUp}
use sistemas_distribuid.Ipc.MsgQueue.{sendmsg}
use sistemas_distribuid.Server.GlobalId as GlobalId
use sistemas_distribuid.Server.GlobalId.{no_mtype_found_code}
use sistemas_distribuid.Server.GlobalId.Table.{mtype_code, get_mtype_lem, remove_global_id-erase}
use sistemas_distribuid.Server.GlobalId.Refine.{view}
use sistemas_distribuid.Server.Worker as Worker
use sistemas_distribuid.Server.Worker.{handle, process_destroy}
use sistemas_distribuid.Server.Worker.Deliver.{mtype_of}
use sistemas_distribuid.Server.Edges as Edges
use sistemas_distribuid.Client.BrokerId.{BrokerIds, by_local, entries, IsValid}
use sistemas_distribuid.Client.Handlers.{
  Env, World, process_msg, process_message, to_server, respond,
}
use sistemas_distribuid.Client.Handlers.Delivery.{IsPaired}
use sistemas_distribuid.Client.Handlers.Requests.{process_msg-forward, process_message-respond}
use sistemas_distribuid.Client.Library.{Port, destroy_msg, expect}

-- The type of the worker's answer, by whether the database has refused.
destroy_type : Bool → ℤ
destroy_type b = if b then ack_error else ack_destroy

-- What has a message type is there.
known-there : (o : Option GlobalId.GlobalId) → is_neg (mtype_code o) ≡ false → is_none o ≡ false
known-there none h = absurd (ground arith)
known-there (some e) h = refl

or_false : (b : Bool) → (b || false) ≡ b
or_false b = ground arith

-- The worker takes the client out of its table, whether the database has deleted it or not.
handle-destroy :
    {D T V : Type 0} (e : Worker.Env D T V) (w : Worker.World D T) (msg : Msg)
    → IsUp e.calls
    → GlobalId.IsValid w.ids
    → Distinct GlobalId.key (GlobalId.entries w.ids)
    → IsInt msg.mtype
    → is_neg (mtype_of w.ids msg.mtype) ≡ false
    → msg.type ≡ destroy
    → (w' : Worker.World D T) × (handle e msg w
        ≡ ret (
          true,
          record msg {
            global_id = msg.mtype;
            mtype = mtype_of w.ids msg.mtype;
            type = destroy_type (is_neg (e.db.db_delete msg.mtype w.conn).0);
          },
          w',
        ))
      × GlobalId.IsValid w'.ids
      × (mtype_of w'.ids msg.mtype ≡ no_mtype_found_code)
unfolding handle process_destroy destroy_type
handle-destroy e w msg up valid distinct int known ht =
    let g : ℤ = msg.mtype in
    let (r, ids, removed, valid', es, found) = remove_global_id-erase {t = w.ids} g up valid in
    let there : is_neg r ≡ false = rw found (known-there (view w.ids g) known) in
    (
      record w { conn = (e.db.db_delete g w.conn).1; ids = ids },
      simp (
        ht,
        to_int-id g int,
        get_mtype_lem {t = w.ids} g up valid,
        removed,
        known,
        there,
        or_false (is_neg (e.db.db_delete g w.conn).0),
      ),
      valid',
      rw (es, find_first-erase_self GlobalId.key g (GlobalId.entries w.ids) distinct) refl,
    )

destroy_type-ack :
    (b : Bool) (type : ℤ)
    → type ≡ destroy_type b
    → (type ≡ ack_ok) ⊎ ((type ≡ ack_error) ⊎ (type ≡ ack_destroy))
unfolding destroy_type
destroy_type-ack true type h = inr (inl h)
destroy_type-ack false type h = inr (inr h)

-- What depends on the answer depends on the database.
if_destroyed :
    {A : Type 0} (b : Bool) (x y : A)
    → (if destroy_type b =ℤ ack_destroy then x else y) ≡ (if b then y else x)
unfolding destroy_type
if_destroyed true x y = refl
if_destroyed false x y = refl

-- The response handler sends the answer under the global id.
destroyed-sent :
    {R : Type 0} (socket_send : Msg → R → ℤ × R) (m : Msg) (b : Bool) (wire : R)
    → Edges.process_msg socket_send (record m { type = destroy_type b }) wire
      ≡ (socket_send (record m { type = destroy_type b; mtype = m.global_id }) wire).1
unfolding destroy_type Edges.process_msg
destroyed-sent socket_send m true wire = refl
destroyed-sent socket_send m false wire = refl

-- Where the tables are valid and their semaphores and segments are there: a request to be deleted,
-- from a client that its machine has paired with a global id which the server knows, where the
-- table of the server has no repeated ids, goes to the worker under the global id; the worker
-- takes the id out of its table, whether the database deletes the client or not, and the answer
-- comes back under the local id: delbrk returns 0 and the first entry with the local id is gone
-- from the table of the machine exactly where the database has deleted the client; otherwise
-- delbrk returns -1 and the table has its entries.
pub destroy-trip :
    {Q S D T V R : Type 0} (client : Env Q S) (machine there : World Q S) (port : Port Q)
    (server : Worker.Env D T V) (state : Worker.World D T) (socket_send : Msg → R → ℤ × R)
    (local_id global_id pid : ℤ) (worker_queue : T) (wire : R)
    → IsUp client.calls
    → IsUp server.calls
    → IsValid machine.ids
    → IsValid there.ids
    → IsPaired local_id global_id machine.ids
    → IsPaired local_id global_id there.ids
    → GlobalId.IsValid state.ids
    → Distinct GlobalId.key (GlobalId.entries state.ids)
    → is_neg (mtype_of state.ids global_id) ≡ false
    → let request = destroy_msg port local_id in
      let sent : Msg = record request { mtype = global_id } in
      let refused = is_neg (server.db.db_delete global_id state.conn).0 in
      (process_msg client request machine ≡ ret (to_server client sent machine))
      × (Edges.process_message server.queue sent pid worker_queue
          ≡ (sendmsg server.queue sent worker_queue).1)
      × (answer : Msg) × (state' : Worker.World D T) × (handle server sent state
          ≡ ret (true, answer, state'))
      × (answer.mtype ≡ mtype_of state.ids global_id)
      × (GlobalId.IsValid state'.ids × (mtype_of state'.ids global_id ≡ no_mtype_found_code))
      × (returned : Msg) × (Edges.process_msg socket_send answer wire
          ≡ (socket_send returned wire).1)
      × (ids : BrokerIds) × (process_message client returned there
          ≡ ret
              (respond client (record returned { mtype = local_id }) (record there { ids = ids })))
      × (expect port ack_destroy (some (record returned { mtype = local_id }))
          ≡ (if refused then minus_one else pos 0))
      × IsValid ids
      × (entries ids ≡ (
          if refused then entries there.ids else erase_first by_local local_id (entries there.ids)))
unfolding Edges.process_message
destroy-trip client machine there port server state socket_send l g pid worker_queue wire up_client
      up_server valid valid_there paired paired_there valid_ids distinct known =
    let request : Msg = destroy_msg port l in
    let sent : Msg = record request { mtype = g } in
    let refused : Bool = is_neg (server.db.db_delete g state.conn).0 in
    let (state', handled, valid', gone) =
      handle-destroy server state sent up_server valid_ids distinct paired.global_int known refl in
    let own : Msg = record sent { global_id = g; mtype = mtype_of state.ids g } in
    let returned : Msg = record own { type = destroy_type refused; mtype = g } in
    let (ids, responded, valid_i, es) =
      process_message-respond client there l g returned up_client valid_there paired_there refl
        (destroy_type-ack refused returned.type refl) in
    (
      process_msg-forward client machine l g request up_client valid paired refl (inr (inr refl)),
      refl,
      record own { type = destroy_type refused },
      state',
      handled,
      refl,
      (valid', gone),
      returned,
      destroyed-sent socket_send own refused wire,
      ids,
      responded,
      if_destroyed refused (pos 0) minus_one,
      valid_i,
      es ∙ if_destroyed refused (erase_first by_local l (entries there.ids)) (entries there.ids),
    )
