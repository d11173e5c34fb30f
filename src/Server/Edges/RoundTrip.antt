-- ===== src/Server/Edges/RoundTrip.antt =====
-- The way of a request to subscribe through the three processes of the server.
use sistemas_distribuid.Base.{
  ◌≡◌, refl, inl, inr, ℤ, is_neg, to_int-id, IsInt, true, false, if◌then◌else◌, Bool-cases, arith,
  ret,
}
use sistemas_distribuid.Ipc.Message.{Msg, subscribe, ack_ok, ack_error}
use sistemas_distribuid.Ipc.Kernel.{IsUp}
use sistemas_distribuid.Ipc.MsgQueue.{sendmsg}
use sistemas_distribuid.Server.GlobalId.{IsValid}
use sistemas_distribuid.Server.GlobalId.Table.{get_mtype_lem}
use sistemas_distribuid.Server.Worker.{Env, World, handle, process_subscribe}
use sistemas_distribuid.Server.Worker.Deliver.{mtype_of}
use sistemas_distribuid.Server.Edges.{process_message, process_msg}

-- With a valid table, a request to subscribe reaches the worker's queue as it is. Where the table
-- knows the client's global id, the worker's answer says if the database has taken the
-- subscription, it is addressed to the response handler of the client's machine, and that handler
-- sends it under the client's global id.
pub subscribe-answer :
    {D Q V S : Type 0} (e : Env D Q V) (socket_send : Msg → S → ℤ × S) (msg : Msg) (pid : ℤ)
    (w : World D Q) (q : Q) (s : S)
    → IsUp e.calls
    → IsValid w.ids
    → IsInt msg.mtype
    → is_neg (mtype_of w.ids msg.mtype) ≡ false
    → msg.type ≡ subscribe
    → (process_message e.queue msg pid q ≡ (sendmsg e.queue msg q).1)
      × (answer : Msg) × (w' : World D Q) × (handle e msg w ≡ ret (true, answer, w'))
      × (answer.mtype ≡ mtype_of w.ids msg.mtype)
      × (answer.type ≡ (
          if is_neg (e.db.db_subscribe msg.mtype msg.payload.topic w.conn).0
          then ack_error
          else ack_ok))
      × (process_msg socket_send answer s ≡ (socket_send (record answer { mtype = msg.mtype }) s).1)
unfolding process_message handle process_subscribe process_msg
subscribe-answer e socket_send msg pid w q s up valid int known ht =
    let id : ℤ = msg.mtype in
    let r = e.db.db_subscribe id msg.payload.topic w.conn in
    let answer : Msg = record msg {
      global_id = id;
      mtype = mtype_of w.ids id;
      type = if is_neg r.0 then ack_error else ack_ok;
    } in
    (
      ground arith,
      answer,
      record w { conn = r.1 },
      rw (ht, to_int-id id int, get_mtype_lem {t = w.ids} id up valid, known) refl,
      refl,
      refl,
      elim (Bool-cases (is_neg r.0)) [ inl failed ↦ rw failed refl | inr good ↦ rw good refl ],
    )
