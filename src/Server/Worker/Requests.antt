-- ===== src/Server/Worker/Requests.antt =====
-- Requests that end at once: a message that has gone round the ring, and a sender that the table
-- does not know.
use sistemas_distribuid.Base.{
  ◌≡◌, refl, ap, inl, inr, ◌⊎◌, ℤ, pos, to_int, ltb_ℤ, ◌=ℤ◌, =ℤ_iff, false, not, ret, Bool-cases,
  arith,
}
use sistemas_distribuid.Ipc.Message.{Msg, subscribe, publish, ack_error}
use sistemas_distribuid.Ipc.Kernel.{IsUp}
use sistemas_distribuid.Ipc.MsgQueue.{IsMsgQueue, sendmsg}
use sistemas_distribuid.Server.GlobalId.{no_mtype_found_code, IsValid}
use sistemas_distribuid.Server.GlobalId.Table.{get_mtype_lem}
use sistemas_distribuid.Server.Worker.{
  Env, World, process_subscribe, process_publish, publish_from, handle, process_msg, respond,
}
use sistemas_distribuid.Server.Worker.Deliver.{mtype_of, is_local}

-- `mtype_of` knows an id, or is -2.
unknown_code : (x : ℤ) → not (x =ℤ no_mtype_found_code) ≡ false → x ≡ no_mtype_found_code
unknown_code x h = ground (arith, =ℤ_iff x no_mtype_found_code)

module _ {D Q V : Type 0} (e : Env D Q V) where
  -- A publish that carries the broker's own id has gone round the ring: nothing happens.
  pub process_msg-own :
      (msg : Msg) (w : World D Q)
      → msg.type ≡ publish
      → msg.broker_id ≡ e.broker_id
      → process_msg e msg w ≡ ret w
  unfolding process_msg handle process_publish
  process_msg-own msg w t own = rw (t, (=ℤ_iff msg.broker_id e.broker_id).1 own)

  module _ (up : IsUp e.calls) (sound : IsMsgQueue e.queue) where
    respond-refused :
        (m : Msg) (w : World D Q) → m.mtype ≡ no_mtype_found_code → (respond e m w).1 ≡ w
    unfolding sendmsg
    respond-refused m w h = let eq = sound.refuses m w.resp (ap (ltb_ℤ (pos 0)) h) in rw eq

    -- The response to a sender that is not known.
    abbrev refused : Msg → Msg
    refused msg = record msg {
      global_id = to_int msg.mtype;
      mtype = no_mtype_found_code;
      type = ack_error;
    }

    -- Where the table is valid, its semaphore and segment are there and the queue refuses types
    -- that are not positive, a subscribe or a publish from an id that the table does not know
    -- changes nothing, whichever broker id it carries: no copy goes out and no response is queued.
    pub process_msg-unknown :
        (msg : Msg) (w : World D Q)
        → IsValid w.ids
        → is_local w.ids (to_int msg.mtype) ≡ false
        → (msg.type ≡ subscribe) ⊎ (msg.type ≡ publish)
        → process_msg e msg w ≡ ret w
    unfolding process_msg handle process_subscribe process_publish publish_from
    process_msg-unknown msg w valid away (inl t) =
        rw
          (
            t,
            get_mtype_lem (to_int msg.mtype) up valid,
            unknown_code (mtype_of w.ids (to_int msg.mtype)) away,
          )
          (ap ret (respond-refused (refused msg) w refl))
    process_msg-unknown msg w valid away (inr t) =
        let answer = get_mtype_lem (to_int msg.mtype) up valid in
        let code = unknown_code (mtype_of w.ids (to_int msg.mtype)) away in
        elim (Bool-cases (msg.broker_id =ℤ e.broker_id)) [
          | inl own ↦ rw (t, own)
          | inr other ↦
              rw (t, other)
                (elim (Bool-cases (msg.broker_id =ℤ pos 0)) [
                  | inl first ↦
                      rw (first, answer, code)
                        (ap ret (
                          respond-refused (record (refused msg) { broker_id = e.broker_id }) w
                            refl))
                  | inr again ↦ rw (again, answer, code)
                ])
        ]
