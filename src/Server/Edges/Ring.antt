-- ===== src/Server/Edges/Ring.antt =====
-- The way of a publish to the next server of the ring: resp_handler.c of the one server and
-- worker.c of the other.
use sistemas_distribuid.Base.{
  ◌≡◌, refl, inl, inr, ℤ, pos, is_neg, to_int-id, IsInt, ◌=ℤ◌, false, if◌then◌else◌, Bool-cases,
  Outcome, ret, blocked, exits, ◌>>=◌,
}
use sistemas_distribuid.Ipc.Message.{Msg, publish, ack_ok, ack_error}
use sistemas_distribuid.Ipc.Kernel.{IsUp}
use sistemas_distribuid.Server.GlobalId.{GlobalIds, IsValid}
use sistemas_distribuid.Server.GlobalId.Table.{get_mtype_lem}
use sistemas_distribuid.Server.Worker.{
  Env, World, next_server_global_id, handle, process_publish, publish_from, send_to_subs,
  process_msg, respond,
}
use sistemas_distribuid.Server.Worker.Deliver.{mtype_of, address}
use sistemas_distribuid.Server.Edges

-- What `send_to_subs` puts into the queue for the next server, and what arrives there.
abbrev pub forwarded : GlobalIds → Msg → ℤ → Msg
forwarded ids msg s = address msg s (mtype_of ids next_server_global_id)

abbrev pub arrived : GlobalIds → Msg → ℤ → Msg
arrived ids msg s = record (forwarded ids msg s) { mtype = s }

abbrev pub world_of : {D Q : Type 0} → ℤ × World D Q → Outcome (World D Q)
world_of (r, w) = ret w

-- A forwarded publish is not answered: only the world goes on.
silent :
    {D Q : Type 0} (m : Msg) (answer : Msg → World D Q → World D Q) (o : Outcome (ℤ × World D Q))
    → ((o >>= λ (r, w). ret (false, record m { type = if is_neg r then ack_error else ack_ok }, w))
        >>= λ (b, m', w). ret (if b then answer m' w else w))
      ≡ (o >>= world_of)
silent m answer (ret (r, w)) = refl
silent m answer blocked = refl
silent m answer (exits c) = refl

-- A publish that another server forwards, made out to one of its remote subscribers with an id in
-- the range of int, is sent under the id of that subscriber. A worker with a valid table, whose
-- semaphore and segment are there, and whose broker id it does not carry and neither 0, drops it
-- if it does not know that id, whoever else it knows; if it knows it, it delivers to the
-- subscribers as for a publish of its own, and in no case it responds.
pub process_msg-forwarded :
    {D Q V S : Type 0} (e : Env D Q V) (socket_send : Msg → S → ℤ × S) (ids : GlobalIds) (msg : Msg)
    (s : ℤ) (w : World D Q) (c : S)
    → IsUp e.calls
    → IsValid w.ids
    → IsInt s
    → msg.type ≡ publish
    → (msg.broker_id =ℤ e.broker_id) ≡ false
    → (msg.broker_id =ℤ pos 0) ≡ false
    → (Edges.process_msg socket_send (forwarded ids msg s) c
        ≡ (socket_send (arrived ids msg s) c).1)
      × (process_msg e (arrived ids msg s) w ≡ (
          if is_neg (mtype_of w.ids s)
          then ret w
          else (send_to_subs e (address msg s (mtype_of w.ids s)) w >>= world_of)))
unfolding Edges.process_msg process_msg handle process_publish publish_from
process_msg-forwarded e socket_send ids msg s w c up valid int ht other passed = (
  rw ht refl,
  rw (ht, other, passed, to_int-id s int, get_mtype_lem {t = w.ids} s up valid)
      (elim (Bool-cases (is_neg (mtype_of w.ids s))) [
        | inl unknown ↦ rw unknown refl
        | inr known ↦
            rw known (silent (copy s) (λ m' v. (respond e m' v).1) (send_to_subs e (copy s) w))
      ]),
)
  where
    copy : ℤ → Msg
    copy t = record (address msg t (mtype_of w.ids t)) { type = publish }
