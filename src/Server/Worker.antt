-- ===== src/Server/Worker.antt =====
-- broker/server/worker.c. The database connection, the response queue and the vector are
-- interfaces; `exit`, `p` and `v` are those of the global id table.
pub mod Deliver
pub mod Loop
pub mod Publish
pub mod Requests
pub mod Total
pub mod Process
use sistemas_distribuid.Base.{
  ℕ, zero, suc, ◌≡◌, ℤ, pos, minus_one, is_neg, ◌=ℤ◌, to_int, Bool, true, false, not, ◌&&◌, ◌||◌,
  if◌then◌else◌, List, [], ◌∷◌, Outcome, ret, ◌>>=◌,
}
use sistemas_distribuid.Ipc.Message.{
  Msg, create, subscribe, publish, destroy, ack_ok, ack_create, ack_destroy, ack_error,
}
use sistemas_distribuid.Ipc.Kernel.{Calls}
use sistemas_distribuid.Ipc.MsgQueue.{MsgQueue, sendmsg}
use sistemas_distribuid.Ipc.Vector.{Vector}
use sistemas_distribuid.Server.GlobalId.{
  GlobalIds, no_mtype_found_code, add_global_id, get_mtype, remove_global_id,
}

-- broker/server/ring_connection.h
abbrev pub next_server_global_id : ℤ
next_server_global_id = pos 0

-- broker/server/db-connection.h
pub record Db (D V : Type 0) : Type 0 where
  pub db_add_user : D → ℤ × D
  pub db_subscribe : ℤ → List ℕ → D → ℤ × D
  pub db_get_subscribed : List ℕ → V → D → ℤ × V × D
  pub db_delete : ℤ → D → ℤ × D

-- `BROKER_ID` of server.h is set for each server before it is built, to a number of its own.
pub record Env (D Q V : Type 0) : Type 0 where
  pub broker_id : ℤ
  pub calls : Calls
  pub db : Db D V
  pub queue : MsgQueue Q
  pub vector : Vector V

-- The global id table, the connection to the database and the response queue.
pub record World (D Q : Type 0) : Type 0 where
  pub ids : GlobalIds
  pub conn : D
  pub resp : Q

-- One round of the loop of `send_to_subs`: it breaks off, or goes on.
pub data Round (D Q : Type 0) : Type 0 where
  failed : World D Q → Round D Q
  next : Bool → Msg → World D Q → Round D Q

module _ {D Q V : Type 0} (e : Env D Q V) where
  -- `get_mtype` on the table of the world
  abbrev pub lookup_mtype : ℤ → World D Q → Outcome (ℤ × World D Q)
  lookup_mtype global_id w =
      get_mtype e.calls global_id w.ids >>= λ (m, ids). ret (m, record w { ids = ids })

  abbrev pub respond : Msg → World D Q → ℤ × World D Q
  respond msg w = let (r, q) = sendmsg e.queue msg w.resp in (r, record w { resp = q })

  unfoldable pub process_create : Msg → World D Q → Outcome (Msg × World D Q)
  process_create msg w =
      let (id, conn) = e.db.db_add_user w.conn in
      let w' : World D Q = record w { conn = conn } in
      let msg' : Msg = record msg { global_id = id } in
      if is_neg id
      then ret (record msg' { type = ack_error }, w')
      else (add_global_id e.calls id (to_int msg.mtype) w.ids >>= λ (r, ids). ret (
        record msg' { type = if is_neg r then ack_error else ack_create },
        record w' { ids = ids },
      ))

  unfoldable pub process_subscribe : Msg → World D Q → Outcome (Msg × World D Q)
  process_subscribe msg w =
      let id : ℤ = to_int msg.mtype in
      lookup_mtype id w >>= λ (m, w').
      let msg' : Msg = record msg { global_id = id; mtype = m } in
      if is_neg m
      then ret (record msg' { type = ack_error }, w')
      else (let (r, conn) = e.db.db_subscribe id msg.payload.topic w'.conn in
          ret (
            record msg' { type = if is_neg r then ack_error else ack_ok },
            record w' { conn = conn },
          ))

  -- What follows a `sendmsg` in the loop.
  abbrev sent_or_failed : Bool → Msg → ℤ × World D Q → Round D Q
  sent_or_failed already_sent msg (r, w) = if is_neg r then failed w else next already_sent msg w

  unfoldable pub send_one : Bool → ℤ → Msg → World D Q → Outcome (Round D Q)
  send_one already_sent sub_id msg w = lookup_mtype sub_id w >>= λ (m, w').
      let msg' : Msg = record msg { global_id = sub_id; mtype = m } in
      if is_neg m && not (m =ℤ no_mtype_found_code)
      then ret (failed w')
      else if m =ℤ no_mtype_found_code
      then (if already_sent
          then ret (next already_sent msg' w')
          else (lookup_mtype next_server_global_id w' >>= λ (n, w'').
              let forward : Msg = record msg' { mtype = n } in
              ret (sent_or_failed true forward (respond forward w''))))
      else ret (sent_or_failed already_sent msg' (respond msg' w'))

  -- `for (int i = 0; i < vector_size(&subscribed); i++)`, with the rounds that are left.
  unfoldable pub send_loop : V → ℕ → ℕ → Bool → Msg → World D Q → Outcome (ℤ × World D Q)
  send_loop subscribed zero i already_sent msg w = ret (pos 0, w)
  send_loop subscribed (suc rounds) i already_sent msg w =
      send_one already_sent (e.vector.vector_item_at subscribed i) msg w >>= λ round. elim round [
        | failed w' ↦ ret (minus_one, w')
        | next already_sent' msg' w' ↦ send_loop subscribed rounds (suc i) already_sent' msg' w'
      ]

  unfoldable pub send_to_subs : Msg → World D Q → Outcome (ℤ × World D Q)
  send_to_subs msg w =
      let (r, subscribed, conn) =
        e.db.db_get_subscribed msg.payload.topic e.vector.vector_new w.conn in
      let w' : World D Q = record w { conn = conn } in
      if is_neg r
      then ret (minus_one, w')
      else send_loop subscribed (e.vector.vector_size subscribed) 0 false msg w'

  -- The publish that follows the test of the broker id.
  unfoldable pub publish_from : Bool → Msg → World D Q → Outcome (Bool × Msg × World D Q)
  publish_from send_ack msg w =
      let id : ℤ = to_int msg.mtype in
      lookup_mtype id w >>= λ (m, w').
      let msg' : Msg = record msg { global_id = id; mtype = m } in
      if is_neg m
      then ret (send_ack, record msg' { type = ack_error }, w')
      else (send_to_subs msg' w' >>= λ (r, w'').
          ret (send_ack, record msg' { type = if is_neg r then ack_error else ack_ok }, w''))

  -- The result says if the message goes back to the response handler.
  unfoldable pub process_publish : Msg → World D Q → Outcome (Bool × Msg × World D Q)
  unfolding publish_from
  process_publish msg w =
      if msg.broker_id =ℤ e.broker_id
      then ret (false, msg, w)
      else if msg.broker_id =ℤ pos 0
      then publish_from true (record msg { broker_id = e.broker_id }) w
      else publish_from false msg w

  unfoldable pub process_destroy : Msg → World D Q → Outcome (Msg × World D Q)
  process_destroy msg w =
      let id : ℤ = to_int msg.mtype in
      lookup_mtype id w >>= λ (m, w').
      let (r, conn) = e.db.db_delete id w'.conn in
      remove_global_id e.calls id w'.ids >>= λ (i, ids). ret (
        record msg {
          global_id = id;
          mtype = m;
          type = if is_neg m || (is_neg r || is_neg i) then ack_error else ack_destroy;
        },
        record w' { conn = conn; ids = ids },
      )

  -- The dispatch on the type, with whether a response is sent.
  unfoldable pub handle : Msg → World D Q → Outcome (Bool × Msg × World D Q)
  handle msg w =
      if msg.type =ℤ create
      then (process_create msg w >>= λ (m, w'). ret (true, m, w'))
      else if msg.type =ℤ subscribe
      then (process_subscribe msg w >>= λ (m, w'). ret (true, m, w'))
      else if msg.type =ℤ publish
      then process_publish msg w
      else if msg.type =ℤ destroy
      then (process_destroy msg w >>= λ (m, w'). ret (true, m, w'))
      else ret (true, record msg { type = ack_error }, w)

  -- That `sendmsg` fails is only logged.
  unfoldable pub process_msg : Msg → World D Q → Outcome (World D Q)
  process_msg msg w = handle msg w >>= λ (send_response, m, w').
      ret (if send_response then (respond m w').1 else w')

  -- The loop of `main` over the messages that it receives until it is stopped.
  unfoldable pub worker : List Msg → World D Q → Outcome (World D Q)
  worker [] w = ret w
  worker (msg ∷ msgs) w = process_msg msg w >>= worker msgs
