-- ===== src/System/Publish.antt =====
-- A publish on its way through broker/: from broker.c of one client over the server to the incoming
-- messages of another client's machine, and its answer back.
use mathlib.Core.List.{Memᴰ}
use mathlib.Core.List.Memᴰ as Memᴰ
use mathlib.Core.Bool.{true≢false}
use sistemas_distribuid.Base.{
  ℕ, ℤ, pos, minus_one, is_neg, ◌=ℤ◌, ◌≡◌, refl, ap, ◌∙◌, inl, inr, ◌⊎◌, true, false, Bool,
  Bool-cases, if◌then◌else◌, List, [], ◌∷◌, ◌++◌, take-length, some, ret, to_int-id, IsInt, arith,
}
use sistemas_distribuid.Ipc.Message.{Msg, publish, ack_ok, ack_error}
use sistemas_distribuid.Ipc.Kernel.{IsUp}
use sistemas_distribuid.Ipc.MsgQueue.{IsMsgQueue, sendmsg}
use sistemas_distribuid.Ipc.Vector.{items}
use sistemas_distribuid.Server.GlobalId as GlobalId
use sistemas_distribuid.Server.GlobalId.{GlobalIds}
use sistemas_distribuid.Server.GlobalId.Table.{get_mtype_lem}
use sistemas_distribuid.Server.Worker as Worker
use sistemas_distribuid.Server.Worker.{handle, process_publish, publish_from}
use sistemas_distribuid.Server.Worker.Deliver.{mtype_of, is_local, address, deliveries}
use sistemas_distribuid.Server.Worker.Publish.{send_to_subs_lem}
use sistemas_distribuid.Server.Edges as Edges
use sistemas_distribuid.Client.BrokerId.{BrokerIds, IsValid}
use sistemas_distribuid.Client.Handlers.{
  Env, World, process_msg, process_message, to_server, respond,
}
use sistemas_distribuid.Client.Handlers.Delivery.{IsPaired, process_message-publish}
use sistemas_distribuid.Client.Handlers.Requests.{process_msg-forward, process_message-respond}
use sistemas_distribuid.Client.Library.{Port, publish_msg, expect}
use sistemas_distribuid.System.{answer_type, answer_type-ack}

-- A subscriber with a connection has its copy among the deliveries.
local-copy :
    (ids : GlobalIds) (msg : Msg) (already_sent : Bool) (subs : List ℤ) {s : ℤ}
    → is_local ids s ≡ true
    → Memᴰ s subs
    → Memᴰ (address msg s (mtype_of ids s)) (deliveries ids msg already_sent subs)
unfolding deliveries
local-copy ids msg already_sent [] here m = absurd (Memᴰ.not-nil m)
local-copy ids msg already_sent (x ∷ subs) {s} here m = elim (Memᴰ.cases_cons m) [
  | inl e ↦ rw (← e, here) (Memᴰ.head refl)
  | inr later ↦ elim (Bool-cases (is_local ids x)) [
    | inl near ↦ rw near (Memᴰ.tail (local-copy ids msg already_sent subs here later))
    | inr away ↦ rw away (elim (Bool-cases already_sent) [
      | inl again ↦ rw again (local-copy ids msg true subs here later)
      | inr once ↦ rw once (Memᴰ.tail (local-copy ids msg true subs here later))
    ])
  ]
]

module _ {D T V : Type 0} (e : Worker.Env D T V) where
  -- The message that `process_publish` works on.
  abbrev pub taken : Msg → GlobalIds → ℤ → Msg
  taken msg ids g = record msg {
    type = publish;
    broker_id = e.broker_id;
    global_id = g;
    mtype = mtype_of ids g;
  }

  abbrev pub subscribers : Msg → Worker.World D T → List ℤ
  subscribers msg w =
      items e.vector (e.db.db_get_subscribed msg.payload.topic e.vector.vector_new w.conn).1

  module _ (up : IsUp e.calls) (sound : IsMsgQueue e.queue) where
    -- What the worker makes of it: an error, or all deliveries behind each other.
    handle-publish :
        (msg : Msg) (w : Worker.World D T) (g : ℤ)
        → GlobalId.IsValid w.ids
        → IsInt g
        → is_neg (mtype_of w.ids g) ≡ false
        → (pos 0 =ℤ e.broker_id) ≡ false
        → (failed : Bool) × (w' : Worker.World D T) × (handle e
              (record msg { type = publish; broker_id = pos 0; mtype = g })
              w
            ≡ ret (
              true,
              record (taken msg w.ids g) { type = if failed then ack_error else ack_ok },
              w',
            ))
          × (failed ≡ false
              → e.queue.contents w'.resp
                ≡ e.queue.contents w.resp
                  ++ deliveries w.ids (taken msg w.ids g) false (subscribers msg w))
    unfolding handle process_publish publish_from
    handle-publish msg w g valid int known own =
        let own_msg : Msg = taken msg w.ids g in
        rw (own, to_int-id g int, get_mtype_lem g up valid, known)
          (elim (send_to_subs_lem e up sound own_msg w valid refl) [
            | inl (_, eq) ↦ rw eq (true, _, refl, λ none. absurd (true≢false none))
            | inr (_, (r, w', eq, sent)) ↦ rw eq (elim sent.verdict [
              | inl (zero_r, all) ↦ rw zero_r (
                false,
                w',
                refl,
                λ _.
                    sent.appended
                    ∙ ap (λ xs. e.queue.contents w.resp ++ xs)
                        (take-length sent.count _ (omega (arith, all))),
              )
              | inr (less, _) ↦ rw less (true, w', refl, λ none. absurd (true≢false none))
            ])
          ])

-- The response handler sends an answer under the global id.
answer-sent :
    {R : Type 0} (socket_send : Msg → R → ℤ × R) (m : Msg) (failed : Bool) (wire : R)
    → Edges.process_msg socket_send (record m { type = answer_type failed }) wire
      ≡ (socket_send (record m { type = answer_type failed; mtype = m.global_id }) wire).1
unfolding answer_type Edges.process_msg
answer-sent socket_send m true wire = refl
answer-sent socket_send m false wire = refl

-- What `publish` of broker.c returns for an answer.
expect-published :
    {Q : Type 0} (port : Port Q) (failed : Bool) (m : Msg) (P : Type 0)
    → m.type ≡ answer_type failed
    → (failed ≡ false → P)
    → (expect port ack_ok (some m) ≡ minus_one) ⊎ ((expect port ack_ok (some m) ≡ pos 0) × P)
unfolding answer_type
expect-published port true m P h k = inl (rw h refl)
expect-published port false m P h k = inr (rw h refl, k refl)

-- Where the tables are valid and their semaphores and segments are there: a publish, from a client
-- that its machine has paired with a global id which the server knows, and a subscriber of its
-- topic that the server has a connection for and whose machine has paired it, where the id of the
-- broker is not 0 and the queue of the server behaves as msgsnd is documented: the request gets to
-- the worker under the global id, and the answer comes back under the local id; publish returns
-- -1, or it returns 0, and then the worker has queued a copy of the text for the subscriber's
-- machine; the response handler sends such a copy under the subscriber's global id, and its
-- machine puts it into the incoming messages under the subscriber's local id.
pub publish-trip :
    {Q S D T V R Q' S' : Type 0} (client : Env Q S) (machine machine' : World Q S) (port : Port Q)
    (server : Worker.Env D T V) (state : Worker.World D T) (socket_send : Msg → R → ℤ × R)
    (other : Env Q' S') (there : World Q' S') (local_id global_id pid s l : ℤ)
    (message topic : List ℕ) (worker_queue : T) (wire : R)
    → IsUp client.calls
    → IsUp server.calls
    → IsMsgQueue server.queue
    → IsUp other.calls
    → IsValid machine.ids
    → IsValid machine'.ids
    → IsPaired local_id global_id machine.ids
    → IsPaired local_id global_id machine'.ids
    → GlobalId.IsValid state.ids
    → is_neg (mtype_of state.ids global_id) ≡ false
    → (pos 0 =ℤ server.broker_id) ≡ false
    → IsValid there.ids
    → IsPaired l s there.ids
    → is_local state.ids s ≡ true
    → Memᴰ s (subscribers server (publish_msg port local_id message topic) state)
    → let request = publish_msg port local_id message topic in
      let sent : Msg = record request { mtype = global_id } in
      let copy = address (taken server request state.ids global_id) s (mtype_of state.ids s) in
      let delivered : Msg = record copy { mtype = s } in
      (process_msg client request machine ≡ ret (to_server client sent machine))
      × (Edges.process_message server.queue sent pid worker_queue
          ≡ (sendmsg server.queue sent worker_queue).1)
      × (answer : Msg) × (state' : Worker.World D T) × (handle server sent state
          ≡ ret (true, answer, state'))
      × (answer.mtype ≡ mtype_of state.ids global_id)
      × (returned : Msg) × (Edges.process_msg socket_send answer wire
          ≡ (socket_send returned wire).1)
      × (ids : BrokerIds) × (process_message client returned machine'
          ≡ ret (
              respond client
                (record returned { mtype = local_id })
                (record machine' { ids = ids })))
      × (Edges.process_msg socket_send copy wire ≡ (socket_send delivered wire).1)
      × (process_message other delivered there
          ≡ ret (record there {
            incoming = (sendmsg other.queue (record delivered { mtype = l }) there.incoming).1;
          }))
      × ((expect port ack_ok (some (record returned { mtype = local_id })) ≡ minus_one)
          ⊎ ((expect port ack_ok (some (record returned { mtype = local_id })) ≡ pos 0)
              × ((out : List Msg) × (server.queue.contents state'.resp
                    ≡ server.queue.contents state.resp ++ out)
                  × Memᴰ copy out)))
unfolding answer_type Edges.process_message Edges.process_msg
publish-trip client machine machine' port server state socket_send other there local_id g pid s l
      message topic worker_queue wire up_client up_server sound up_other valid valid' paired paired'
      valid_ids known own valid_there paired_there near subscribed =
    let request : Msg = publish_msg port local_id message topic in
    let own_msg : Msg = taken server request state.ids g in
    let copy : Msg = address own_msg s (mtype_of state.ids s) in
    let (failed, state', handled, all) =
      handle-publish server up_server sound request state g valid_ids paired.global_int known own in
    let answer : Msg = record own_msg { type = answer_type failed } in
    let returned : Msg = record answer { mtype = g } in
    let (ids, responded, _, _) =
      process_message-respond client machine' local_id g returned up_client valid' paired' refl
        (answer_type-ack failed answer.type refl) in
    (
      process_msg-forward client machine local_id g request up_client valid paired refl
          (inr (inl refl)),
      refl,
      answer,
      state',
      handled,
      refl,
      returned,
      answer-sent socket_send own_msg failed wire,
      ids,
      responded,
      refl,
      process_message-publish other there l s up_other valid_there paired_there
          (record copy { mtype = s }) refl refl,
      expect-published port failed (record returned { mtype = local_id }) _ refl
          (λ good. (
            _,
            all good,
            local-copy state.ids own_msg false (subscribers server request state) near subscribed,
          )),
    )
