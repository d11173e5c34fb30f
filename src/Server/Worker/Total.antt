-- ===== src/Server/Worker/Total.antt =====
-- broker/server/worker.c: what its handlers come to.
use sistemas_distribuid.Base.{
  ◌≤◌, ◌<◌, ◌≡◌, refl, subst, sym, ◌⊎◌, inl, inr, ℤ, pos, is_neg, to_int, ◌=ℤ◌, Bool, true, false,
  List, [], ◌∷◌, ◌++◌, Outcome, ret, ◌>>=◌, Bool-cases, dec_lt, arith,
}
use sistemas_distribuid.Ipc.Message.{
  Msg, create, subscribe, publish, destroy, ack_create, ack_error,
}
use sistemas_distribuid.Ipc.Kernel.{IsUp}
use sistemas_distribuid.Ipc.MsgQueue.{IsMsgQueue}
use sistemas_distribuid.Server.GlobalId.{GlobalIds, IsValid, max_clients, entries}
use sistemas_distribuid.Server.GlobalId.Table.{
  get_mtype_lem, entry, add_global_id-room, add_global_id-full, remove_global_id-erase,
}
use sistemas_distribuid.Server.Worker.{
  Env, World, process_create, process_subscribe, send_to_subs, process_publish, publish_from,
  process_destroy, handle, process_msg, worker, respond,
}
use sistemas_distribuid.Server.Worker.Deliver.{mtype_of}
use sistemas_distribuid.Server.Worker.Publish.{send_to_subs_lem}

module _ {D Q V : Type 0} (e : Env D Q V) (up : IsUp e.calls) where
  -- process_create, where the table is valid and its semaphore and segment are there, on each
  -- branch: the database gives no id; the id is entered and confirmed; or the table is full, and
  -- the client gets an error for an id that stays in the database.
  pub process_create_lem :
      (msg : Msg) (w : World D Q) {id : ℤ} {conn : D}
      → IsValid w.ids
      → e.db.db_add_user w.conn ≡ (id, conn)
      → ((is_neg id ≡ true)
          × (process_create e msg w
              ≡ ret (record msg { global_id = id; type = ack_error }, record w { conn = conn })))
        ⊎ ((is_neg id ≡ false)
            × (w.ids.count < max_clients)
            × ((ids : GlobalIds) × (process_create e msg w
                  ≡ ret (
                    record msg { global_id = id; type = ack_create },
                    record w { conn = conn; ids = ids },
                  ))
                × IsValid ids
                × (entries ids ≡ entries w.ids ++ entry id (to_int msg.mtype) ∷ [])))
        ⊎ ((is_neg id ≡ false)
            × (max_clients ≤ w.ids.count)
            × (process_create e msg w
                ≡ ret (record msg { global_id = id; type = ack_error }, record w { conn = conn })))
  unfolding process_create
  process_create_lem msg w {id} {conn} valid answer = elim (Bool-cases (is_neg id)) [
    | inl bad ↦ inl (bad, rw (answer, bad))
    | inr good ↦ elim (dec_lt w.ids.count max_clients) [
      | yes room ↦
          let (ids, added, valid', es) = add_global_id-room id (to_int msg.mtype) up valid room in
          inr (inl (good, room, (ids, rw (answer, good, added, good), valid', es)))
      | no full ↦ inr (
          inr (
            good,
            omega arith,
            rw (answer, good, add_global_id-full id (to_int msg.mtype) up valid (omega arith)),
          ))
    ]
  ]

  abbrev Returns : Outcome (Msg × World D Q) → Type 0
  Returns o = (m : Msg) × (w : World D Q) × (o ≡ ret (m, w)) × IsValid w.ids

  create_total : (msg : Msg) (w : World D Q) → IsValid w.ids → Returns (process_create e msg w)
  create_total msg w valid = elim (process_create_lem msg w valid refl) [
    | inl (_, eq) ↦ (_, _, eq, valid)
    | inr (inl (_, _, (ids, eq, valid', _))) ↦ (_, _, eq, valid')
    | inr (inr (_, _, eq)) ↦ (_, _, eq, valid)
  ]

  subscribe_total :
      (msg : Msg) (w : World D Q) → IsValid w.ids → Returns (process_subscribe e msg w)
  unfolding process_subscribe
  subscribe_total msg w valid =
      rw (get_mtype_lem (to_int msg.mtype) up valid)
        (elim (Bool-cases (is_neg (mtype_of w.ids (to_int msg.mtype)))) [
          | inl unknown ↦ rw unknown (_, _, refl, valid)
          | inr known ↦ rw known (_, _, refl, valid)
        ])

  destroy_total : (msg : Msg) (w : World D Q) → IsValid w.ids → Returns (process_destroy e msg w)
  unfolding process_destroy
  destroy_total msg w valid =
      let (r, ids, eq, valid', _, _) = remove_global_id-erase (to_int msg.mtype) up valid in
      rw (get_mtype_lem (to_int msg.mtype) up valid, eq) (_, _, refl, valid')

  module _ (sound : IsMsgQueue e.queue) where
    send_total :
        (msg : Msg) (w : World D Q)
        → IsValid w.ids
        → (r : ℤ) × (w' : World D Q) × (send_to_subs e msg w ≡ ret (r, w')) × IsValid w'.ids
    send_total msg w valid = elim (send_to_subs_lem e up sound msg w valid refl) [
      | inl (bad, eq) ↦ (_, _, eq, valid)
      | inr (good, (r, w', eq, sent)) ↦ (r, w', eq, subst IsValid (sym sent.ids_kept) valid)
    ]

    abbrev Replies : Outcome (Bool × Msg × World D Q) → Type 0
    Replies o = (b : Bool) × (m : Msg) × (w : World D Q) × (o ≡ ret (b, m, w)) × IsValid w.ids

    publish_from_total :
        (send_ack : Bool) (msg : Msg) (w : World D Q)
        → IsValid w.ids
        → Replies (publish_from e send_ack msg w)
    unfolding publish_from
    publish_from_total send_ack msg w valid =
        let known_as : ℤ = mtype_of w.ids (to_int msg.mtype) in
        rw (get_mtype_lem (to_int msg.mtype) up valid) (elim (Bool-cases (is_neg known_as)) [
          | inl unknown ↦ rw unknown (_, _, _, refl, valid)
          | inr known ↦
              let msg' : Msg = record msg { global_id = to_int msg.mtype; mtype = known_as } in
              let (r, w', eq, valid') = send_total msg' w valid in
              rw (known, eq) (_, _, _, refl, valid')
        ])

    publish_total : (msg : Msg) (w : World D Q) → IsValid w.ids → Replies (process_publish e msg w)
    unfolding process_publish
    publish_total msg w valid = elim (Bool-cases (msg.broker_id =ℤ e.broker_id)) [
      | inl own ↦ rw own (_, _, _, refl, valid)
      | inr other ↦ rw other (elim (Bool-cases (msg.broker_id =ℤ pos 0)) [
        | inl first ↦
            rw first (publish_from_total true (record msg { broker_id = e.broker_id }) w valid)
        | inr again ↦ rw again (publish_from_total false msg w valid)
      ])
    ]

    acknowledged :
        {o : Outcome (Msg × World D Q)} → Returns o → Replies (o >>= λ (m, w'). ret (true, m, w'))
    acknowledged (m, w', eq, valid) = rw eq (_, _, _, refl, valid)

    handle_total : (msg : Msg) (w : World D Q) → IsValid w.ids → Replies (handle e msg w)
    unfolding handle
    handle_total msg w valid = elim (Bool-cases (msg.type =ℤ create)) [
      | inl a ↦ rw a (acknowledged (create_total msg w valid))
      | inr a ↦ rw a (elim (Bool-cases (msg.type =ℤ subscribe)) [
        | inl b ↦ rw b (acknowledged (subscribe_total msg w valid))
        | inr b ↦ rw b (elim (Bool-cases (msg.type =ℤ publish)) [
          | inl c ↦ rw c (publish_total msg w valid)
          | inr c ↦ rw c (elim (Bool-cases (msg.type =ℤ destroy)) [
            | inl d ↦ rw d (acknowledged (destroy_total msg w valid))
            | inr d ↦ rw d (_, _, _, refl, valid)
          ])
        ])
      ])
    ]

    pub process_msg_total :
        (msg : Msg) (w : World D Q)
        → IsValid w.ids
        → (w' : World D Q) × (process_msg e msg w ≡ ret w') × IsValid w'.ids
    unfolding process_msg
    process_msg_total msg w valid =
        let (b, m, w', eq, valid') = handle_total msg w valid in
        elim (Bool-cases b) [
          | inl answered ↦ rw (eq, answered) ((respond e m w').1, refl, valid')
          | inr silent ↦ rw (eq, silent) (w', refl, valid')
        ]

    -- Where the semaphore and the segment of the table are there, the table is valid and the queue
    -- behaves as msgsnd is documented, the worker gets through any sequence of messages: each call
    -- returns, and the table stays valid with its semaphore free.
    pub worker_total :
        (msgs : List Msg) (w : World D Q)
        → IsValid w.ids
        → (w' : World D Q) × (worker e msgs w ≡ ret w') × IsValid w'.ids
    unfolding worker
    worker_total [] w valid = (w, refl, valid)
    worker_total (msg ∷ msgs) w valid =
        let (w', eq, valid') = process_msg_total msg w valid in rw eq (worker_total msgs w' valid')
