-- ===== src/Client/Handlers/Requests.antt =====
-- What the two handlers make of the messages of clients that they know, that they do not know, and
-- that do not fit in the table.
use sistemas_distribuid.Base.{
  ◌≤◌, ◌≡◌, ◌≢◌, refl, ◌⊎◌, inl, inr, ℤ, ◌=ℤ◌, =ℤ_iff, to_int, to_int-id, IsInt, if◌then◌else◌,
  none, find_first, erase_first, ret, blocked, Bool-cases,
}
use sistemas_distribuid.Ipc.Message.{
  Msg, create, subscribe, publish, destroy, ack_ok, ack_create, ack_destroy, ack_error,
}
use sistemas_distribuid.Ipc.Kernel.{IsUp}
use sistemas_distribuid.Client.BrokerId.{BrokerIds, max_local_clients, by_local, entries, IsValid}
use sistemas_distribuid.Client.BrokerId.Table.{
  get_local_id_lem, get_global_id_lem, local_id_exists_lem, all_blocked, add_local_id-full,
}
use sistemas_distribuid.Client.BrokerId.Removal.{remove_id-erase}
use sistemas_distribuid.Client.Handlers.{
  Env, World, process_msg, process_publish, process_message, receiver, forward, respond, to_server,
}
use sistemas_distribuid.Client.Handlers.Delivery.{IsPaired, pos→nat}

module _ {Q S : Type 0} (e : Env Q S) (w : World Q S) (up : IsUp e.calls) where
  process_msg-blocked : (msg : Msg) → w.ids.sem ≡ 0 → process_msg e msg w ≡ blocked
  unfolding process_msg forward
  process_msg-blocked msg taken =
      let (a, _, _, _, x, _) = all_blocked w.ids e.unreturned (to_int msg.mtype) up taken in
      elim (Bool-cases (msg.type =ℤ create)) [
        | inl new ↦ rw (new, (=ℤ_iff msg.type create).0 new, a) refl
        | inr old ↦ rw (old, x) refl
      ]

  process_message-blocked : (msg : Msg) → w.ids.sem ≡ 0 → process_message e msg w ≡ blocked
  unfolding process_message process_publish receiver
  process_message-blocked msg taken =
      let (_, s, _, l, _, _) = all_blocked w.ids e.unreturned (to_int msg.mtype) up taken in
      rw (s, l)
        (elim (Bool-cases (msg.type =ℤ publish)) [
          | inl pub_type ↦ rw pub_type refl
          | inr other ↦ rw other (elim (Bool-cases (msg.type =ℤ ack_create)) [
            | inl new ↦ rw new refl
            | inr old ↦ rw old refl
          ])
        ])

-- Where the table is valid and its semaphore and segment are there: where ten clients are in the
-- table, the next one to register is not announced to the server and gets no response, and from
-- then on both handlers wait for ever at their next message, whatever it is.
pub register-full :
    {Q S : Type 0} (e : Env Q S) (w : World Q S) (msg : Msg)
    → IsUp e.calls
    → IsValid w.ids
    → max_local_clients ≤ w.ids.count
    → msg.type ≡ create
    → (w' : World Q S) × (process_msg e msg w ≡ ret w')
      × (w'.resp ≡ w.resp)
      × (w'.conn ≡ w.conn)
      × ((later : Msg) → process_msg e later w' ≡ blocked)
      × ((later : Msg) → process_message e later w' ≡ blocked)
unfolding process_msg forward
register-full {Q} {S} e w msg up valid full ht =
    let w' : World Q S = record w { ids = record w.ids { sem = 0 } } in
    (
      w',
      rw (ht, add_local_id-full {t = w.ids} e.unreturned (to_int msg.mtype) up valid full) refl,
      refl,
      refl,
      λ later. process_msg-blocked e w' up later refl,
      λ later. process_message-blocked e w' up later refl,
    )

-- A request other than to register, from a client that is not in the valid table, changes nothing:
-- it gets no response, and nothing reaches the server.
process_msg-stranger :
    {Q S : Type 0} (e : Env Q S) (w : World Q S) (msg : Msg)
    → IsUp e.calls
    → IsValid w.ids
    → IsInt msg.mtype
    → find_first by_local msg.mtype (entries w.ids) ≡ none
    → msg.type ≢ create
    → process_msg e msg w ≡ ret w
unfolding process_msg
process_msg-stranger e w msg up valid int missing other = elim (Bool-cases (msg.type =ℤ create)) [
  | inl new ↦ absurd (other ((=ℤ_iff msg.type create).0 new))
  | inr old ↦
      rw (old, to_int-id msg.mtype int, local_id_exists_lem {t = w.ids} msg.mtype up valid, missing)
        refl
]

-- A request of a client in a valid table to subscribe, publish or be destroyed goes to the server
-- under the client's global id.
pub process_msg-forward :
    {Q S : Type 0} (e : Env Q S) (w : World Q S) (local_id global_id : ℤ) (msg : Msg)
    → IsUp e.calls
    → IsValid w.ids
    → IsPaired local_id global_id w.ids
    → msg.mtype ≡ local_id
    → (msg.type ≡ subscribe) ⊎ ((msg.type ≡ publish) ⊎ (msg.type ≡ destroy))
    → process_msg e msg w ≡ ret (to_server e (record msg { mtype = global_id }) w)
unfolding process_msg forward
process_msg-forward e w l g msg up valid paired hl ht =
    let known = local_id_exists_lem {t = w.ids} l up valid in
    let looked_up = get_global_id_lem {t = w.ids} l up valid in
    rw (hl, to_int-id l paired.local_int, known, paired.by_its_local, pos→nat l paired.local_pos)
      (elim ht [
        | inl h ↦ rw (h, looked_up, paired.by_its_local, paired.global_nat) refl
        | inr (inl h) ↦ rw (h, looked_up, paired.by_its_local, paired.global_nat) refl
        | inr (inr h) ↦ rw (h, looked_up, paired.by_its_local, paired.global_nat) refl
      ])

-- A confirmation, an error or the confirmation of a destruction from the server goes, for a client
-- in a valid table, to the responses under the client's local id, and the confirmation of a
-- destruction also takes the client out of the table.
pub process_message-respond :
    {Q S : Type 0} (e : Env Q S) (w : World Q S) (local_id global_id : ℤ) (msg : Msg)
    → IsUp e.calls
    → IsValid w.ids
    → IsPaired local_id global_id w.ids
    → msg.mtype ≡ global_id
    → (msg.type ≡ ack_ok) ⊎ ((msg.type ≡ ack_error) ⊎ (msg.type ≡ ack_destroy))
    → (ids : BrokerIds) × (process_message e msg w
        ≡ ret (respond e (record msg { mtype = local_id }) (record w { ids = ids })))
      × IsValid ids
      × (entries ids ≡ (
          if msg.type =ℤ ack_destroy
          then erase_first by_local local_id (entries w.ids)
          else entries w.ids))
unfolding process_message receiver
process_message-respond e w l g msg up valid paired hg ht =
    let (i, ids, removed, valid', es, _) = remove_id-erase {t = w.ids} l up valid in
    rw
      (
        hg,
        to_int-id g paired.global_int,
        get_local_id_lem {t = w.ids} g up valid,
        paired.by_its_global,
        pos→nat l paired.local_pos,
        removed,
      )
      (elim ht [
        | inl h ↦ (w.ids, rw h refl, valid, rw h refl)
        | inr (inl h) ↦ (w.ids, rw h refl, valid, rw h refl)
        | inr (inr h) ↦ (ids, rw h refl, valid', rw h es)
      ])
