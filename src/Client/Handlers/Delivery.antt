-- ===== src/Client/Handlers/Delivery.antt =====
-- What reaches a client: messages and responses.
use sistemas_distribuid.Base.{
  ◌≡◌, ◌≢◌, refl, sym, ap, ◌∙◌, inl, inr, ℤ, pos, negsuc, is_neg, =ℤ_refl, to_int-id, IsInt, ltb_ℤ,
  true, false, [], ◌∷◌, ◌++◌, Option, none, some, find_first, find_first-key, erase_first-append,
  find_first-append, erase_first, ret, ◌>>=◌, arith,
}
use sistemas_distribuid.Ipc.Message.{Msg, publish, receive, ack_ok}
use sistemas_distribuid.Ipc.Kernel.{IsUp}
use sistemas_distribuid.Ipc.MsgQueue.{
  MsgQueue, IsMsgQueue, sendmsg, rcvmsg_no_wait, error, got, mtype_of_msg,
}
use sistemas_distribuid.Client.BrokerId.{BrokerIds, by_local, by_global, entries, IsValid}
use sistemas_distribuid.Client.BrokerId.Table.{get_local_id_lem, local_id_exists_lem}
use sistemas_distribuid.Client.BrokerId.Handshake.{pair}
use sistemas_distribuid.Client.Handlers.{
  Env, World, process_receive, process_msg, process_publish, process_message,
}

-- The client is in the table: each of its ids is found from the other.
pub record IsPaired (local_id global_id : ℤ) (t : BrokerIds) : Type 0 where
  pub by_its_local : find_first by_local local_id (entries t) ≡ some (pair local_id global_id)
  pub by_its_global : find_first by_global global_id (entries t) ≡ some (pair local_id global_id)
  pub local_int : IsInt local_id
  pub global_int : IsInt global_id
  pub local_pos : ltb_ℤ (pos 0) local_id ≡ true
  pub global_nat : is_neg global_id ≡ false

-- The queue takes every message with a positive type, and reading it does not fail.
pub record IsOpen {Q : Type 0} (q : MsgQueue Q) : Type 0 where
  pub sends : (m : Msg) (s : Q) → ltb_ℤ (pos 0) m.mtype ≡ true → is_neg (sendmsg q m s).0 ≡ false
  pub receives : (type : ℤ) (s : Q) → (q.msgrcv type s).0 ≢ error

pub pos→nat : (i : ℤ) → ltb_ℤ (pos 0) i ≡ true → is_neg i ≡ false
pos→nat (pos n) h = refl
pos→nat (negsuc n) h = absurd (ground arith)

-- `sendmsg` appends, when it does not fail.
sendmsg-appends :
    {Q : Type 0} {q : MsgQueue Q} (m : Msg) (s : Q)
    → IsMsgQueue q
    → is_neg (sendmsg q m s).0 ≡ false
    → q.contents (sendmsg q m s).1 ≡ q.contents s ++ m ∷ []
unfolding sendmsg
sendmsg-appends {Q} {q} m s law good = elim (law.sent m s) [
  | inl (a, b) ↦ rw a b
  | inr (a, b) ↦ absurd (ground arith)
]

module _ {Q S : Type 0} (e : Env Q S) (w : World Q S) (local_id global_id : ℤ) (up : IsUp e.calls)
    (valid : IsValid w.ids) (paired : IsPaired local_id global_id w.ids) where
  -- A publish that the server sends for a client goes to the incoming messages, for that client.
  pub process_message-publish :
      (msg : Msg)
      → msg.type ≡ publish
      → msg.mtype ≡ global_id
      → process_message e msg w
        ≡ ret (record w {
          incoming = (sendmsg e.queue (record msg { mtype = local_id }) w.incoming).1;
        })
  unfolding process_message process_publish
  process_message-publish msg ht hg =
      rw
        (
          ht,
          hg,
          to_int-id global_id paired.global_int,
          get_local_id_lem {t = w.ids} global_id up valid,
          paired.by_its_global,
          pos→nat local_id paired.local_pos,
        )
        refl

  -- Its request to receive is served from the incoming messages.
  process_msg-receive :
      (req : Msg)
      → req.type ≡ receive
      → req.mtype ≡ local_id
      → process_msg e req w ≡ ret (process_receive e req w)
  unfolding process_msg
  process_msg-receive req ht hl =
      rw
        (
          ht,
          hl,
          to_int-id local_id paired.local_int,
          local_id_exists_lem {t = w.ids} local_id up valid,
          paired.by_its_local,
          pos→nat local_id paired.local_pos,
        )
        refl

rcvmsg_no_wait-got :
    {Q : Type 0} (q : MsgQueue Q) (type : ℤ) (stale m : Msg) (s : Q)
    → (q.msgrcv type s).0 ≡ got m
    → rcvmsg_no_wait q type stale s ≡ (pos 1, m, (q.msgrcv type s).1)
unfolding rcvmsg_no_wait
rcvmsg_no_wait-got q type stale m s e = ground arith

some-injective : {m m' : Msg} → ◌≡◌ {A = Option Msg} (some m) (some m') → m ≡ m'
some-injective h = cc

-- The first message for a client is its response, and is taken from the incoming ones.
process_receive_lem :
    {Q S : Type 0} (e : Env Q S) (w : World Q S) (req m : Msg)
    → IsMsgQueue e.queue
    → IsOpen e.queue
    → ltb_ℤ (pos 0) req.mtype ≡ true
    → find_first mtype_of_msg req.mtype (e.queue.contents w.incoming) ≡ some m
    → let w' = process_receive e req w in
      (e.queue.contents w'.resp ≡ e.queue.contents w.resp ++ record m { type = ack_ok } ∷ [])
      × (e.queue.contents w'.incoming
          ≡ erase_first mtype_of_msg req.mtype (e.queue.contents w.incoming))
      × (w'.ids ≡ w.ids)
      × (w'.conn ≡ w.conn)
unfolding process_receive
process_receive_lem e w req m law opened positive found =
    elim (law.taken req.mtype w.incoming positive) [
      | inl (a, b) ↦ absurd (opened.receives req.mtype w.incoming a)
      | inr (inl (a, b, c)) ↦ absurd (ground arith)
      | inr (inr (m', a, b, c)) ↦
          let same : m' ≡ m = some-injective (sym b ∙ found) in
          let its_type : m'.mtype ≡ req.mtype =
            find_first-key mtype_of_msg req.mtype (e.queue.contents w.incoming) b in
          let answer : Msg = record m' { type = ack_ok } in
          rw (rcvmsg_no_wait-got e.queue req.mtype e.stale m' w.incoming a) (
            sendmsg-appends answer w.resp law (opened.sends answer w.resp (rw its_type positive))
                ∙ ap (λ r. e.queue.contents w.resp ++ record r { type = ack_ok } ∷ []) same,
            c,
            refl,
            refl,
          )
    ]

-- Where the table is valid and its semaphore and segment are there: a publish that the server
-- sends for a client that is in it is what the client's next request to receive returns, where no
-- earlier message waits for it and the queues take and give messages; nothing else changes.
pub publish-receive :
    {Q S : Type 0} (e : Env Q S) (w : World Q S) (local_id global_id : ℤ) (msg req : Msg)
    → IsUp e.calls
    → IsMsgQueue e.queue
    → IsOpen e.queue
    → IsValid w.ids
    → IsPaired local_id global_id w.ids
    → find_first mtype_of_msg local_id (e.queue.contents w.incoming) ≡ none
    → msg.type ≡ publish
    → msg.mtype ≡ global_id
    → req.type ≡ receive
    → req.mtype ≡ local_id
    → (w' : World Q S) × ((process_message e msg w >>= process_msg e req) ≡ ret w')
      × (e.queue.contents w'.resp
          ≡ e.queue.contents w.resp ++ record msg { mtype = local_id; type = ack_ok } ∷ [])
      × (e.queue.contents w'.incoming ≡ e.queue.contents w.incoming)
      × (w'.ids ≡ w.ids)
      × (w'.conn ≡ w.conn)
publish-receive {Q} {S} e w l g msg req up law opened valid paired empty ht hg rt rl =
    let m : Msg = record msg { mtype = l } in
    let w₁ : World Q S = record w { incoming = (sendmsg e.queue m w.incoming).1 } in
    let grown : e.queue.contents w₁.incoming ≡ e.queue.contents w.incoming ++ m ∷ [] =
      sendmsg-appends m w.incoming law (opened.sends m w.incoming paired.local_pos) in
    let found : find_first mtype_of_msg req.mtype (e.queue.contents w₁.incoming) ≡ some m =
      rw
        (
          grown,
          rl,
          find_first-append mtype_of_msg l (e.queue.contents w.incoming) m,
          empty,
          =ℤ_refl l,
        )
        refl in
    let (resp, incoming, ids, conn) =
      process_receive_lem e w₁ req m law opened (rw rl paired.local_pos) found in
    (
      process_receive e req w₁,
      rw
          (
            process_message-publish e w l g up valid paired msg ht hg,
            process_msg-receive e w₁ l g up valid paired req rt rl,
          )
          refl,
      resp,
      rw (incoming, grown, rl)
          (erase_first-append mtype_of_msg l (e.queue.contents w.incoming) m empty refl),
      ids,
      conn,
    )
