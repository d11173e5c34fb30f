-- ===== src/Db/Handler/Subscribers.antt =====
-- What the handler answers to a request for subscribers.
use mathlib.Core.List.{append_assoc, append-nil}
use sistemas_distribuid.Base.{
  ℕ, zero, suc, ◌+◌, ◌≤◌, ◌≡◌, refl, sym, ap, ◌∙◌, inl, inr, ℤ, pos, ltb, lt→ltb, if◌then◌else◌,
  arith, List, [], ◌∷◌, ◌++◌, map, length, set, take, take-set, length-set, Option-cases, strtol,
  Outcome, ret,
}
use sistemas_distribuid.Ipc.Kernel.{v}
use sistemas_distribuid.Ipc.Vector.{
  Vector, IsVector, items, items_from, items-add, length-items_from,
}
use sistemas_distribuid.Server.GlobalId.{max_clients}
use sistemas_distribuid.Db.Disk.{Text, topic_path, Disk, Io, lookup}
use sistemas_distribuid.Db.Files.{file_exists}
use sistemas_distribuid.Db.Files.Working.{IsWorking}
use sistemas_distribuid.Db.Subscriptions.{add_ids, get_subscribed, db_get_subscribed}
use sistemas_distribuid.Db.Subscriptions.Laws.{subs}
use sistemas_distribuid.Db.Files.Locked.{locked_lem, db_get_subscribed-locked}
use sistemas_distribuid.Db.Handler.{DbMsg, db_ok, fill, process_get_subscribed}

items-add_ids :
    {V : Type 0} {o : Vector V} (lines : List Text) (v : V)
    → IsVector o
    → items o (add_ids o lines v) ≡ items o v ++ map strtol lines
unfolding add_ids
items-add_ids {o = o} [] v law = sym (append-nil (items o v))
items-add_ids {o = o} (line ∷ lines) v law =
    items-add_ids lines (o.vector_add v (strtol line)) law
    ∙ rw (items-add v (strtol line) law)
        (append_assoc (items o v) (strtol line ∷ []) (map strtol lines))

-- The subscribers of a topic that has a file or not are added to the vector in the file's order.
get_subscribed_lem :
    {V : Type 0} {o : Vector V} {io : Io} (topic : Text) (v : V) (d : Disk)
    → IsVector o
    → IsWorking io
    → let r = get_subscribed o io topic v d in
      (r.0 ≡ pos 0) × (items o r.1 ≡ items o v ++ subs topic d) × (r.2 ≡ d)
unfolding get_subscribed
get_subscribed_lem {o = o} topic v d law ok = elim (Option-cases (lookup topic d.topics)) [
  | inl missing ↦ rw (missing, file_exists) (refl, sym (append-nil (items o v)), refl)
  | inr (lines, found) ↦
      rw (found, file_exists, ok.reads (topic_path topic)) (refl, items-add_ids lines v law, refl)
]

module _ {V : Type 0} (o : Vector V) (v : V) where
  -- The loop writes the next items behind those that are there.
  fill_lem :
      (rounds i j : ℕ) (msg : DbMsg)
      → i + rounds ≡ j
      → j ≤ max_clients
      → length msg.sub_ids ≡ max_clients
      → let msg' = fill o v rounds i msg in
        (take j msg'.sub_ids ≡ take i msg.sub_ids ++ items_from o v rounds i)
        × (msg'.sub_count ≡ (if ltb 0 rounds then pos j else msg.sub_count))
  unfolding fill
  fill_lem zero i j msg sum room whole = (
    ap (λ k. take k msg.sub_ids) {x = j} {y = i} (omega arith)
        ∙ sym (append-nil (take i msg.sub_ids)),
    refl,
  )
  fill_lem (suc rounds) i j msg sum room whole =
      let a : ℤ = o.vector_item_at v i in
      let msg' : DbMsg = record msg { sub_ids = set msg.sub_ids i a; sub_count = pos (suc i) } in
      let (ids, n) =
        fill_lem rounds (suc i) j msg' (omega arith) room (length-set msg.sub_ids i a ∙ whole) in
      rw (lt→ltb i max_clients (omega arith)) (
        ids
            ∙ rw (take-set i msg.sub_ids a (omega arith))
                (append_assoc (take i msg.sub_ids) (a ∷ []) (items_from o v rounds (suc i))),
        n ∙ ground arith,
      )

-- Where the semaphore is free, it is free again when the database answers.
db_get_subscribed_lem :
    {V : Type 0} {o : Vector V} {io : Io} (topic : Text) (v : V) (d : Disk)
    → IsVector o
    → IsWorking io
    → d.sem ≡ 1
    → (v' : V) × (db_get_subscribed o io topic v d ≡ ret (pos 0, v', d))
      × (items o v' ≡ items o v ++ subs topic d)
db_get_subscribed_lem {V} {o} {io} topic w d law ok free =
    let body : Disk → ℤ × V × Disk = λ d'. get_subscribed o io topic w d' in
    let (r, added, same) = get_subscribed_lem {io = io} topic w (record d { sem = 0 }) law ok in
    let done : ℤ → Disk → ℕ → Outcome (ℤ × V × Disk) =
      λ q d' n. ret (q, (body (record d { sem = 0 })).1, record d' { sem = n }) in
    let e =
      db_get_subscribed-locked io o topic w d
      ∙ locked_lem io body w d ok.up free (ap (λ d'. d'.sem) same) in
    (
      (body (record d { sem = 0 })).1,
      e
          ∙ ap (λ q. done q (body (record d { sem = 0 })).2 1) r
          ∙ ap (λ d'. done (pos 0) d' 1) same
          ∙ ap (λ n. done (pos 0) d n) (sym free),
      added,
    )

-- Where the file system refuses nothing and the database is not locked, the answer to a request
-- for the subscribers of a topic lists them all, in the order of the topic's file, if there are at
-- most fifty; where there are none, the answer keeps the count that the request had.
pub process_get_subscribed_lem :
    {V : Type 0} (o : Vector V) (io : Io) (msg : DbMsg) (d : Disk)
    → IsVector o
    → IsWorking io
    → d.sem ≡ 1
    → length msg.sub_ids ≡ max_clients
    → length (subs msg.topic d) ≤ max_clients
    → (msg' : DbMsg) × (process_get_subscribed o io msg d ≡ ret (msg', d))
      × (msg'.type ≡ db_ok)
      × (take (length (subs msg.topic d)) msg'.sub_ids ≡ subs msg.topic d)
      × (msg'.sub_count ≡ (
          if ltb 0 (length (subs msg.topic d))
          then pos (length (subs msg.topic d))
          else msg.sub_count))
unfolding process_get_subscribed
process_get_subscribed_lem {V} o io msg d law ok free whole fits =
    let (v, e, all) = db_get_subscribed_lem {io = io} msg.topic o.vector_new d law ok free in
    let listed : items o v ≡ subs msg.topic d =
      all ∙ ap (λ n. items_from o o.vector_new n 0 ++ subs msg.topic d) law.size-new in
    let size : o.vector_size v ≡ length (subs msg.topic d) =
      sym (length-items_from o v (o.vector_size v) 0) ∙ ap length listed in
    let (ids, count) =
      fill_lem o v (o.vector_size v) 0 (length (subs msg.topic d)) msg (omega arith) fits whole in
    (
      record (fill o v (o.vector_size v) 0 msg) { type = db_ok },
      rw e refl,
      refl,
      ids ∙ listed,
      count ∙ ap (λ n. if ltb 0 n then pos (length (subs msg.topic d)) else msg.sub_count) size,
    )
