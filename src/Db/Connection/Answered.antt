-- ===== src/Db/Connection/Answered.antt =====
-- What the broker reads of the database's answer to a request for subscribers.
use mathlib.Core.List.{append_assoc, append-nil}
use sistemas_distribuid.Base.{
  ℕ, zero, suc, ◌+◌, ◌≤◌, ◌<◌, ◌≡◌, refl, sym, ap, ◌∙◌, ℤ, pos, ◌=ℤ◌, lt→ltb, false, arith, List,
  [], ◌∷◌, ◌++◌, length, take, drop, get_elem?, Option, some, ret,
}
use sistemas_distribuid.Ipc.Message.{max_topic_length, strncpy}
use sistemas_distribuid.Ipc.Vector.{Vector, IsVector, items, items-add}
use sistemas_distribuid.Server.GlobalId.{max_clients}
use sistemas_distribuid.Db.Disk.{Text, Disk, Io}
use sistemas_distribuid.Db.Files.Working.{IsWorking}
use sistemas_distribuid.Db.Subscriptions.Laws.{subs}
use sistemas_distribuid.Db.Handler.{DbMsg, process_message, get_subscribed_type, db_ok, db_error}
use sistemas_distribuid.Db.Handler.Subscribers.{process_get_subscribed_lem}
use sistemas_distribuid.Db.Connection.{Link, request, add_sub_ids, rounds_of, db_get_subscribed}

-- The connection carries a request to the handler, on the files `d`, and its answer back.
pub record Carries {C V : Type 0} (l : Link C) (o : Vector V) (io : Io) (d : Disk) (c c' : C)
    : Type 0 where
  pub between : DbMsg → C
  pub sent : (m : DbMsg) → (n : ℕ) × (l.send m c ≡ (pos (suc n), between m))
  pub received :
      (m m' : DbMsg)
      → process_message o io m d ≡ ret (m', d)
      → (n : ℕ) × (l.receive m (between m) ≡ (pos (suc n), m', c'))

suc-not_zero : (n : ℕ) → (pos (suc n) =ℤ pos 0) ≡ false
suc-not_zero n = ground arith

request_lem :
    {C V : Type 0} {l : Link C} {o : Vector V} {io : Io} {d : Disk} {c c' : C} (m m' : DbMsg)
    → Carries l o io d c c'
    → process_message o io m d ≡ ret (m', d)
    → m'.type ≡ db_ok
    → ◌≡◌ {A = Option DbMsg × C} (request l m c) (some m', c')
unfolding request
request_lem m m' carries e good =
    let (_, s) = carries.sent m in
    let (n, r) = carries.received m m' e in
    let no_error : (m'.type =ℤ db_error) ≡ false = rw good refl in
    rw (s, r, suc-not_zero n, no_error) refl

get_elem?-drop :
    (ids : List ℤ) (i : ℕ)
    → i < length ids
    → (id : ℤ) × (get_elem? ids i ≡ some id) × (drop i ids ≡ id ∷ drop (suc i) ids)
get_elem?-drop [] i h = elim h [ ]
get_elem?-drop (x ∷ ids) zero h = (x, refl, refl)
get_elem?-drop (x ∷ ids) (suc i) h = get_elem?-drop ids i (omega arith)

add_sub_ids_step :
    {C V : Type 0} (l : Link C) (stale : DbMsg) (o : Vector V) (m : DbMsg) (rounds i : ℕ) (v : V)
    (id : ℤ)
    → get_elem? m.sub_ids i ≡ some id
    → add_sub_ids l stale o m (suc rounds) i v
      ≡ add_sub_ids l stale o m rounds (suc i) (o.vector_add v id)
unfolding add_sub_ids
add_sub_ids_step l stale o m rounds i v id e = ground arith

db_get_subscribed-answered :
    {C V : Type 0} (l : Link C) (stale : DbMsg) (o : Vector V) (topic : Text) (v : V) (c c' : C)
    (m' : DbMsg)
    → ◌≡◌ {A = Option DbMsg × C}
        (request l
          (record stale { type = get_subscribed_type; topic = strncpy max_topic_length topic })
          c)
        (some m', c')
    → ◌≡◌ {A = ℤ × V × C}
        (db_get_subscribed l stale o topic v c)
        (pos 0, add_sub_ids l stale o m' (rounds_of l stale m'.sub_count) 0 v, c')
unfolding db_get_subscribed
db_get_subscribed-answered l stale o topic v c c' m' e =
    rw (db_get_subscribed, ap (λ r. r.0) e, ap (λ r. r.1) e) refl

add_sub_ids_lem :
    {C V : Type 0} (l : Link C) (stale : DbMsg) {o : Vector V} (m : DbMsg) (rounds i : ℕ) (v : V)
    → IsVector o
    → i + rounds ≤ length m.sub_ids
    → items o (add_sub_ids l stale o m rounds i v) ≡ items o v ++ take rounds (drop i m.sub_ids)
unfolding add_sub_ids
add_sub_ids_lem l stale {o} m zero i v law h = sym (append-nil (items o v))
add_sub_ids_lem l stale {o} m (suc rounds) i v law h =
    let (id, e, rest) = get_elem?-drop m.sub_ids i (omega arith) in
    rw (add_sub_ids_step l stale o m rounds i v id e, rest)
      (add_sub_ids_lem l stale m rounds (suc i) (o.vector_add v id) law (omega arith)
        ∙ rw (items-add v id law)
            (append_assoc (items o v) (id ∷ []) (take rounds (drop (suc i) m.sub_ids))))

length-take_le : (n : ℕ) (xs : List ℤ) → length (take n xs) ≤ length xs
length-take_le zero xs = omega arith
length-take_le (suc n) [] = omega arith
length-take_le (suc n) (x ∷ xs) = omega (arith, length-take_le n xs)

-- Where the connection carries requests and answers, the file system refuses nothing and the
-- database is not locked, the broker gets exactly the subscribers in the file of the topic, in its
-- order, behind those that its vector has, if there are some and at most fifty.
pub db_get_subscribed_lem :
    {C V : Type 0} {l : Link C} {o : Vector V} {io : Io} {d : Disk} {c c' : C} (stale : DbMsg)
    (topic : Text) (v : V)
    → IsVector o
    → IsWorking io
    → Carries l o io d c c'
    → d.sem ≡ 1
    → length stale.sub_ids ≡ max_clients
    → 0 < length (subs (strncpy max_topic_length topic) d)
    → length (subs (strncpy max_topic_length topic) d) ≤ max_clients
    → let r = db_get_subscribed l stale o topic v c in
      (r.0 ≡ pos 0) × (items o r.1 ≡ items o v ++ subs (strncpy max_topic_length topic) d)
unfolding db_get_subscribed process_message
db_get_subscribed_lem {l = l} {o} {io} {d} {c} {c'} stale topic v law ok carries free whole more
      fits =
    let name : Text = strncpy max_topic_length topic in
    let m : DbMsg = record stale { type = get_subscribed_type; topic = name } in
    let (m', e, good, ids, count) = process_get_subscribed_lem o io m d law ok free whole fits in
    let answered : ◌≡◌ {A = Option DbMsg × _} (request l m c) (some m', c') =
      request_lem m m' carries e good in
    rw
      (
        db_get_subscribed-answered l stale o topic v c c' m' answered,
        count,
        lt→ltb 0 (length (subs name d)) more,
      )
      (
        refl,
        add_sub_ids_lem l stale m' (length (subs name d)) 0 v law
              (omega (arith, length-take_le (length (subs name d)) m'.sub_ids, ap length ids))
            ∙ ap (λ is. items o v ++ is) ids,
      )
