-- ===== src/Db/Connection.antt =====
-- broker/server/db-connection.c: the broker's side of the requests. The connection is `send`,
-- which is `socket_send_db`, and `receive`, which is `socket_receive_db` with the value before.
pub mod Answered
use sistemas_distribuid.Base.{
  ℕ, zero, suc, ◌-◌, ◌≡◌, ℤ, pos, negsuc, minus_one, is_neg, ◌=ℤ◌, Bool, true, false, ◌||◌,
  if◌then◌else◌, List, [], ◌∷◌, get_elem?, Option, none, some,
}
use sistemas_distribuid.Ipc.Message.{max_topic_length, strncpy}
use sistemas_distribuid.Ipc.Vector.{Vector}
use sistemas_distribuid.Db.Disk.{Text}
use sistemas_distribuid.Db.Handler.{
  DbMsg, db_create, subscribe_type, get_subscribed_type, delete_type, db_error,
}

pub record Link (C : Type 0) : Type 0 where
  pub send : DbMsg → C → ℤ × C
  pub receive : DbMsg → C → ℤ × DbMsg × C

-- Sending a request and reading its answer, with the tests that the four functions share: `none`
-- where they return -1.
unfoldable pub request : {C : Type 0} → Link C → DbMsg → C → Option DbMsg × C
request l msg c =
    let (s, c₁) = l.send msg c in
    if is_neg s
    then (none, c₁)
    else (let (r, answer, c₂) = l.receive msg c₁ in
        if is_neg r
        then (none, c₂)
        else if r =ℤ pos 0
        then (none, c₂)
        else if answer.type =ℤ db_error
        then (none, c₂)
        else (some answer, c₂))

-- `stale` is what the message on the stack holds before it is filled.
module _ {C : Type 0} (l : Link C) (stale : DbMsg) where
  unfoldable pub db_add_user : C → ℤ × C
  db_add_user c =
      let (a, c') = request l (record stale { type = db_create }) c in
      (elim a [ none ↦ minus_one | some m ↦ m.global_id ], c')

  unfoldable pub db_subscribe : ℤ → Text → C → ℤ × C
  db_subscribe id topic c =
      let (a, c') =
        request l
          (record stale {
            global_id = id;
            type = subscribe_type;
            topic = strncpy max_topic_length topic;
          })
          c in
      (elim a [ none ↦ minus_one | some m ↦ pos 0 ], c')

  -- `for(int i = 0; i < msg.sub_count; i++)`, with the rounds that are left. The array is not
  -- read behind its end.
  unfoldable pub add_sub_ids : {V : Type 0} → Vector V → DbMsg → ℕ → ℕ → V → V
  add_sub_ids o msg zero i subscribed = subscribed
  add_sub_ids o msg (suc rounds) i subscribed = elim (get_elem? msg.sub_ids i) [
    | none ↦ subscribed
    | some id ↦ add_sub_ids o msg rounds (suc i) (o.vector_add subscribed id)
  ]

  abbrev pub rounds_of : ℤ → ℕ
  rounds_of (pos n) = n
  rounds_of (negsuc n) = 0

  unfoldable pub db_get_subscribed : {V : Type 0} → Vector V → Text → V → C → ℤ × V × C
  db_get_subscribed o topic subscribed c =
      let (a, c') =
        request l
          (record stale { type = get_subscribed_type; topic = strncpy max_topic_length topic }) c in
      elim a [
        | none ↦ (minus_one, subscribed, c')
        | some m ↦ (pos 0, add_sub_ids o m (rounds_of m.sub_count) 0 subscribed, c')
      ]

  unfoldable pub db_delete : ℤ → C → ℤ × C
  db_delete id c =
      let (a, c') = request l (record stale { global_id = id; type = delete_type }) c in
      (elim a [ none ↦ minus_one | some m ↦ pos 0 ], c')
