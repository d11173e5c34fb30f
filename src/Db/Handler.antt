-- ===== src/Db/Handler.antt =====
-- broker/db-server/db_handler.c and db_message.h: the requests of the broker to the database.
pub mod Subscribers
pub mod Process
use sistemas_distribuid.Base.{
  ℕ, zero, suc, ◌<◌, ◌≡◌, ℤ, pos, minus_one, is_neg, ◌=ℤ◌, ltb, Bool, true, false, if◌then◌else◌,
  List, [], ◌∷◌, set, Outcome, ret, ◌>>=◌, Option, some, none,
}
use sistemas_distribuid.Ipc.Vector.{Vector}
use sistemas_distribuid.Ipc.Socket.{Layout, Answers, send_loop, receive_loop}
use sistemas_distribuid.Server.GlobalId.{max_clients}
use sistemas_distribuid.Db.Disk.{Text, Disk, Io}
use sistemas_distribuid.Db.Files.{db_add_user}
use sistemas_distribuid.Db.Subscriptions.{db_subscribe, db_get_subscribed, db_delete}

abbrev pub db_create : ℤ
db_create = pos 1

abbrev pub subscribe_type : ℤ
subscribe_type = pos 2

abbrev pub get_subscribed_type : ℤ
get_subscribed_type = pos 3

abbrev pub delete_type : ℤ
delete_type = pos 4

abbrev pub db_ok : ℤ
db_ok = pos 5

abbrev pub db_error : ℤ
db_error = pos 6

-- `db_msg_t`
pub record DbMsg : Type 0 where
  pub global_id : ℤ
  pub type : ℤ
  pub topic : Text
  pub sub_count : ℤ
  pub sub_ids : List ℤ

-- `socket_send_db` and `socket_receive_db` of broker/common/ipc/socket.c
unfoldable pub socket_send_db : Layout DbMsg → Answers → DbMsg → List ℕ → Option (ℤ × List ℕ)
socket_send_db l write msg wire = send_loop write (l.bytes msg) l.size (suc l.size) 0 0 wire

unfoldable pub socket_receive_db :
    Layout DbMsg → Answers → List ℕ → Option (ℤ × Option DbMsg × List ℕ)
socket_receive_db l read wire = receive_loop l read (suc l.size) 0 [] wire

unfoldable pub process_create : Io → DbMsg → Disk → Outcome (DbMsg × Disk)
process_create io msg d = db_add_user io d >>= λ (id, _, d'). ret (
  if is_neg id then record msg { type = db_error } else record msg { type = db_ok; global_id = id },
  d',
)

unfoldable pub process_subscribe : Io → DbMsg → Disk → Outcome (DbMsg × Disk)
process_subscribe io msg d = db_subscribe io msg.global_id msg.topic d >>= λ (r, _, d').
    ret (record msg { type = if is_neg r then db_error else db_ok }, d')

-- `for (int i = 0; i < vector_size(&subscribed) && i < MAX_CLIENTS; i++)`, with the rounds that
-- the first test leaves.
unfoldable pub fill : {V : Type 0} → Vector V → V → ℕ → ℕ → DbMsg → DbMsg
fill o subscribed zero i msg = msg
fill o subscribed (suc rounds) i msg =
    let msg' : DbMsg = record msg {
      sub_ids = set msg.sub_ids i (o.vector_item_at subscribed i);
      sub_count = pos (suc i);
    } in
    let rest = fill o subscribed rounds (suc i) msg' in if ltb i max_clients then rest else msg

unfoldable pub process_get_subscribed :
    {V : Type 0} → Vector V → Io → DbMsg → Disk → Outcome (DbMsg × Disk)
process_get_subscribed o io msg d =
    db_get_subscribed o io msg.topic o.vector_new d >>= λ (r, subscribed, d'). ret (
      if is_neg r
          then record msg { type = db_error }
          else record (fill o subscribed (o.vector_size subscribed) 0 msg) { type = db_ok },
      d',
    )

unfoldable pub process_delete : Io → DbMsg → Disk → Outcome (DbMsg × Disk)
process_delete io msg d = db_delete io msg.global_id d >>= λ (r, _, d').
    ret (record msg { type = if is_neg r then db_error else db_ok }, d')

-- The response that `process_message` sends; that sending fails is only logged.
unfoldable pub process_message :
    {V : Type 0} → Vector V → Io → DbMsg → Disk → Outcome (DbMsg × Disk)
process_message o io msg d =
    if msg.type =ℤ db_create
    then process_create io msg d
    else if msg.type =ℤ subscribe_type
    then process_subscribe io msg d
    else if msg.type =ℤ get_subscribed_type
    then process_get_subscribed o io msg d
    else if msg.type =ℤ delete_type
    then process_delete io msg d
    else ret (record msg { type = db_error }, d)
