-- ===== src/Tests/Server.antt =====
-- broker/server: the clients 3 and 4 of two machines, whose handlers have the types 30 and 40.
use sistemas_distribuid.Base.{
  ◌≤◌, ◌<◌, ◌≡◌, ◌⊎◌, refl, inr, ℤ, pos, minus_one, is_neg, ◌=ℤ◌, to_int, if◌then◌else◌, true,
  false, keep, map, first, List, [], ◌∷◌, ◌++◌, replicate, none, some, find_first, Distinct, ret,
  ◌>>=◌, arith,
}
use sistemas_distribuid.Ipc.Message.{Msg, create, publish, subscribe, ack_error, ack_create}
use sistemas_distribuid.Ipc.Kernel.{getsem}
use sistemas_distribuid.Ipc.MsgQueue.{sendmsg}
use sistemas_distribuid.Ipc.Vector.{items}
use sistemas_distribuid.Server.GlobalId.{
  GlobalIds, IsValid, max_clients, entries, key, add_global_id, get_mtype, remove_global_id,
}
use sistemas_distribuid.Server.GlobalId.Table.{entry, mtype_code}
use sistemas_distribuid.Server.GlobalId.Refine.{
  view, get_mtype-add, get_mtype-remove, Step, Reach, IsSound, Reach-IsSound,
}
use sistemas_distribuid.Server.Worker.{
  Db, Env, World, process_create, process_msg, send_loop, send_one, send_to_subs, worker,
}
use sistemas_distribuid.Server.Worker.Deliver.{mtype_of, is_local, address, deliveries, Sends}
use sistemas_distribuid.Server.Worker.Publish.{
  is_remote, forwards, send_to_subs-delivers, send_to_subs_lem,
}
use sistemas_distribuid.Server.Worker.Requests.{process_msg-unknown}
use sistemas_distribuid.Server.Worker.Total.{process_create_lem, worker_total}
use sistemas_distribuid.Server.Edges.{process_message}
use sistemas_distribuid.Server.Edges
use sistemas_distribuid.Server.Edges.Ring.{forwarded, arrived, world_of, process_msg-forwarded}
use sistemas_distribuid.Tests.Setup.{calls, calls-IsUp, queue, queue-IsMsgQueue, vector, message}

abbrev pub two : GlobalIds
two = record {
  sem = 1;
  count = 2;
  ids = entry (pos 3) (pos 30) ∷ entry (pos 4) (pos 40) ∷ replicate 48 (entry (pos 0) (pos 0));
}

abbrev pub empty : GlobalIds
empty = record { sem = 1; count = 0; ids = replicate 50 (entry (pos 0) (pos 0)) }

pub two-IsValid : IsValid two
two-IsValid = record { free = refl; room = omega arith; whole = refl }

pub empty-IsValid : IsValid empty
empty-IsValid = record { free = refl; room = omega arith; whole = refl }

-- The database is the list of the subscribers of every topic.
abbrev pub db : Db (List ℤ) (List ℤ)
db = record {
  db_add_user = λ d. (pos 5, d);
  db_subscribe = λ id topic d. (pos 0, d ++ id ∷ []);
  db_get_subscribed = λ topic v d. (pos 0, d, d);
  db_delete = λ id d. (pos 0, d);
}

abbrev pub env : Env (List ℤ) (List Msg) (List ℤ)
env = record { broker_id = pos 1; calls = calls; db = db; queue = queue; vector = vector }

abbrev pub subs : List ℤ
subs = pos 8 ∷ pos 4 ∷ pos 3 ∷ pos 9 ∷ []

abbrev pub world : World (List ℤ) (List Msg)
world = record { ids = two; conn = subs; resp = [] }

pub two-Distinct : Distinct key (entries two)
unfolding find_first
two-Distinct = (refl, (refl, tt))

away : is_local two (pos 8) ≡ false
unfolding find_first
away = refl

away_int : is_local two (to_int (pos 8)) ≡ false
unfolding find_first to_int
away_int = refl

pub known : is_neg (mtype_of two (pos 3)) ≡ false
unfolding find_first
known = refl

fresh : find_first key (pos 3) (entries empty) ≡ none
unfolding find_first
fresh = refl

abbrev one : GlobalIds
one = record {
  sem = 1;
  count = 1;
  ids = entry (pos 3) (pos 30) ∷ replicate 49 (entry (pos 0) (pos 0));
}

added : add_global_id calls (pos 3) (pos 30) empty ≡ ret (pos 3, one)
unfolding add_global_id sistemas_distribuid.Ipc.Kernel.getsem
added = refl

one_added : Reach calls empty one
one_added = Reach.next Reach.here (Step.add (pos 3) (pos 30) fresh added)

send_to_subs_example :
    ((is_neg (pos 0) ≡ true)
      × (send_to_subs env (message 3 publish) world ≡ ret (minus_one, world)))
    ⊎ ((is_neg (pos 0) ≡ false)
        × Sends env
            (send_to_subs env (message 3 publish) world)
            world
            (deliveries two (message 3 publish) false (items vector subs)))
send_to_subs_example =
    send_to_subs_lem env calls-IsUp queue-IsMsgQueue (message 3 publish) world two-IsValid refl

-- With the next server of the ring connected, under the id 0 and the type 90.
abbrev pub ring : World (List ℤ) (List Msg)
ring = record world {
  ids = record {
    sem = 1;
    count = 3;
    ids =
        entry (pos 3) (pos 30)
        ∷ entry (pos 4) (pos 40)
        ∷ entry (pos 0) (pos 90)
        ∷ replicate 47 (entry (pos 0) (pos 0));
  };
}

pub ring-IsValid : IsValid ring.ids
ring-IsValid = record { free = refl; room = omega arith; whole = refl }

abbrev delivered : World (List ℤ) (List Msg)
delivered = record ring {
  resp =
      address (message 3 publish) (pos 8) (pos 90)
      ∷ address (message 3 publish) (pos 4) (pos 40)
      ∷ address (message 3 publish) (pos 3) (pos 30)
      ∷ [];
}

ring_sends : send_to_subs env (message 3 publish) ring ≡ ret (pos 0, delivered)
unfolding send_to_subs send_loop send_one get_mtype getsem find_first sendmsg
ring_sends = refl

send_to_subs-delivers_example :
    (out : List Msg) × (delivered.resp ≡ [] ++ out)
    × (keep (λ m. is_local ring.ids m.global_id) out
        ≡ map
            (λ s. address (message 3 publish) s (mtype_of ring.ids s))
            (keep (is_local ring.ids) (items vector subs)))
    × (keep (λ m. is_remote ring.ids m.global_id) out
        ≡ forwards ring.ids (message 3 publish) (first (is_remote ring.ids) (items vector subs)))
send_to_subs-delivers_example =
    send_to_subs-delivers env calls-IsUp queue-IsMsgQueue (message 3 publish) ring ring-IsValid refl
      ring_sends

worker_total_example :
    (w' : World (List ℤ) (List Msg)) × (worker env
        (message 3 publish ∷ message 4 subscribe ∷ message 9 create ∷ [])
        world
      ≡ ret w')
    × IsValid w'.ids
worker_total_example =
    worker_total env calls-IsUp queue-IsMsgQueue
      (message 3 publish ∷ message 4 subscribe ∷ message 9 create ∷ []) world two-IsValid

process_msg-unknown_example : process_msg env (message 8 publish) world ≡ ret world
process_msg-unknown_example =
    process_msg-unknown env calls-IsUp queue-IsMsgQueue (message 8 publish) world two-IsValid
      away_int (inr refl)

process_create_example :
    ((is_neg (pos 5) ≡ true)
      × (process_create env (message 9 create) world
          ≡ ret (record (message 9 create) { global_id = pos 5; type = ack_error }, world)))
    ⊎ ((is_neg (pos 5) ≡ false)
        × (2 < max_clients)
        × ((ids : GlobalIds) × (process_create env (message 9 create) world
              ≡ ret (
                record (message 9 create) { global_id = pos 5; type = ack_create },
                record world { ids = ids },
              ))
            × IsValid ids
            × (entries ids ≡ entries two ++ entry (pos 5) (to_int (pos 9)) ∷ [])))
    ⊎ ((is_neg (pos 5) ≡ false)
        × (max_clients ≤ 2)
        × (process_create env (message 9 create) world
            ≡ ret (record (message 9 create) { global_id = pos 5; type = ack_error }, world)))
process_create_example = process_create_lem env calls-IsUp (message 9 create) world two-IsValid refl

get_mtype-add_example :
    (add_global_id calls (pos 5) (pos 50) two >>= λ (r, t').
    get_mtype calls (pos 5) t' >>= λ (m, t''). ret m)
    ≡ ret (
        mtype_code (elim (view two (pos 5)) [
          | none ↦ (if pos 5 =ℤ pos 5 then some (entry (pos 5) (pos 50)) else none)
          | some e ↦ some e
        ]))
get_mtype-add_example =
    get_mtype-add {t = two} (pos 5) (pos 50) (pos 5) calls-IsUp two-IsValid (omega arith)

get_mtype-remove_example :
    (remove_global_id calls (pos 3) two >>= λ (r, t').
    get_mtype calls (pos 4) t' >>= λ (m, t''). ret m)
    ≡ ret (mtype_code (if pos 3 =ℤ pos 4 then none else view two (pos 4)))
get_mtype-remove_example =
    get_mtype-remove {t = two} (pos 3) (pos 4) calls-IsUp two-IsValid two-Distinct

Reach-IsSound_example : IsSound one
Reach-IsSound_example =
    Reach-IsSound {s = empty} calls-IsUp (record { valid = empty-IsValid; distinct = tt }) one_added

abbrev pub to_wire : Msg → List Msg → ℤ × List Msg
to_wire m s = (pos 1, s ++ m ∷ [])

-- A copy that the server with the id 2 forwards.
abbrev from_other : Msg
from_other = record (message 3 publish) { broker_id = pos 2 }

process_msg-forwarded_example :
    (Edges.process_msg to_wire (forwarded two from_other (pos 4)) []
      ≡ (to_wire (arrived two from_other (pos 4)) []).1)
    × (process_msg env (arrived two from_other (pos 4)) ring ≡ (
        if is_neg (mtype_of ring.ids (pos 4))
        then ret ring
        else (send_to_subs env (address from_other (pos 4) (mtype_of ring.ids (pos 4))) ring
            >>= world_of)))
process_msg-forwarded_example =
    process_msg-forwarded env to_wire two from_other (pos 4) ring [] calls-IsUp ring-IsValid
      (omega arith) refl refl refl
