-- ===== src/Client/BrokerId.antt =====
-- broker/client/broker_id.c and broker_id.h: the table that pairs the ids of the local clients with
-- the ids that the server gives them, in shared memory behind a semaphore.
pub mod Table
pub mod Handshake
pub mod Removal
use sistemas_distribuid.Base.{
  ℕ, zero, suc, ◌+◌, ◌-◌, ◌≤◌, ◌≡◌, ℤ, pos, minus_one, is_neg, ◌=ℤ◌, leb, not, Bool, true,
  if◌then◌else◌, List, [], ◌∷◌, length, take, set, replicate, shift_down, Option, none, some,
  find_first, find_pos, Outcome, ret, exits, ◌>>=◌, ◌>>◌,
}
use sistemas_distribuid.Ipc.Kernel.{
  Calls, getsem, creasem, inisem, creashm, getshm, delsem, delshm, shm_map, p, v,
}

abbrev pub max_local_clients : ℕ
max_local_clients = 10

-- `broker_id_t`
pub record BrokerId : Type 0 where
  pub local_id : ℤ
  pub global_id : ℤ

-- `broker_ids_t` with the value of the table's semaphore.
pub record BrokerIds : Type 0 where
  pub sem : ℕ
  pub count : ℕ
  pub ids : List BrokerId

abbrev pub by_local : BrokerId → ℤ
by_local id = id.local_id

abbrev pub by_global : BrokerId → ℤ
by_global id = id.global_id

-- `ids->ids[0 .. ids->count - 1]`
abbrev pub entries : BrokerIds → List BrokerId
entries t = take t.count t.ids

-- A new segment is filled with zeros. That `inisem` fails is not looked at.
unfoldable pub broker_id_create : Calls → Outcome (ℤ × BrokerIds)
unfolding creasem creashm inisem
broker_id_create k =
    if is_neg (creasem k)
    then exits minus_one
    else if is_neg (creashm k)
    then exits minus_one
    else ret (
      creashm k,
      record {
        sem = if is_neg (inisem k 1 0) then 0 else 1;
        count = 0;
        ids = replicate max_local_clients (record { local_id = pos 0; global_id = pos 0 });
      },
    )

unfoldable pub broker_id_get : Calls → Outcome ℤ
unfolding getshm
broker_id_get k = if is_neg (getshm k) then exits minus_one else ret (getshm k)

-- On success the function ends without a `return`: what its caller reads is the argument
-- `unreturned`. A full table returns between `p` and `v`.
unfoldable pub add_local_id : Calls → ℤ → ℤ → BrokerIds → Outcome (ℤ × BrokerIds)
unfolding shm_map p v
add_local_id k unreturned local_id t = if is_neg (getsem k) then ret (minus_one, t) else do
  taken ← p k t.sem
  shm_map k
  if leb max_local_clients t.count
      then ret (minus_one, record t { sem = taken })
      else (v k taken >>= λ freed. ret (
        unreturned,
        record {
          sem = freed;
          count = suc t.count;
          ids = set t.ids t.count (record { local_id = local_id; global_id = pos 0 });
        },
      ))

-- The loop of `set_global_id`, over the number of entries: the local id of the first entry without
-- a global id, or -1, and the array after it.
unfoldable pub assign : ℤ → ℕ → List BrokerId → ℤ × List BrokerId
assign global_id zero ids = (minus_one, ids)
assign global_id (suc n) [] = (minus_one, [])
assign global_id (suc n) (id ∷ ids) =
    let (local_id, rest) = assign global_id n ids in
    if id.global_id =ℤ pos 0
    then (id.local_id, record id { global_id = global_id } ∷ ids)
    else (local_id, id ∷ rest)

unfoldable pub set_global_id : Calls → ℤ → BrokerIds → Outcome (ℤ × BrokerIds)
unfolding shm_map p v
set_global_id k global_id t = if is_neg (getsem k) then ret (minus_one, t) else do
  taken ← p k t.sem
  shm_map k
  let (assigned, ids) = assign global_id t.count t.ids
  freed ← v k taken
  ret (if is_neg assigned then minus_one else assigned, record t { sem = freed; ids = ids })

-- What the loops of `get_global_id`, and of `get_local_id` and `local_id_exists`, have found.
abbrev pub found_global : Option BrokerId → ℤ
found_global none = minus_one
found_global (some id) = id.global_id

abbrev pub found_local : Option BrokerId → ℤ
found_local none = minus_one
found_local (some id) = id.local_id

unfoldable pub get_global_id : Calls → ℤ → BrokerIds → Outcome (ℤ × BrokerIds)
unfolding shm_map p v
get_global_id k local_id t = if is_neg (getsem k) then ret (minus_one, t) else do
  taken ← p k t.sem
  shm_map k
  let found = found_global (find_first by_local local_id (entries t))
  freed ← v k taken
  ret (if is_neg found then minus_one else found, record t { sem = freed })

unfoldable pub get_local_id : Calls → ℤ → BrokerIds → Outcome (ℤ × BrokerIds)
unfolding shm_map p v
get_local_id k global_id t = if is_neg (getsem k) then ret (minus_one, t) else do
  taken ← p k t.sem
  shm_map k
  let found = found_local (find_first by_global global_id (entries t))
  freed ← v k taken
  ret (if is_neg found then minus_one else found, record t { sem = freed })

-- Without the semaphore it returns -1, which is true as a `bool`.
unfoldable pub local_id_exists : Calls → ℤ → BrokerIds → Outcome (Bool × BrokerIds)
unfolding shm_map p v
local_id_exists k local_id t = if is_neg (getsem k) then ret (true, t) else do
  taken ← p k t.sem
  shm_map k
  let found = found_local (find_first by_local local_id (entries t))
  freed ← v k taken
  ret (not (is_neg found), record t { sem = freed })

-- The body of `remove_id` between `p` and `v`: the position, or -1.
abbrev pub remove_found : BrokerIds → Option ℕ → ℤ × BrokerIds
remove_found t none = (minus_one, t)
remove_found t (some i) =
    (pos i, record t { count = t.count - 1; ids = shift_down (t.count - (i + 1)) i t.ids })

unfoldable pub remove_id : Calls → ℤ → BrokerIds → Outcome (ℤ × BrokerIds)
unfolding shm_map p v
remove_id k local_id t = if is_neg (getsem k) then ret (minus_one, t) else do
  taken ← p k t.sem
  shm_map k
  let (i, t') = remove_found t (find_pos by_local local_id 0 (entries t))
  freed ← v k taken
  ret (i, record t' { sem = freed })

-- Both are deleted, whatever the first deletion returns.
unfoldable pub broker_id_destroy : Calls → ℤ
unfolding delsem delshm
broker_id_destroy k =
    let res = if is_neg (delsem k) then minus_one else pos 0 in
    if is_neg (delshm k) then minus_one else res

-- No operation holds the semaphore, and the entries fit in the array.
pub record IsValid (t : BrokerIds) : Type 0 where
  pub free : t.sem ≡ 1
  pub room : t.count ≤ max_local_clients
  pub whole : length t.ids ≡ max_local_clients
