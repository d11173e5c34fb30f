-- ===== src/Server/GlobalId.antt =====
-- broker/server/global_id.c and global_id.h: the table from global ids to message types, in shared
-- memory behind a semaphore.
pub mod Table
pub mod Refine
use sistemas_distribuid.Base.{
  ℕ, zero, suc, ◌+◌, ◌-◌, ◌≤◌, ◌≡◌, ℤ, pos, negsuc, minus_one, is_neg, leb, if◌then◌else◌, List,
  ◌∷◌, length, take, set, replicate, shift_down, Option, none, some, find_first, find_pos, Distinct,
  Outcome, ret, exits, ◌>>=◌, ◌>>◌,
}
use sistemas_distribuid.Ipc.Kernel.{
  Calls, getsem, creasem, inisem, creashm, getshm, delsem, delshm, shm_map, p, v,
}

abbrev pub max_clients : ℕ
max_clients = 50

abbrev pub no_mtype_found_code : ℤ
no_mtype_found_code = negsuc 1

-- `global_id_t`
pub record GlobalId : Type 0 where
  pub mtype : ℤ
  pub global_id : ℤ

-- `global_ids_t` with the value of the table's semaphore.
pub record GlobalIds : Type 0 where
  pub sem : ℕ
  pub count : ℕ
  pub ids : List GlobalId

abbrev pub key : GlobalId → ℤ
key id = id.global_id

-- `ids->ids[0 .. ids->count - 1]`
abbrev pub entries : GlobalIds → List GlobalId
entries t = take t.count t.ids

-- A new segment is filled with zeros. That `inisem` fails is not looked at.
unfoldable pub global_ids_create : Calls → Outcome (ℤ × GlobalIds)
unfolding creasem creashm inisem
global_ids_create k =
    if is_neg (creasem k)
    then exits minus_one
    else if is_neg (creashm k)
    then exits minus_one
    else ret (
      creashm k,
      record {
        sem = if is_neg (inisem k 1 0) then 0 else 1;
        count = 0;
        ids = replicate max_clients (record { mtype = pos 0; global_id = pos 0 });
      },
    )

unfoldable pub global_ids_get : Calls → Outcome ℤ
unfolding getshm
global_ids_get k = if is_neg (getshm k) then exits minus_one else ret (getshm k)

unfoldable pub add_global_id : Calls → ℤ → ℤ → GlobalIds → Outcome (ℤ × GlobalIds)
unfolding shm_map p v
add_global_id k global_id mtype t = if is_neg (getsem k) then ret (minus_one, t) else do
  shm_map k
  taken ← p k t.sem
  freed ← v k taken
  ret (
      if leb max_clients t.count then (minus_one, record t { sem = freed }) else (
        global_id,
        record {
          sem = freed;
          count = suc t.count;
          ids = set t.ids t.count (record { mtype = mtype; global_id = global_id });
        },
      ))

-- The message type that the loop has found, or -1.
abbrev found_mtype : Option GlobalId → ℤ
found_mtype none = minus_one
found_mtype (some id) = id.mtype

unfoldable pub get_mtype : Calls → ℤ → GlobalIds → Outcome (ℤ × GlobalIds)
unfolding shm_map p v
get_mtype k global_id t = if is_neg (getsem k) then ret (minus_one, t) else do
  shm_map k
  taken ← p k t.sem
  let found = found_mtype (find_first key global_id (entries t))
  freed ← v k taken
  ret (if is_neg found then no_mtype_found_code else found, record t { sem = freed })

-- The body of `remove_global_id` between `p` and `v`: the position, or -1.
abbrev remove_found : GlobalIds → Option ℕ → ℤ × GlobalIds
remove_found t none = (minus_one, t)
remove_found t (some i) =
    (pos i, record t { count = t.count - 1; ids = shift_down (t.count - (i + 1)) i t.ids })

unfoldable pub remove_global_id : Calls → ℤ → GlobalIds → Outcome (ℤ × GlobalIds)
unfolding shm_map p v
remove_global_id k global_id t = if is_neg (getsem k) then ret (minus_one, t) else do
  shm_map k
  taken ← p k t.sem
  let (i, t') = remove_found t (find_pos key global_id 0 (entries t))
  freed ← v k taken
  ret (i, record t' { sem = freed })

unfoldable pub global_ids_destroy : Calls → ℤ
unfolding delsem delshm
global_ids_destroy k =
    if is_neg (delsem k) then minus_one else if is_neg (delshm k) then minus_one else pos 0

-- No operation holds the semaphore, and the entries fit in the array.
pub record IsValid (t : GlobalIds) : Type 0 where
  pub free : t.sem ≡ 1
  pub room : t.count ≤ max_clients
  pub whole : length t.ids ≡ max_clients
