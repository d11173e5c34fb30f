-- ===== src/Client/BrokerId/Table.antt =====
-- What the operations of broker_id.c do to the entries, with the kernel's calls succeeding.
use sistemas_distribuid.Base.{
  ◌≤◌, ◌≡◌, refl, ℤ, minus_one, is_neg, if◌then◌else◌, not, find_first, ret, blocked, arith,
}
use sistemas_distribuid.Ipc.Kernel.{Calls, IsUp, shm_map, p, v}
use sistemas_distribuid.Client.BrokerId.{
  BrokerIds, by_local, by_global, entries, max_local_clients, found_global, found_local,
  add_local_id, set_global_id, get_global_id, get_local_id, local_id_exists, remove_id, IsValid,
}

-- The operations on a table whose semaphore is taken wait for ever.
pub all_blocked :
    {k : Calls} (t : BrokerIds) (unreturned id : ℤ)
    → IsUp k
    → t.sem ≡ 0
    → (add_local_id k unreturned id t ≡ blocked)
      × (set_global_id k id t ≡ blocked)
      × (get_global_id k id t ≡ blocked)
      × (get_local_id k id t ≡ blocked)
      × (local_id_exists k id t ≡ blocked)
      × (remove_id k id t ≡ blocked)
unfolding add_local_id set_global_id get_global_id get_local_id local_id_exists remove_id shm_map p
    v
all_blocked {k} t unreturned id up taken =
    rw (up.sem_found, up.operated, taken) (refl, refl, refl, refl, refl, refl)

-- An addition to a full table fails and keeps the semaphore.
pub add_local_id-full :
    {k : Calls} {t : BrokerIds} (unreturned local_id : ℤ)
    → IsUp k
    → IsValid t
    → max_local_clients ≤ t.count
    → add_local_id k unreturned local_id t ≡ ret (minus_one, record t { sem = 0 })
unfolding add_local_id shm_map p v
add_local_id-full {k} {t} unreturned local_id up valid full =
    ground (arith, up.sem_found, up.mapped, up.operated, valid.free)

-- What the two lookups return for the entry that they find.
abbrev pub code : ℤ → ℤ
code found = if is_neg found then minus_one else found

pub get_global_id_lem :
    {k : Calls} {t : BrokerIds} (local_id : ℤ)
    → IsUp k
    → IsValid t
    → get_global_id k local_id t
      ≡ ret (code (found_global (find_first by_local local_id (entries t))), t)
unfolding get_global_id shm_map p v
get_global_id_lem {k} {t} local_id up valid = ground (arith, up.sem_found)

pub get_local_id_lem :
    {k : Calls} {t : BrokerIds} (global_id : ℤ)
    → IsUp k
    → IsValid t
    → get_local_id k global_id t
      ≡ ret (code (found_local (find_first by_global global_id (entries t))), t)
unfolding get_local_id shm_map p v
get_local_id_lem {k} {t} global_id up valid = ground (arith, up.sem_found)

pub local_id_exists_lem :
    {k : Calls} {t : BrokerIds} (local_id : ℤ)
    → IsUp k
    → IsValid t
    → local_id_exists k local_id t
      ≡ ret (not (is_neg (found_local (find_first by_local local_id (entries t)))), t)
unfolding local_id_exists shm_map p v
local_id_exists_lem {k} {t} local_id up valid = ground (arith, up.sem_found)
