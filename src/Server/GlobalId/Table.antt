-- ===== src/Server/GlobalId/Table.antt =====
-- What the operations of global_id.c do to the entries, with the kernel's calls succeeding.
use sistemas_distribuid.Base.{
  ℕ, suc, ◌+◌, ◌-◌, ◌≤◌, ◌<◌, ◌≡◌, sym, ap, ◌∙◌, inl, inr, ℤ, pos, minus_one, is_neg, if◌then◌else◌,
  [], ◌∷◌, ◌++◌, set, length-set, length-take, take-set, shift_down, length-shift_down, Option,
  none, some, find_first, find_pos, erase_first, find_pos-cases, ret, arith, is_none,
  shift_down-remove_at,
}
use sistemas_distribuid.Ipc.Kernel.{Calls, IsUp, shm_map, p, v}
use sistemas_distribuid.Server.GlobalId.{
  GlobalId, GlobalIds, key, entries, max_clients, no_mtype_found_code, add_global_id, get_mtype,
  remove_global_id, IsValid,
}

-- The entry that an operation appends.
abbrev pub entry : ℤ → ℤ → GlobalId
entry global_id mtype = record { mtype = mtype; global_id = global_id }

-- With room left, the new entry goes to the end, and the id is returned.
pub add_global_id-room :
    {k : Calls} {t : GlobalIds} (global_id mtype : ℤ)
    → IsUp k
    → IsValid t
    → t.count < max_clients
    → (t' : GlobalIds) × (add_global_id k global_id mtype t ≡ ret (global_id, t'))
      × IsValid t'
      × (entries t' ≡ entries t ++ entry global_id mtype ∷ [])
unfolding add_global_id shm_map p v
add_global_id-room {k} {t} global_id mtype up valid room = (
  record t { count = suc t.count; ids = set t.ids t.count (entry global_id mtype) },
  ground (arith, up.sem_found),
  record {
    free = valid.free;
    room = omega arith;
    whole = length-set t.ids t.count (entry global_id mtype) ∙ valid.whole;
  },
  take-set t.count t.ids (entry global_id mtype) (omega arith),
)

-- A full table is left as it is, with its semaphore free, and -1 is returned.
pub add_global_id-full :
    {k : Calls} {t : GlobalIds} (global_id mtype : ℤ)
    → IsUp k
    → IsValid t
    → max_clients ≤ t.count
    → add_global_id k global_id mtype t ≡ ret (minus_one, t)
unfolding add_global_id shm_map p v
add_global_id-full {k} {t} global_id mtype up valid full = ground (arith, up.sem_found)

-- What `get_mtype` makes of the entry that is found.
abbrev pub mtype_code : Option GlobalId → ℤ
mtype_code none = no_mtype_found_code
mtype_code (some id) = if is_neg id.mtype then no_mtype_found_code else id.mtype

pub get_mtype_lem :
    {k : Calls} {t : GlobalIds} (global_id : ℤ)
    → IsUp k
    → IsValid t
    → get_mtype k global_id t ≡ ret (mtype_code (find_first key global_id (entries t)), t)
unfolding get_mtype shm_map p v
get_mtype_lem {k} {t} global_id up valid = ground (arith, up.sem_found)

remove_lem :
    {k : Calls} {t : GlobalIds} (global_id : ℤ) (i : ℕ)
    → IsUp k
    → IsValid t
    → find_pos key global_id 0 (entries t) ≡ some i
    → remove_global_id k global_id t
      ≡ ret (pos i, record t { count = t.count - 1; ids = shift_down (t.count - (i + 1)) i t.ids })
unfolding remove_global_id shm_map p v
remove_lem {k} {t} global_id i up valid e = ground (arith, up.sem_found)

remove_missing :
    {k : Calls} {t : GlobalIds} (global_id : ℤ)
    → IsUp k
    → IsValid t
    → find_pos key global_id 0 (entries t) ≡ none
    → remove_global_id k global_id t ≡ ret (minus_one, t)
unfolding remove_global_id shm_map p v
remove_missing {k} {t} global_id up valid e = ground (arith, up.sem_found)

-- In a valid table remove_global_id erases the first entry with the id, the others keep their
-- order; the result is negative exactly when there is none.
pub remove_global_id-erase :
    {k : Calls} {t : GlobalIds} (global_id : ℤ)
    → IsUp k
    → IsValid t
    → (r : ℤ) × (t' : GlobalIds) × (remove_global_id k global_id t ≡ ret (r, t'))
      × IsValid t'
      × (entries t' ≡ erase_first key global_id (entries t))
      × (is_neg r ≡ is_none (find_first key global_id (entries t)))
remove_global_id-erase {k} {t} global_id up valid =
    elim (find_pos-cases key global_id 0 (entries t)) [
      | inl (a, b, c) ↦ (minus_one, t, remove_missing global_id up valid a, valid, sym c, rw b)
      | inr (i, a, b, c, d) ↦
          let fits : i < t.count =
            omega (arith, length-take t.count t.ids (omega (arith, valid.room, valid.whole))) in
          (
            pos i,
            record t { count = t.count - 1; ids = shift_down (t.count - (i + 1)) i t.ids },
            remove_lem global_id i up valid (a ∙ ap some (omega arith)),
            record {
              free = valid.free;
              room = omega (arith, valid.room);
              whole = length-shift_down (t.count - (i + 1)) i t.ids ∙ valid.whole;
            },
            shift_down-remove_at t.count i t.ids fits (omega (arith, valid.room, valid.whole)) ∙ c,
            ground (arith, d),
          )
    ]
