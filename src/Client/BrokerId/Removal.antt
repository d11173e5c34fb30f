-- ===== src/Client/BrokerId/Removal.antt =====
-- How a client of broker_id.c leaves the table.
use sistemas_distribuid.Base.{
  ℕ, ◌+◌, ◌-◌, ◌<◌, ◌≡◌, sym, ap, ◌∙◌, inl, inr, ℤ, pos, minus_one, is_neg, length-take, shift_down,
  length-shift_down, shift_down-remove_at, none, some, find_first, find_pos, erase_first,
  find_pos-cases, ret, arith, is_none,
}
use sistemas_distribuid.Ipc.Kernel.{Calls, IsUp, shm_map, p, v}
use sistemas_distribuid.Client.BrokerId.{BrokerIds, by_local, entries, remove_id, IsValid}

module _ {k : Calls} {t : BrokerIds} (local_id : ℤ) (up : IsUp k) (valid : IsValid t) where
  remove_lem :
      (i : ℕ)
      → find_pos by_local local_id 0 (entries t) ≡ some i
      → remove_id k local_id t
        ≡ ret
            (pos i, record t { count = t.count - 1; ids = shift_down (t.count - (i + 1)) i t.ids })
  unfolding remove_id shm_map p v
  remove_lem i e = ground (arith, up.sem_found)

  remove_missing :
      find_pos by_local local_id 0 (entries t) ≡ none → remove_id k local_id t ≡ ret (minus_one, t)
  unfolding remove_id shm_map p v
  remove_missing e = ground (arith, up.sem_found)

-- In a valid table remove_id erases the first entry with the local id, the others keep their
-- order; the result is negative exactly when there is none.
pub remove_id-erase :
    {k : Calls} {t : BrokerIds} (local_id : ℤ)
    → IsUp k
    → IsValid t
    → (r : ℤ) × (t' : BrokerIds) × (remove_id k local_id t ≡ ret (r, t'))
      × IsValid t'
      × (entries t' ≡ erase_first by_local local_id (entries t))
      × (is_neg r ≡ is_none (find_first by_local local_id (entries t)))
remove_id-erase {k} {t} local_id up valid = elim (find_pos-cases by_local local_id 0 (entries t)) [
  | inl (a, b, c) ↦ (minus_one, t, remove_missing local_id up valid a, valid, sym c, rw b)
  | inr (i, a, b, c, d) ↦
      let fits : i < t.count =
        omega (arith, length-take t.count t.ids (omega (arith, valid.room, valid.whole))) in
      (
        pos i,
        record t { count = t.count - 1; ids = shift_down (t.count - (i + 1)) i t.ids },
        remove_lem local_id up valid i (a ∙ ap some (omega arith)),
        record {
          free = valid.free;
          room = omega (arith, valid.room);
          whole = length-shift_down (t.count - (i + 1)) i t.ids ∙ valid.whole;
        },
        shift_down-remove_at t.count i t.ids fits (omega (arith, valid.room, valid.whole)) ∙ c,
        ground (arith, d),
      )
]
