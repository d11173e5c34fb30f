-- ===== src/Server/GlobalId/Refine.antt =====
-- The table seen as a finite map from global ids to message types, and its histories.
use sistemas_distribuid.Base.{
  ◌<◌, ◌≡◌, ◌∙◌, ℤ, ◌=ℤ◌, if◌then◌else◌, Option, none, some, find_first, Distinct, Distinct-append,
  Distinct-erase, find_first-append, find_first-erase, subst, sym, dec_lt, Outcome, ret, ◌>>=◌,
  arith,
}
use sistemas_distribuid.Ipc.Kernel.{Calls, IsUp}
use sistemas_distribuid.Server.GlobalId.{
  GlobalId, GlobalIds, key, entries, max_clients, add_global_id, get_mtype, remove_global_id,
  IsValid,
}
use sistemas_distribuid.Server.GlobalId.Table.{
  entry, add_global_id-room, add_global_id-full, get_mtype_lem, mtype_code, remove_global_id-erase,
}

-- The table as a map: the first entry with the id.
abbrev pub view : GlobalIds → ℤ → Option GlobalId
view t global_id = find_first key global_id (entries t)

-- Where the table is valid and its semaphore and segment are there: after adding an id to a table
-- with room, a lookup of it gives the message type that it had before, if it was there, and the
-- new one if not; every other lookup is as before.
pub get_mtype-add :
    {k : Calls} {t : GlobalIds} (global_id mtype other : ℤ)
    → IsUp k
    → IsValid t
    → t.count < max_clients
    → (add_global_id k global_id mtype t >>= λ (r, t'). get_mtype k other t' >>= λ (m, t''). ret m)
      ≡ ret (
          mtype_code (elim (view t other) [
            | none ↦ (if global_id =ℤ other then some (entry global_id mtype) else none)
            | some e ↦ some e
          ]))
get_mtype-add {k} {t} global_id mtype other up valid room =
    let (t', e, valid', es) = add_global_id-room global_id mtype up valid room in
    rw (
      e,
      get_mtype_lem {t = t'} other up valid',
      es,
      find_first-append key other (entries t) (entry global_id mtype),
    )

-- Where the table is valid and its semaphore and segment are there: in a table without repeated
-- ids, removing an id makes its lookup fail and no other.
pub get_mtype-remove :
    {k : Calls} {t : GlobalIds} (global_id other : ℤ)
    → IsUp k
    → IsValid t
    → Distinct key (entries t)
    → (remove_global_id k global_id t >>= λ (r, t'). get_mtype k other t' >>= λ (m, t''). ret m)
      ≡ ret (mtype_code (if global_id =ℤ other then none else view t other))
get_mtype-remove {k} {t} global_id other up valid distinct =
    let (r, t', e, valid', es, _) = remove_global_id-erase global_id up valid in
    rw (
      e,
      get_mtype_lem {t = t'} other up valid',
      es,
      find_first-erase key other global_id (entries t) distinct,
    )

-- The histories of a table: ids are added that are not in it, and ids are removed.
pub data Step (k : Calls) : GlobalIds → GlobalIds → Type 0 where
  add :
      {t t' : GlobalIds} (global_id mtype : ℤ) {r : ℤ}
      → find_first key global_id (entries t) ≡ none
      → add_global_id k global_id mtype t ≡ ret (r, t')
      → Step k t t'
  remove :
      {t t' : GlobalIds} (global_id : ℤ) {r : ℤ}
      → remove_global_id k global_id t ≡ ret (r, t')
      → Step k t t'

pub data Reach (k : Calls) (s : GlobalIds) : GlobalIds → Type 0 where
  here : Reach k s s
  next : {t t' : GlobalIds} → Reach k s t → Step k t t' → Reach k s t'

pub record IsSound (t : GlobalIds) : Type 0 where
  pub valid : IsValid t
  pub distinct : Distinct key (entries t)

ret-snd :
    {r r' : ℤ} {t t' : GlobalIds}
    → ◌≡◌ {A = Outcome (ℤ × GlobalIds)} (ret (r, t)) (ret (r', t'))
    → t ≡ t'
ret-snd h = cc

Step-IsSound : {k : Calls} {t t' : GlobalIds} → IsUp k → Step k t t' → IsSound t → IsSound t'
Step-IsSound {t} up (add global_id mtype fresh e) s = elim (dec_lt t.count max_clients) [
  | yes room ↦
      let (t₁, e₁, valid₁, es) = add_global_id-room global_id mtype up s.valid room in
      subst IsSound (ret-snd (sym e₁ ∙ e)) (record {
        valid = valid₁;
        distinct = rw es (Distinct-append key (entries t) (entry global_id mtype) fresh s.distinct);
      })
  | no full ↦
      subst IsSound
        (ret-snd (sym (add_global_id-full global_id mtype up s.valid (omega arith)) ∙ e)) s
]
Step-IsSound {t} up (remove global_id e) s =
    let (r, t₁, e₁, valid₁, es, _) = remove_global_id-erase global_id up s.valid in
    subst IsSound (ret-snd (sym e₁ ∙ e)) (record {
      valid = valid₁;
      distinct = rw es (Distinct-erase key global_id (entries t) s.distinct);
    })

-- Where the table is valid and its semaphore and segment are there: from a table with distinct
-- ids, every history that removes ids and adds only ids that are not in the table keeps the
-- entries within the array, the semaphore free and the ids distinct.
pub Reach-IsSound : {k : Calls} {s t : GlobalIds} → IsUp k → IsSound s → Reach k s t → IsSound t
Reach-IsSound up sound here = sound
Reach-IsSound up sound (next r st) = Step-IsSound up st (Reach-IsSound up sound r)
