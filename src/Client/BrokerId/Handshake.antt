-- ===== src/Client/BrokerId/Handshake.antt =====
-- How a client of broker_id.c comes to have its two ids.
use sistemas_distribuid.Base.{
  Bool, Option, Bool-cases, if◌then◌else◌, ℕ, zero, suc, ◌<◌, ◌≡◌, ◌≢◌, refl, ap, ◌∙◌, inl, inr, ℤ,
  pos, is_neg, ◌=ℤ◌, =ℤ_iff, =ℤ_refl, false, List, [], ◌∷◌, ◌++◌, length, take, set, length-set,
  length-take, take-set, none, some, find_first, find_first-append, ret, ◌>>=◌, arith, Bool-cases,
}
use sistemas_distribuid.Ipc.Kernel.{Calls, IsUp, shm_map, p, v}
use sistemas_distribuid.Client.BrokerId.{
  BrokerId, BrokerIds, by_local, by_global, entries, max_local_clients, add_local_id, assign,
  set_global_id, get_global_id, get_local_id, IsValid, found_local,
}
use sistemas_distribuid.Client.BrokerId.Table.{code, get_global_id_lem, get_local_id_lem}

abbrev pub pair : ℤ → ℤ → BrokerId
pair local_id global_id = record { local_id = local_id; global_id = global_id }

-- No entry waits for its global id.
abbrev pub IsSettled : BrokerIds → Type 0
IsSettled t = find_first by_global (pos 0) (entries t) ≡ none

pub add_local_id-room :
    {k : Calls} {t : BrokerIds} (unreturned local_id : ℤ)
    → IsUp k
    → IsValid t
    → t.count < max_local_clients
    → (t' : BrokerIds) × (add_local_id k unreturned local_id t ≡ ret (unreturned, t'))
      × IsValid t'
      × (t'.count ≡ suc t.count)
      × (entries t' ≡ entries t ++ pair local_id (pos 0) ∷ [])
unfolding add_local_id shm_map p v
add_local_id-room {k} {t} unreturned local_id up valid room = (
  record t { count = suc t.count; ids = set t.ids t.count (pair local_id (pos 0)) },
  ground (arith, up.sem_found),
  record {
    free = valid.free;
    room = omega arith;
    whole = length-set t.ids t.count (pair local_id (pos 0)) ∙ valid.whole;
  },
  refl,
  take-set t.count t.ids (pair local_id (pos 0)) (omega arith),
)

-- The loop keeps the array's length, and gives the id to an entry that only the last one lacks.
length-assign : (g : ℤ) (n : ℕ) (ids : List BrokerId) → length (assign g n ids).1 ≡ length ids
unfolding assign
length-assign g zero ids = refl
length-assign g (suc n) [] = refl
length-assign g (suc n) (id ∷ ids) = ground (arith, length-assign g n ids)

assign-take :
    (g : ℤ) (n : ℕ) (ids : List BrokerId)
    → ((assign g n ids).0 ≡ (assign g n (take n ids)).0)
      × (take n (assign g n ids).1 ≡ (assign g n (take n ids)).1)
unfolding assign
assign-take g zero ids = (refl, refl)
assign-take g (suc n) [] = (refl, refl)
assign-take g (suc n) (id ∷ ids) =
    let (a, b) = assign-take g n ids in
    elim (Bool-cases (id.global_id =ℤ pos 0)) [
      | inl waits ↦ rw waits (refl, refl)
      | inr settled ↦ rw settled (a, ap (◌∷◌ id) b)
    ]

assign-append :
    (g l : ℤ) (xs : List BrokerId)
    → find_first by_global (pos 0) xs ≡ none
    → ◌≡◌ {A = ℤ × List BrokerId}
        (assign g (suc (length xs)) (xs ++ pair l (pos 0) ∷ []))
        (l, xs ++ pair l g ∷ [])
unfolding assign find_first
assign-append g l [] h = refl
assign-append g l (id ∷ xs) h = elim (Bool-cases (id.global_id =ℤ pos 0)) [
  | inl waits ↦ absurd (ground arith)
  | inr settled ↦ rw (settled, assign-append g l xs (rw settled at h)) refl
]

pub set_global_id_lem :
    {k : Calls} {t : BrokerIds} (global_id local_id : ℤ) (xs : List BrokerId)
    → IsUp k
    → IsValid t
    → t.count ≡ suc (length xs)
    → entries t ≡ xs ++ pair local_id (pos 0) ∷ []
    → find_first by_global (pos 0) xs ≡ none
    → (t' : BrokerIds) × (set_global_id k global_id t ≡ ret (code local_id, t'))
      × IsValid t'
      × (entries t' ≡ xs ++ pair local_id global_id ∷ [])
unfolding set_global_id shm_map p v
set_global_id_lem {k} {t} global_id local_id xs up valid n es h =
    let (a, b) = assign-take global_id t.count t.ids in
    let last : ◌≡◌ {A = ℤ × List BrokerId} (assign global_id t.count (entries t))
        (local_id, xs ++ pair local_id global_id ∷ []) =
      rw (es, n) (assign-append global_id local_id xs h) in
    (
      record t { ids = (assign global_id t.count t.ids).1 },
      rw (up.sem_found, up.operated, valid.free, up.mapped, a, last) refl,
      record {
        free = valid.free;
        room = valid.room;
        whole = length-assign global_id t.count t.ids ∙ valid.whole;
      },
      b ∙ ap (λ r. r.1) last,
    )

-- The id goes to the first entry that waits.
assign-found :
    (g : ℤ) (n : ℕ) (ids : List BrokerId)
    → (assign g n ids).0 ≡ found_local (find_first by_global (pos 0) (take n ids))
unfolding assign find_first
assign-found g zero ids = refl
assign-found g (suc n) [] = refl
assign-found g (suc n) (id ∷ ids) = elim (Bool-cases (id.global_id =ℤ pos 0)) [
  | inl waits ↦ rw waits refl
  | inr settled ↦ rw settled (assign-found g n ids)
]

pub set_global_id-first :
    {k : Calls} {t : BrokerIds} (global_id : ℤ)
    → IsUp k
    → IsValid t
    → (t' : BrokerIds) × (set_global_id k global_id t
        ≡ ret (code (found_local (find_first by_global (pos 0) (entries t))), t'))
unfolding set_global_id shm_map p v
set_global_id-first {k} {t} global_id up valid = (
  record t { ids = (assign global_id t.count t.ids).1 },
  rw (up.sem_found, up.operated, valid.free, up.mapped, assign-found global_id t.count t.ids) refl,
)

or_none :
    (b : Bool) (o last : Option BrokerId)
    → b ≡ false
    → elim o [ none ↦ (if b then last else none) | some e ↦ some e ] ≡ o
or_none b none last h = rw h refl
or_none b (some e) last h = refl

-- In a valid table with room, a client that is new in it and added while no other waits, and whose
-- global id, new as well and not 0, arrives next, is paired with it: afterwards each of its ids is
-- found from the other, the other clients are found as before, and again no client waits.
handshake :
    {k : Calls} {t : BrokerIds} (unreturned local_id global_id : ℤ)
    → IsUp k
    → IsValid t
    → t.count < max_local_clients
    → IsSettled t
    → is_neg local_id ≡ false
    → is_neg global_id ≡ false
    → global_id ≢ pos 0
    → find_first by_local local_id (entries t) ≡ none
    → find_first by_global global_id (entries t) ≡ none
    → (t' : BrokerIds) × ((add_local_id k unreturned local_id t >>= λ (r, t₁).
          set_global_id k global_id t₁)
        ≡ ret (local_id, t'))
      × IsValid t'
      × IsSettled t'
      × (get_global_id k local_id t' ≡ ret (global_id, t'))
      × (get_local_id k global_id t' ≡ ret (local_id, t'))
      × ((l : ℤ)
          → find_first by_local l (entries t') ≡ (
              if local_id =ℤ l
              then some (pair local_id global_id)
              else find_first by_local l (entries t)))
handshake {k} {t} unreturned local_id global_id up valid room settled hl hg nonzero fresh_l
      fresh_g =
    let (t₁, e₁, valid₁, n, es₁) = add_local_id-room unreturned local_id up valid room in
    let len : length (entries t) ≡ t.count =
      length-take t.count t.ids (omega (arith, valid.whole, valid.room)) in
    let (t₂, e₂, valid₂, es₂) =
      set_global_id_lem global_id local_id (entries t) up valid₁ (omega arith) es₁ settled in
    (
      t₂,
      rw (e₁, e₂, hl) refl,
      valid₂,
      rw (es₂, find_first-append by_global (pos 0) (entries t) (pair local_id global_id), settled)
          (ground (arith, =ℤ_iff global_id (pos 0))),
      rw
          (
            get_global_id_lem {t = t₂} local_id up valid₂,
            es₂,
            find_first-append by_local local_id (entries t) (pair local_id global_id),
            fresh_l,
            =ℤ_refl local_id,
            hg,
          )
          refl,
      rw
          (
            get_local_id_lem {t = t₂} global_id up valid₂,
            es₂,
            find_first-append by_global global_id (entries t) (pair local_id global_id),
            fresh_g,
            =ℤ_refl global_id,
            hl,
          )
          refl,
      λ l.
          rw (es₂, find_first-append by_local l (entries t) (pair local_id global_id))
            (elim (Bool-cases (local_id =ℤ l)) [
              | inl same ↦
                  let absent : find_first by_local l (entries t) ≡ none =
                    rw (← (=ℤ_iff local_id l).0 same) fresh_l in
                  rw (absent, same) refl
              | inr other ↦ rw other (
                  or_none (local_id =ℤ l) (find_first by_local l (entries t))
                    (some (pair local_id global_id)) other)
            ]),
    )
