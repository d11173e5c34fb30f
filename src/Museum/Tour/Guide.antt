-- ===== src/Museum/Tour/Guide.antt =====
-- museum/src/guide.c and museumApi.h: who is taken on a tour, and the guide.
use sistemas_distribuid.Base.{
  ℕ, suc, ◌-◌, ◌==◌, ◌≤◌, ◌<◌, ◌≡◌, refl, ◌∙◌, inl, inr, ℤ, ltb, lt→ltb, not_lt→ltb, dec_lt,
  if◌then◌else◌, Bool-cases, arith, List, [], ◌∷◌, ◌++◌, length, length-append, ret, blocked, ◌=ℤ◌,
}
use sistemas_distribuid.Ipc.Kernel.{Calls, IsUp, p-up, v-up, p-zero, p-cases}
use sistemas_distribuid.Museum.{tour_cap}
use sistemas_distribuid.Museum.Tour.{
  Tour, Message, tour_request, tour_start, go_on_tour, tick, read_people, guide,
}

-- The people that wait fit into the tour, each has its request in the queue, and nobody holds the
-- semaphore of the count.
pub record IsSound (t : Tour) : Type 0 where
  pub free : t.count_sem ≡ 1
  pub fits : t.count ≤ tour_cap
  pub queued : length t.requests ≡ t.count

-- Where the queue holds one request for each person that waits and the semaphore is free, a person
-- is taken on the tour exactly where fewer than five wait, and the fifth one starts it; the
-- semaphore of the count is free again in either case.
pub go_on_tour_lem :
    {k : Calls} (pid : ℤ) (t : Tour)
    → IsUp k
    → IsSound t
    → (t' : Tour) × (go_on_tour k pid t ≡ ret (ltb t.count tour_cap, t'))
      × IsSound t'
      × (t'.count ≡ (if ltb t.count tour_cap then suc t.count else t.count))
      × (t'.start_sem ≡ (if t.count == 4 then suc t.start_sem else t.start_sem))
unfolding go_on_tour
go_on_tour_lem pid t up sound = elim (dec_lt t.count tour_cap) [
  | yes room ↦ elim (Bool-cases (suc t.count == tour_cap)) [
    | inl last ↦ (
      record t {
        count = suc t.count;
        start_sem = suc t.start_sem;
        requests = t.requests ++ record { mtype = pid; type = tour_request } ∷ [];
      },
      rw (sound.free, p-up 0 up, lt→ltb t.count tour_cap room, last, v-up t.start_sem up, v-up 0 up)
          refl,
      record {
        free = sound.free;
        fits = omega arith;
        queued =
            length-append t.requests (record { mtype = pid; type = tour_request } ∷ [])
            ∙ omega (arith, sound.queued);
      },
      rw (lt→ltb t.count tour_cap room) refl,
      ground arith,
    )
    | inr more ↦ (
      record t {
        count = suc t.count;
        requests = t.requests ++ record { mtype = pid; type = tour_request } ∷ [];
      },
      rw (sound.free, p-up 0 up, lt→ltb t.count tour_cap room, more, v-up 0 up) refl,
      record {
        free = sound.free;
        fits = omega arith;
        queued =
            length-append t.requests (record { mtype = pid; type = tour_request } ∷ [])
            ∙ omega (arith, sound.queued);
      },
      rw (lt→ltb t.count tour_cap room) refl,
      ground arith,
    )
  ]
  | no full ↦
      let e = not_lt→ltb t.count tour_cap (omega arith) in
      (
        t,
        rw (sound.free, p-up 0 up, e, v-up 0 up) refl,
        sound,
        rw e refl,
        ground (arith, sound.fits),
      )
]

pub read_people_lem :
    (people : ℕ) (requests responses : List Message) (count : ℕ)
    → 0 < people
    → read_people people requests responses count ≡ blocked
unfolding read_people
read_people_lem people [] responses count h = ground arith
read_people_lem people (m ∷ requests) responses count h =
    rw (lt→ltb 0 people h) (elim (Bool-cases (m.type =ℤ tour_request)) [
      | inl asks ↦ rw asks (
          read_people_lem people requests (responses ++ record m { type = tour_start } ∷ [])
            (count - 1) h)
      | inr other ↦ rw other (read_people_lem people requests responses (count - 1) h)
    ])

guide-blocked : {k : Calls} (t : Tour) → IsUp k → 0 < t.count → guide k t ≡ blocked
unfolding guide
guide-blocked t up waits = elim (p-cases t.start_sem up) [
  | inl asleep ↦ rw asleep refl
  | inr (n, started) ↦ rw started (elim (p-cases t.count_sem up) [
    | inl held ↦ rw held refl
    | inr (m, taken) ↦ rw (taken, read_people_lem t.count t.requests t.responses t.count waits) refl
  ])
]

-- Where somebody waits for the tour, the guide's loop over the people does not end, nor does the
-- guide's round; and while the semaphore of the count is taken, as it is in that loop, nobody can
-- ask for a tour and the timer waits.
guide-stuck :
    {k : Calls} (t : Tour) (pid : ℤ)
    → IsUp k
    → 0 < t.count
    → (read_people t.count t.requests t.responses t.count ≡ blocked)
      × (guide k t ≡ blocked)
      × (go_on_tour k pid (record t { count_sem = 0 }) ≡ blocked)
      × (tick k (record t { count_sem = 0 }) ≡ blocked)
unfolding go_on_tour tick
guide-stuck t pid up waits = (
  read_people_lem t.count t.requests t.responses t.count waits,
  guide-blocked t up waits,
  rw (p-zero up) refl,
  rw (p-zero up) refl,
)
