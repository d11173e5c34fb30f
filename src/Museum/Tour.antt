-- ===== src/Museum/Tour.antt =====
-- The tour: `go_on_tour` of museum/src/museumApi.h, timer.c and guide.c, over the number of people
-- that wait, the two semaphores and the queue of requests.
pub mod Guide
use sistemas_distribuid.Base.{
  ℕ, zero, suc, ◌+◌, ◌-◌, ◌==◌, ℤ, pos, ltb, Bool, true, false, if◌then◌else◌, List, [], ◌∷◌, ◌++◌,
  Outcome, ret, blocked, ◌>>=◌, ◌=ℤ◌,
}
use sistemas_distribuid.Ipc.Kernel.{Calls, p, v}
use sistemas_distribuid.Museum.{tour_cap}

abbrev pub tour_request : ℤ
tour_request = pos 5

abbrev pub tour_start : ℤ
tour_start = pos 6

-- `message_t`
pub record Message : Type 0 where
  pub mtype : ℤ
  pub type : ℤ

-- `*tour_count_shm`, which is raised only below `TOUR_CAP`; its semaphore and that of the start;
-- and the two queues of the tour.
pub record Tour : Type 0 where
  pub count : ℕ
  pub count_sem : ℕ
  pub start_sem : ℕ
  pub requests : List Message
  pub responses : List Message

-- `create_tour` of main.c, with every call succeeding
unfoldable pub create_tour : Tour
create_tour = record { count = 0; count_sem = 1; start_sem = 0; requests = []; responses = [] }

-- `go_on_tour` up to the wait for the guide: whether the person waits. The calls that send succeed.
unfoldable pub go_on_tour : Calls → ℤ → Tour → Outcome (Bool × Tour)
go_on_tour k pid t = p k t.count_sem >>= λ taken.
    if ltb t.count tour_cap
    then (let count = suc t.count in
        (if count == tour_cap then v k t.start_sem else ret t.start_sem) >>= λ start_sem.
        v k taken >>= λ freed. ret (
          true,
          record t {
            count = count;
            count_sem = freed;
            start_sem = start_sem;
            requests = t.requests ++ record { mtype = pid; type = tour_request } ∷ [];
          },
        ))
    else (v k taken >>= λ freed. ret (false, record t { count_sem = freed }))

-- One round of the loop of timer.c
unfoldable pub tick : Calls → Tour → Outcome Tour
tick k t = p k t.count_sem >>= λ taken.
    (if ltb 0 t.count then v k t.start_sem else ret t.start_sem) >>= λ start_sem.
    v k taken >>= λ freed. ret (record t { count_sem = freed; start_sem = start_sem })

-- `for (int i = 0; i < people_for_tour;)` of guide.c, with the requests that are left, the
-- responses and the count: nothing in its body changes `i`, so it leaves only where nobody waits at
-- its start. Each round takes a request, and waits for ever where none is left, since the semaphore
-- that a new one needs is taken.
unfoldable pub read_people :
    ℕ → List Message → List Message → ℕ → Outcome (List Message × List Message × ℕ)
read_people people [] responses count = if ltb 0 people then blocked else ret ([], responses, count)
read_people people (m ∷ requests) responses count =
    let answered =
      if m.type =ℤ tour_request
      then responses ++ record m { type = tour_start } ∷ []
      else responses in
    let rest = read_people people requests answered (count - 1) in
    if ltb 0 people then rest else ret (m ∷ requests, responses, count)

-- One round of the loop of guide.c
unfoldable pub guide : Calls → Tour → Outcome Tour
guide k t = p k t.start_sem >>= λ start_sem. p k t.count_sem >>= λ taken.
    read_people t.count t.requests t.responses t.count >>= λ (requests, responses, count).
    v k taken >>= λ freed. ret (record {
      count = count;
      count_sem = freed;
      start_sem = start_sem;
      requests = requests;
      responses = responses;
    })
