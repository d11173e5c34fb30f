-- ===== src/Museum/People.antt =====
-- museum/src/person.c, museumApi.h, personGen.c and timer.c: their `main`, and `go_on_tour`, as
-- processes.
pub mod Left
pub mod Generated
pub mod Timed
use sistemas_distribuid.Base.{
  ℕ, zero, suc, ◌+◌, ◌*◌, ◌%◌, ◌==◌, ℤ, pos, minus_one, is_neg, ◌=ℤ◌, if◌then◌else◌, not, Bool,
  List, [],
}
use sistemas_distribuid.Ipc.Kernel.{Calls}
use sistemas_distribuid.Museum.{entrance_request, exit_request, accept}
use sistemas_distribuid.Museum.Tour as Tour
use sistemas_distribuid.Museum.Tour.{Tour, Message, tick}
use sistemas_distribuid.Museum.Ipcs.{getmsg, unmap, rcvmsg}
use sistemas_distribuid.Museum.Doors.{get_shm, get_sem}
use sistemas_distribuid.Museum.Processes.{
  entrance_doors, exit_door_req_msg, exit_door_resp_msg, tour_req_msg, tour_resp_msg,
  museum_tour_count_shm, museum_tour_count_sem, museum_tour_start_sem,
}
use sistemas_distribuid.Os.{Os, Event, fork, msgsnd, graceful_quit}
use sistemas_distribuid.Os as Os
use sistemas_distribuid.Os.Proc.{Proc, ret, running, pure, exit, sys, lift, ◌>>=◌, ◌>>◌}
use sistemas_distribuid.Os.Calls.{execl}

-- What a person runs in: the answers of the kernel and those to the calls on a semaphore, its pid,
-- what `rand` returns and what `msg` holds behind `rcvmsg`, and what the shared memory of the tour
-- holds when the person gets to it.
pub record Env : Type 0 where
  pub os : Os
  pub calls : Calls
  pub pid : ℤ
  pub rand : List Event → ℕ
  pub received : List Event → Message
  pub tour : List Event → Tour

-- `getmsg`, and `exit` where it fails.
unfoldable pub get_queue : Os → ℕ → Proc ℤ
get_queue os id = do queue ← getmsg os id; if is_neg queue then exit minus_one else pure queue

-- The wait for the guide, for a person that the tour has room for.
unfoldable pub await_guide : Os → Bool → ℤ → Proc (Unit {0})
await_guide os waits resp_queue = if waits then rcvmsg os resp_queue else pure tt

module _ (e : Env) where
  -- With the tour as the person leaves it. What the guide answers decides only how long it takes.
  unfoldable pub go_on_tour : Proc Tour
  go_on_tour = do
    req_queue ← get_queue e.os tour_req_msg
    resp_queue ← get_queue e.os tour_resp_msg
    tour_count_shm ← get_shm e.os museum_tour_count_shm
    get_sem e.os museum_tour_count_sem
    get_sem e.os museum_tour_start_sem
    found ← λ s. (ret (e.tour s.history), s)
    (waits, left) ← lift (Tour.go_on_tour e.calls e.pid found)
    await_guide e.os waits resp_queue
    unmap e.os tour_count_shm
    pure left

  -- `if (rand() % 2 == 0)`. The other branch sleeps.
  unfoldable pub visit : Proc (Unit {0})
  visit = do
    r ← λ s. (ret (e.rand s.history), s)
    if r % 2 == 0 then (do go_on_tour; pure tt) else pure tt

  -- `sendmsg` and `rcvmsg`, with what `msg` holds behind them. That they fail is only logged.
  unfoldable pub ask : ℤ → ℤ → ℤ → Proc Message
  ask req_queue resp_queue type = do
    sys e.os (msgsnd req_queue type)
    rcvmsg e.os resp_queue
    λ s. (ret (e.received s.history), s)

  -- What a person does that the door has let in.
  unfoldable pub inside : Proc Message
  inside = do
    visit
    exit_req_queue ← get_queue e.os exit_door_req_msg
    exit_resp_queue ← get_queue e.os exit_door_resp_msg
    msg ← ask exit_req_queue exit_resp_queue exit_request
    if not (msg.type =ℤ accept) then exit minus_one else pure msg

  -- `main` of person.c, with the message that it has got last.
  unfoldable pub main : Proc Message
  main = do
    r ← λ s. (ret (e.rand s.history), s)
    entrance_req_queue ← get_queue e.os (2 * (r % entrance_doors))
    entrance_resp_queue ← get_queue e.os (2 * (r % entrance_doors) + 1)
    msg ← ask entrance_req_queue entrance_resp_queue entrance_request
    if msg.type =ℤ accept then inside else pure msg

-- What a child of personGen.c runs.
unfoldable pub person_child : Os → Proc (Unit {0})
person_child os = do execl os Os.person []; exit minus_one

-- `main` of personGen.c, for so many rounds of its loop at most. What a child does behind its
-- branch would be what its parent does.
unfoldable pub main_generator : Os → ℕ → Proc (Unit {0})
main_generator os zero = λ s. (running, s)
main_generator os (suc fuel) = do
  quit ← sys os graceful_quit
  if not (quit =ℤ pos 0) then pure tt else do
    pid ← sys os fork
    if is_neg pid
        then exit minus_one
        else if pid =ℤ pos 0
        then (do person_child os; main_generator os fuel)
        else main_generator os fuel

-- What the timer runs in, and what the other processes have made of the shared memory of the tour
-- since it has last held its semaphore.
pub record Clock : Type 0 where
  pub os : Os
  pub calls : Calls
  pub others : List Event → Tour → Tour

module _ (e : Clock) where
  -- The loop of timer.c, for so many rounds at most.
  unfoldable pub serve_timer : ℕ → Tour → Proc Tour
  serve_timer zero t = λ s. (running, s)
  serve_timer (suc fuel) t = do
    quit ← sys e.os graceful_quit
    if not (quit =ℤ pos 0) then pure t else do
      quit ← sys e.os graceful_quit
      if not (quit =ℤ pos 0) then pure t else do
        found ← λ s. (ret (e.others s.history t), s)
        t' ← lift (tick e.calls found)
        serve_timer fuel t'

  -- `main` of timer.c
  unfoldable pub main_timer : ℕ → Tour → Proc Tour
  main_timer fuel t = do
    tour_count_shm ← get_shm e.os museum_tour_count_shm
    get_sem e.os museum_tour_count_sem
    get_sem e.os museum_tour_start_sem
    t' ← serve_timer fuel t
    unmap e.os tour_count_shm
    pure t'
