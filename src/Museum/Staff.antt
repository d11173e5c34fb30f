-- ===== src/Museum/Staff.antt =====
-- museum/src/guide.c and admin.c: `main`, as processes.
pub mod Touring
pub mod Ruled
use sistemas_distribuid.Base.{
  ℕ, zero, suc, ℤ, pos, minus_one, is_neg, ◌=ℤ◌, if◌then◌else◌, not, List, [], ◌∷◌,
}
use sistemas_distribuid.Ipc.Kernel.{Calls, p, v}
use sistemas_distribuid.Museum.{Hall, admin}
use sistemas_distribuid.Museum.Tour.{Tour, read_people}
use sistemas_distribuid.Museum.Ipcs.{unmap}
use sistemas_distribuid.Museum.Doors.{get_shm, get_sem}
use sistemas_distribuid.Museum.People.{get_queue}
use sistemas_distribuid.Museum.Processes.{
  museum_open_shm, tour_req_msg, tour_resp_msg, museum_tour_count_shm, museum_tour_count_sem,
  museum_tour_start_sem,
}
use sistemas_distribuid.Os.{Os, Event, fork, graceful_quit}
use sistemas_distribuid.Os as Os
use sistemas_distribuid.Os.Proc.{Proc, ret, running, pure, exit, sys, lift, ◌>>=◌, ◌>>◌}
use sistemas_distribuid.Os.Calls.{execl}

-- What the guide runs in: the answers of the kernel, those to the calls on a semaphore, and what
-- the other processes have made of the tour since it has last held the semaphore of the count.
pub record Env : Type 0 where
  pub os : Os
  pub calls : Calls
  pub others : List Event → Tour → Tour

-- What the child runs.
unfoldable pub timer_child : Os → Proc ℤ
timer_child os = do execl os Os.timer []; exit minus_one

unfoldable pub start_timer : Os → Proc ℤ
start_timer os = do
  timer_pid ← sys os fork
  if is_neg timer_pid
      then exit minus_one
      else if timer_pid =ℤ pos 0
      then timer_child os
      else pure timer_pid

module _ (e : Env) where
  -- The loop of `main`, for so many rounds at most. It breaks off behind the people of a tour with
  -- the semaphore of the count still taken.
  unfoldable pub serve : ℕ → Tour → Proc Tour
  serve zero t = λ s. (running, s)
  serve (suc fuel) t = do
    quit ← sys e.os graceful_quit
    if not (quit =ℤ pos 0) then pure t else do
      found ← λ s. (ret (e.others s.history t), s)
      started ← lift (p e.calls found.start_sem)
      quit ← sys e.os graceful_quit
      if not (quit =ℤ pos 0) then pure (record found { start_sem = started }) else do
        t' ← λ s. (ret (e.others s.history (record found { start_sem = started })), s)
        taken ← lift (p e.calls t'.count_sem)
        (requests, responses, count) ← lift (read_people t'.count t'.requests t'.responses t'.count)
        quit ← sys e.os graceful_quit
        if not (quit =ℤ pos 0)
            then pure (record t' {
              count = count;
              count_sem = taken;
              requests = requests;
              responses = responses;
            })
            else do
              freed ← lift (v e.calls taken)
              serve fuel (record t' {
                count = count;
                count_sem = freed;
                requests = requests;
                responses = responses;
              })

  -- `main` of guide.c. That the handler of the signal stops the timer is not seen here.
  unfoldable pub main_guide : ℕ → Tour → Proc Tour
  main_guide fuel t = do
    start_timer e.os
    get_queue e.os tour_req_msg
    get_queue e.os tour_resp_msg
    tour_count_shm ← get_shm e.os museum_tour_count_shm
    get_sem e.os museum_tour_count_sem
    get_sem e.os museum_tour_start_sem
    t' ← serve fuel t
    unmap e.os tour_count_shm
    pure t'

-- The loop of admin.c, with the numbers that are typed. Where no more of them are, `option` stays
-- as it is, and the loop goes on.
unfoldable pub menu : ℤ → List ℤ → Hall → Proc Hall
menu option [] h = if option =ℤ pos 3 then pure h else λ s. (running, s)
menu option (typed ∷ more) h =
    let rest = menu typed more (admin typed h) in if option =ℤ pos 3 then pure h else rest

-- `main` of admin.c, with what `option` holds before it is set.
unfoldable pub main_admin : Os → ℤ → List ℤ → Hall → Proc Hall
main_admin os option typed h = do
  open_shm ← get_shm os museum_open_shm
  h' ← menu option typed h
  unmap os open_shm
  pure h'
