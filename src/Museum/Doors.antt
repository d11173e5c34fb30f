-- ===== src/Museum/Doors.antt =====
-- museum/src/entranceDoor.c and exitDoor.c: `main`, as processes.
pub mod Round
pub mod Answered
use sistemas_distribuid.Base.{
  ℕ, zero, suc, ℤ, pos, minus_one, is_neg, ◌=ℤ◌, if◌then◌else◌, not, List, [], ◌∷◌, ◌++◌, Option,
  none, some, Outcome,
}
use sistemas_distribuid.Ipc.Kernel.{Calls}
use sistemas_distribuid.Museum.{Hall, entrance_door, exit_door}
use sistemas_distribuid.Museum.Tour.{Message}
use sistemas_distribuid.Museum.Ipcs.{getmsg, getsem, getshm, map, unmap, rcvmsg}
use sistemas_distribuid.Museum.Processes.{museum_cap_shm, museum_cap_sem, museum_open_shm}
use sistemas_distribuid.Os.{Os, Event, graceful_quit}
use sistemas_distribuid.Os.Proc.{Proc, ret, running, pure, exit, sys, lift, ◌>>=◌, ◌>>◌}

-- What a door runs in: the answers of the kernel, those to the calls on the semaphore, what `msg`
-- holds behind `rcvmsg`, and what the other processes have made of the shared memory since the door
-- has last held its semaphore.
pub record Env : Type 0 where
  pub os : Os
  pub calls : Calls
  pub received : List Event → Message
  pub others : List Event → Hall → Hall

-- The shared memory, the requests that the door has read, and the responses that it has sent. That
-- `sendmsg` fails is only logged.
pub record Door : Type 0 where
  pub hall : Hall
  pub read : List Message
  pub responses : List Message

abbrev pub reply : Message → Option ℤ → List Message
reply msg none = []
reply msg (some type) = record msg { type = type } ∷ []

module _ (e : Env) (round : ℤ → Hall → Outcome (Option ℤ × Hall)) where
  -- The loop of both, for so many rounds at most, over what a round does with a message.
  unfoldable pub serve : ℤ → ℕ → Door → Proc Door
  serve req_queue zero d = λ s. (running, s)
  serve req_queue (suc fuel) d = do
    quit ← sys e.os graceful_quit
    if not (quit =ℤ pos 0) then pure d else do
      rcvmsg e.os req_queue
      quit ← sys e.os graceful_quit
      if not (quit =ℤ pos 0) then pure d else do
        msg ← λ s. (ret (e.received s.history), s)
        hall ← λ s. (ret (e.others s.history d.hall), s)
        (answer, hall') ← lift (round msg.type hall)
        serve req_queue fuel (record {
          hall = hall';
          read = d.read ++ msg ∷ [];
          responses = d.responses ++ reply msg answer;
        })

-- `getshm`, and `exit` where it fails; and `map`.
unfoldable pub get_shm : Os → ℕ → Proc ℤ
get_shm os id = do
  shm_id ← getshm os id
  if is_neg shm_id then exit minus_one else do map os shm_id; pure shm_id

-- The two queues, for the numbers that a door is given.
unfoldable pub get_queues : Os → ℕ → ℕ → Proc ℤ
get_queues os req_queue_id resp_queue_id = do
  req_queue ← getmsg os req_queue_id
  resp_queue ← getmsg os resp_queue_id
  if is_neg req_queue
      then exit minus_one
      else if is_neg resp_queue
      then exit minus_one
      else pure req_queue

unfoldable pub get_sem : Os → ℕ → Proc ℤ
get_sem os id = do sem ← getsem os id; if is_neg sem then exit minus_one else pure sem

-- `main` of entranceDoor.c
unfoldable pub main_entrance : Env → ℕ → ℕ → ℕ → Door → Proc Door
main_entrance e req_queue_id resp_queue_id fuel d = do
  req_queue ← get_queues e.os req_queue_id resp_queue_id
  cap_shm ← get_shm e.os museum_cap_shm
  get_sem e.os museum_cap_sem
  open_shm ← get_shm e.os museum_open_shm
  d' ← serve e (entrance_door e.calls) req_queue fuel d
  unmap e.os cap_shm
  unmap e.os open_shm
  pure d'

-- `main` of exitDoor.c
unfoldable pub main_exit : Env → ℕ → ℕ → ℕ → Door → Proc Door
main_exit e req_queue_id resp_queue_id fuel d = do
  req_queue ← get_queues e.os req_queue_id resp_queue_id
  shm ← get_shm e.os museum_cap_shm
  get_sem e.os museum_cap_sem
  d' ← serve e (exit_door e.calls) req_queue fuel d
  unmap e.os shm
  pure d'
