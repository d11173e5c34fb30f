-- ===== src/Museum/Processes.antt =====
-- museum/src/main.c: the process that makes the museum, forks the doors, the guide and the
-- generator of persons, waits for them, and deletes what it has made. What it writes into the
-- segments is the first state of Museum and Museum/Tour.
pub mod Deletion
pub mod Counted
pub mod Run
use sistemas_distribuid.Base.{
  ℕ, zero, suc, ◌+◌, ◌*◌, ◌-◌, ℤ, pos, minus_one, is_neg, ◌=ℤ◌, if◌then◌else◌, List, [], ◌∷◌,
  length,
}
use sistemas_distribuid.Os.{
  Os, Program, fork, kill, wait, entrance_door, exit_door, guide, person_gen,
}
use sistemas_distribuid.Os.Proc.{Proc, pure, exit, sys, append_child, ◌>>=◌, ◌>>◌}
use sistemas_distribuid.Os.Calls.{execl, snprintf}
use sistemas_distribuid.Museum.Ipcs.{
  creamsg, getmsg, delmsg, creasem, getsem, inisem, delsem, creashm, getshm, delshm, map,
}

abbrev pub entrance_doors : ℕ
entrance_doors = 3

abbrev pub max_childs : ℕ
max_childs = entrance_doors + 3

abbrev pub museum_cap_sem : ℕ
museum_cap_sem = 1

abbrev pub museum_open_sem : ℕ
museum_open_sem = 2

abbrev pub museum_tour_count_sem : ℕ
museum_tour_count_sem = 3

abbrev pub museum_tour_start_sem : ℕ
museum_tour_start_sem = 4

abbrev pub museum_cap_shm : ℕ
museum_cap_shm = 1

abbrev pub museum_open_shm : ℕ
museum_open_shm = 2

abbrev pub museum_tour_count_shm : ℕ
museum_tour_count_shm = 3

abbrev pub exit_door_req_msg : ℕ
exit_door_req_msg = 2 * entrance_doors

abbrev pub exit_door_resp_msg : ℕ
exit_door_resp_msg = exit_door_req_msg + 1

abbrev pub tour_req_msg : ℕ
tour_req_msg = exit_door_resp_msg + 1

abbrev pub tour_resp_msg : ℕ
tour_resp_msg = tour_req_msg + 1

unfoldable pub delete_msg_queue : Os → ℕ → Proc (Unit {0})
delete_msg_queue os id = do
  queue ← getmsg os id
  if is_neg queue then pure tt else do delmsg os queue; pure tt

unfoldable pub delete_shm : Os → ℕ → Proc (Unit {0})
delete_shm os id = do shm ← getshm os id; if is_neg shm then pure tt else do delshm os shm; pure tt

unfoldable pub delete_sem : Os → ℕ → Proc (Unit {0})
delete_sem os id = do sem ← getsem os id; if is_neg sem then pure tt else do delsem os sem; pure tt

-- The loop of `destroy_ipcs` over the entrance doors, with the number of rounds left.
unfoldable pub destroy_doors : Os → ℕ → ℕ → Proc (Unit {0})
destroy_doors os zero i = pure tt
destroy_doors os (suc rounds) i = do
  delete_msg_queue os (2 * i)
  delete_msg_queue os (2 * i + 1)
  destroy_doors os rounds (suc i)

unfoldable pub destroy_ipcs : Os → Proc (Unit {0})
destroy_ipcs os = do
  destroy_doors os entrance_doors 0
  delete_msg_queue os exit_door_req_msg
  delete_msg_queue os exit_door_resp_msg
  delete_msg_queue os tour_req_msg
  delete_msg_queue os tour_resp_msg
  delete_sem os museum_cap_sem
  delete_shm os museum_cap_shm
  delete_sem os museum_open_sem
  delete_shm os museum_open_shm
  delete_sem os museum_tour_count_sem
  delete_shm os museum_tour_count_shm
  delete_sem os museum_tour_start_sem

-- The loop of `wait_childs`, with the number of rounds left.
unfoldable pub wait_each : Os → ℕ → Proc (Unit {0})
wait_each os zero = pure tt
wait_each os (suc rounds) = do sys os wait; wait_each os rounds

-- `childs` is the length of the list.
unfoldable pub wait_childs : Os → Proc (Unit {0})
wait_childs os s = wait_each os (length s.childs) s

-- The loop of `kill_childs`. That `kill` fails is only logged.
unfoldable pub kill_each : Os → List ℤ → Proc (Unit {0})
kill_each os [] = pure tt
kill_each os (child ∷ childs) = do sys os (kill child); kill_each os childs

unfoldable pub kill_childs : Os → Proc (Unit {0})
kill_childs os s = kill_each os s.childs s

unfoldable pub safe_exit : {A : Type 0} → Os → Proc A
safe_exit os = do kill_childs os; wait_childs os; destroy_ipcs os; exit minus_one

-- What a child runs. One that cannot become its program goes through `safe_exit` too.
unfoldable pub start_child : Os → Program → List (List ℕ) → Proc (Unit {0})
start_child os program arguments = do execl os program arguments; safe_exit os

-- `fork`, with the program of the child.
unfoldable pub start : Os → Program → List (List ℕ) → Proc (Unit {0})
start os program arguments = do
  pid ← sys os fork
  if is_neg pid
      then safe_exit os
      else if pid =ℤ pos 0
      then start_child os program arguments
      else append_child pid

unfoldable pub create_door : Os → ℕ → ℕ → Program → Proc (Unit {0})
create_door os req_queue_id resp_queue_id program = do
  req ← creamsg os req_queue_id
  if is_neg req then safe_exit os else do
    resp ← creamsg os resp_queue_id
    if is_neg resp
        then safe_exit os
        else start os program (snprintf 3 (pos req_queue_id) ∷ snprintf 3 (pos resp_queue_id) ∷ [])

-- `creasem` and `inisem`, or `safe_exit`.
unfoldable pub create_sem : Os → ℕ → ℕ → Proc (Unit {0})
create_sem os id val = do
  sem ← creasem os id
  if is_neg sem then safe_exit os else do inisem os sem val; pure tt

-- `creashm` and `map`, or `safe_exit`.
unfoldable pub create_shm : Os → ℕ → Proc (Unit {0})
create_shm os id = do shm ← creashm os id; if is_neg shm then safe_exit os else map os shm

unfoldable pub create_tour : Os → Proc (Unit {0})
create_tour os = do
  create_sem os museum_tour_count_sem 1
  create_shm os museum_tour_count_shm
  create_sem os museum_tour_start_sem 0
  req ← creamsg os tour_req_msg
  if is_neg req
      then safe_exit os
      else do resp ← creamsg os tour_resp_msg; if is_neg resp then safe_exit os else pure tt

unfoldable pub create_museum : Os → Proc (Unit {0})
create_museum os = do
  create_sem os museum_cap_sem 1
  create_shm os museum_cap_shm
  create_sem os museum_open_sem 1
  create_shm os museum_open_shm
  create_tour os

-- The loop of `main` over the entrance doors, with the number of rounds left.
unfoldable pub create_doors : Os → ℕ → ℕ → Proc (Unit {0})
create_doors os zero i = pure tt
create_doors os (suc rounds) i = do
  create_door os (2 * i) (2 * i + 1) entrance_door
  create_doors os rounds (suc i)

unfoldable pub main : Os → Proc (Unit {0})
main os = do
  create_museum os
  create_doors os entrance_doors 0
  create_door os exit_door_req_msg exit_door_resp_msg exit_door
  start os guide []
  start os person_gen []
  wait_childs os
  destroy_ipcs os
  exit (pos 0)
