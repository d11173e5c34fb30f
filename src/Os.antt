-- ===== src/Os.antt =====
-- What a process of the system asks of the kernel, and what it is answered. The answers are a
-- parameter: they depend on all that the process has asked before.
pub mod Proc
pub mod Calls
pub mod Keeps
pub mod Children
pub mod Calm
pub mod Argument
use sistemas_distribuid.Base.{ℕ, ℤ, Bool, true, false, List, ◌∷◌}

-- The programs that a process can become.
pub data Program : Type 0 where
  worker : Program
  req_handler : Program
  resp_handler : Program
  db_handler : Program
  entrance_door : Program
  exit_door : Program
  guide : Program
  timer : Program
  person_gen : Program
  person : Program
  broker_resp_handler : Program

-- The calls with the arguments that a later step depends on. `msgget` and the like say whether
-- what they look for is to be created; `shmdt` has the segment that is unmapped; `msgsnd` has the
-- field of the message that is read; `graceful_quit` reads the flag that the signal handler sets; `global_ids_destroy` and
-- `broker_id_destroy` stand for the calls of those functions.
pub data Call : Type 0 where
  fork : Call
  execl : Program → List (List ℕ) → Call
  kill : ℤ → Call
  waitpid : ℤ → Call
  wait : Call
  ftok : ℕ → Call
  msgget : ℤ → Bool → Call
  msgrcv : ℤ → Call
  msgsnd : ℤ → ℤ → Call
  msgctl_rmid : ℤ → Call
  semget : ℤ → Bool → Call
  semctl_setval : ℤ → ℕ → Call
  semctl_rmid : ℤ → Call
  shmget : ℤ → Bool → Call
  shmat : ℤ → Call
  shmdt : ℤ → Call
  shmctl_rmid : ℤ → Call
  socket : Call
  bind : ℤ → ℕ → Call
  listen : ℤ → Call
  accept : ℤ → Call
  gethostbyname : Call
  connect : ℤ → ℕ → Call
  close : ℤ → Call
  graceful_quit : Call
  global_ids_destroy : Call
  broker_id_destroy : Call

abbrev pub is_fork : Call → Bool
is_fork fork = true
is_fork _ = false

pub record Event : Type 0 where
  pub call : Call
  pub answer : ℤ

-- The answer to a call behind the events so far, the latest first.
abbrev pub Os : Type 0
Os = List Event → Call → ℤ

-- A process: what it has asked, and its global `childs`.
pub record Process : Type 0 where
  pub history : List Event
  pub childs : List ℤ

abbrev pub log : Call → ℤ → Process → Process
log c r s = record s { history = record { call = c; answer = r } ∷ s.history }
